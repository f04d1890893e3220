-- ===== src/Peer/Availability.antt =====
-- `PieceAvailability` of app/peer/bitfield.py: how many peers hold each piece. A count goes below zero
-- where more is taken off than was put on. A field is read in range only, since the sizes are
-- compared first.
pub mod Counts
pub mod Rarest
use peer_stream.Prelude.{
  ℕ, zero, suc, Bool, true, false, ◌&&◌, ◌||◌, Option, none, some, List, [], ◌∷◌, length, take,
  replicate, get_elem?, get_or, ltb, ◌==◌, if◌then◌else◌, Result, ok, err, ◌>>=◌, ◌>>◌, guard,
  value_error, index_error,
}
use peer_stream.Prelude.Sorting.{sort_by}
use peer_stream.Prelude.Int.{ℤ, pos, negsuc}
use peer_stream.Peer.Bitfield.{Bitfield, has}

pub record PieceAvailability : Type 0 where
  pub counts : List ℤ

abbrev pub make_availability : ℕ → PieceAvailability
make_availability piece_count = record { counts = replicate piece_count (pos 0) }

abbrev pub increase : ℤ → ℤ
increase (pos n) = pos (suc n)
increase (negsuc zero) = pos 0
increase (negsuc (suc n)) = negsuc n

abbrev pub decrease : ℤ → ℤ
decrease (pos zero) = negsuc 0
decrease (pos (suc n)) = pos n
decrease (negsuc n) = negsuc (suc n)

-- The loop of `_apply`, from an index on
unfoldable pub apply_from : Bitfield → (ℤ → ℤ) → ℕ → List ℤ → Result (List ℤ)
apply_from field change index [] = ok []
apply_from field change index (c ∷ counts) = do
  held ← has field index
  rest ← apply_from field change (suc index) counts
  ok ((if held then change c else c) ∷ rest)

unfoldable pub apply_field : Bitfield → (ℤ → ℤ) → PieceAvailability → Result PieceAvailability
apply_field field change a = do
  guard (field.piece_count == length a.counts) value_error
  counts ← apply_from field change 0 a.counts
  ok record { counts = counts }

abbrev pub add_field : Bitfield → PieceAvailability → Result PieceAvailability
add_field field a = apply_field field increase a

abbrev pub remove_field : Bitfield → PieceAvailability → Result PieceAvailability
remove_field field a = apply_field field decrease a

unfoldable pub change_at : (ℤ → ℤ) → ℕ → List ℤ → Result (List ℤ)
change_at change index [] = err index_error
change_at change zero (c ∷ counts) = ok (change c ∷ counts)
change_at change (suc index) (c ∷ counts) = do rest ← change_at change index counts; ok (c ∷ rest)

abbrev pub add_piece : ℕ → PieceAvailability → Result PieceAvailability
add_piece index a = change_at increase index a.counts >>= λ counts. ok record { counts = counts }

abbrev pub remove_piece : ℕ → PieceAvailability → Result PieceAvailability
remove_piece index a = change_at decrease index a.counts >>= λ counts. ok record { counts = counts }

abbrev pub found_count : Option ℤ → Result ℤ
found_count none = err index_error
found_count (some c) = ok c

abbrev pub count_of : ℕ → PieceAvailability → Result ℤ
count_of index a = found_count (get_elem? a.counts index)

-- `range(len(self._counts))` with the test of `rarest`, from an index on
unfoldable pub candidates_from : Bitfield → ℕ → ℕ → Result (List ℕ)
candidates_from wanted index zero = ok []
candidates_from wanted index (suc more) = do
  held ← has wanted index
  rest ← candidates_from wanted (suc index) more
  ok (if held then index ∷ rest else rest)

-- `(count, index) < (count₁, index₁)`
abbrev pub is_less : ℤ → ℕ → ℤ → ℕ → Bool
is_less (pos m) i (pos n) j = ltb m n || ((m == n) && ltb i j)
is_less (pos m) i (negsuc n) j = false
is_less (negsuc m) i (pos n) j = true
is_less (negsuc m) i (negsuc n) j = ltb n m || ((m == n) && ltb i j)

abbrev pub is_rarer : List ℤ → ℕ → ℕ → Bool
is_rarer counts i j = is_less (get_or counts i (pos 0)) i (get_or counts j (pos 0)) j

abbrev pub limited : Option ℕ → List ℕ → List ℕ
limited none is = is
limited (some limit) is = take limit is

unfoldable pub rarest : Bitfield → Option ℕ → PieceAvailability → Result (List ℕ)
rarest wanted limit a = do
  candidates ← candidates_from wanted 0 (length a.counts)
  ok (limited limit (sort_by (is_rarer a.counts) candidates))
