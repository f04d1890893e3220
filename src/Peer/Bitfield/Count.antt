-- ===== src/Peer/Bitfield/Count.antt =====
-- The count of a bitfield, taken from its bytes as one number, is the number of pieces it holds.
use peer_stream.Prelude.{
  ℕ, zero, suc, ◌+◌, ◌-◌, ◌*◌, ◌/◌, ◌%◌, ◌≤◌, ◌<◌, ◌≡◌, ◌↔◌, refl, sym, ap, ◌∙◌, Bool, Bool-cases,
  true, false, inl, inr, [], ◌∷◌, ◌++◌, length, get_or, filter, range_from, foldl, ==_iff, arith,
  Bytes, IsBytes, length-append, filter-append, range_from-add, filter-range_from_none,
  length-filter-range_from_all, length-filter-range_from_full, length-filter-range_from_zero,
  dec_lt, zero-add,
}
use peer_stream.Peer.Bitfield.{
  Bitfield, test_bit, holds, bit_count_below, bit_count, count, complete, is_none, indices,
}
use peer_stream.Peer.Bitfield.Masks.{bit_count-byte}
use peer_stream.Peer.Bitfield.Invariant.{IsValid}

-- Fuel beyond the number makes no difference.
bit_count_fuel : (f g n : ℕ) → n ≤ f → n ≤ g → bit_count_below f n ≡ bit_count_below g n
bit_count_fuel zero zero n hf hg = refl
bit_count_fuel zero (suc g) n hf hg = ground arith
bit_count_fuel (suc f) zero n hf hg = ground arith
bit_count_fuel (suc f) (suc g) n hf hg =
    ground (arith, bit_count_fuel f g (n / 2) (omega arith) (omega arith))

bit_count_step : (n : ℕ) → bit_count n ≡ n % 2 + bit_count (n / 2)
unfolding bit_count
bit_count_step zero = refl
bit_count_step (suc n) =
    ground (arith, bit_count_fuel n (suc n / 2) (suc n / 2) (omega arith) (omega arith))

-- The ones among the lowest `k` digits, and the number without them.
abbrev low_count : ℕ → ℕ → ℕ
low_count zero n = 0
low_count (suc k) n = n % 2 + low_count k (n / 2)

abbrev shift : ℕ → ℕ → ℕ
shift zero n = n
shift (suc k) n = shift k (n / 2)

bit_count_split : (k n : ℕ) → bit_count n ≡ low_count k n + bit_count (shift k n)
bit_count_split zero n = omega arith
bit_count_split (suc k) n = omega (arith, bit_count_step n, bit_count_split k (n / 2))

low_count-push : (a b : ℕ) → low_count 8 (a * 256 + b) ≡ low_count 8 b
low_count-push a b = omega arith

shift-push : (a b : ℕ) → b < 256 → shift 8 (a * 256 + b) ≡ a
shift-push a b h = omega arith

shift-byte : (b : ℕ) → b < 256 → shift 8 b ≡ 0
shift-byte b h = omega arith

-- A byte pushed behind a number adds its ones.
bit_count-push : (a b : ℕ) → b < 256 → bit_count (a * 256 + b) ≡ bit_count a + bit_count b
unfolding bit_count
bit_count-push a b h = omega (
  arith,
  bit_count_split 8 (a * 256 + b),
  bit_count_split 8 b,
  low_count-push a b,
  ap bit_count (shift-push a b h),
  ap bit_count (shift-byte b h),
)

abbrev ones : Bytes → ℕ
ones [] = 0
ones (b ∷ bits) = bit_count_below 256 b + ones bits

bit_count-foldl :
    (acc : ℕ) (bits : Bytes)
    → IsBytes bits
    → bit_count (foldl (λ n b. n * 256 + b) acc bits) ≡ bit_count acc + ones bits
bit_count-foldl acc [] h = omega arith
bit_count-foldl acc (b ∷ bits) h =
    let byte : bit_count b ≡ bit_count_below 256 b =
      unfold bit_count in bit_count_fuel b 256 b (omega arith) (omega (arith, h.0)) in
    omega (arith, bit_count-foldl (acc * 256 + b) bits h.1, bit_count-push acc b h.0, byte)

abbrev bit_at : Bytes → ℕ → Bool
bit_at bits index = test_bit (get_or bits (index / 8) 0) (index % 8)

bit_at-cons : (b : ℕ) (bits : Bytes) (s : ℕ) → bit_at (b ∷ bits) (8 + s) ≡ bit_at bits s
bit_at-cons b bits s =
    let place : (8 + s) / 8 ≡ suc (s / 8) = omega arith in
    let bit : (8 + s) % 8 ≡ s % 8 = omega arith in rw (place, bit)

filter-bit_at_cons :
    (b : ℕ) (bits : Bytes) (s n : ℕ)
    → length (filter (bit_at (b ∷ bits)) (range_from (8 + s) n))
      ≡ length (filter (bit_at bits) (range_from s n))
filter-bit_at_cons b bits s zero = refl
filter-bit_at_cons b bits s (suc n) =
    let moved : 8 + s + 1 ≡ 8 + (s + 1) = omega arith in
    rw (bit_at-cons b bits s, moved)
      (elim (Bool-cases (bit_at bits s)) [
        | inl one ↦ rw one (ap suc (filter-bit_at_cons b bits (s + 1) n))
        | inr none_here ↦ rw none_here (filter-bit_at_cons b bits (s + 1) n)
      ])

ones-filter :
    (bits : Bytes)
    → IsBytes bits
    → ones bits ≡ length (filter (bit_at bits) (range_from 0 (8 * length bits)))
ones-filter [] h = refl
ones-filter (b ∷ bits) h =
    let more : 8 * suc (length bits) ≡ 8 + 8 * length bits = omega arith in
    let first = range_from 0 8 in
    let rest = range_from 8 (8 * length bits) in
    let split : range_from 0 (8 * suc (length bits)) ≡ first ++ rest =
      ap (range_from 0) more ∙ range_from-add 0 8 (8 * length bits) in
    rw (split, filter-append (bit_at (b ∷ bits)) first rest)
      (omega (
        arith,
        bit_count-byte b h.0,
        ones-filter bits h.1,
        length-append (filter (bit_at (b ∷ bits)) first) (filter (bit_at (b ∷ bits)) rest),
        filter-bit_at_cons b bits 0 (8 * length bits),
      ))

-- In a valid bitfield the number of ones in the bytes is the number of pieces listed.
pub count-length-indices : (field : Bitfield) → IsValid field → count field ≡ length (indices field)
unfolding count indices
count-length-indices field v =
    let n = field.piece_count in
    let extra = 8 * length field.bits - n in
    let all : 8 * length field.bits ≡ n + extra = omega (arith, v.size) in
    let none_past : filter (bit_at field.bits) (range_from n extra) ≡ [] =
      filter-range_from_none (bit_at field.bits) n extra (λ i le. unfold holds in v.clear i le) in
    let split : range_from 0 (8 * length field.bits) ≡ range_from 0 n ++ range_from n extra =
      ap (range_from 0) all ∙ rw zero-add at (range_from-add 0 n extra) in
    omega (
      arith,
      bit_count-foldl 0 field.bits v.bytes,
      ones-filter field.bits v.bytes,
      ap (λ r. length (filter (bit_at field.bits) r)) split,
      ap length (filter-append (bit_at field.bits) (range_from 0 n) (range_from n extra)),
      ap (λ r. length (filter (bit_at field.bits) (range_from 0 n) ++ r)) none_past,
      length-append (filter (bit_at field.bits) (range_from 0 n)) [],
    )

-- A valid bitfield is complete exactly when it holds every piece of the torrent, and empty exactly
-- when it holds none.
pub complete_iff :
    (field : Bitfield)
    → IsValid field
    → ((complete field ≡ true)
        ↔ ((index : ℕ) → index < field.piece_count → holds field index ≡ true))
      × ((is_none field ≡ true)
          ↔ ((index : ℕ) → index < field.piece_count → holds field index ≡ false))
complete_iff field v = ((all_set, set_all), (none_set, set_none))
  where
    n : ℕ
    n = field.piece_count

    counted : count field ≡ length (filter (holds field) (range_from 0 n))
    counted = unfold indices in count-length-indices field v

    all_set : complete field ≡ true → (index : ℕ) → index < n → holds field index ≡ true
    all_set h index lt =
        let full_count : count field ≡ n = (==_iff (count field) n).0 (unfold complete in h) in
        length-filter-range_from_all (holds field) 0 n (sym counted ∙ full_count) index
          (omega arith) (omega arith)

    set_all : ((index : ℕ) → index < n → holds field index ≡ true) → complete field ≡ true
    set_all h =
        let full_count : count field ≡ n =
          counted
          ∙ length-filter-range_from_full (holds field) 0 n (λ i lo hi. h i (omega arith)) in
        unfold complete in (==_iff (count field) n).1 full_count

    none_set : is_none field ≡ true → (index : ℕ) → index < n → holds field index ≡ false
    none_set h index lt =
        let no_count : count field ≡ 0 = (==_iff (count field) 0).0 (unfold is_none in h) in
        length-filter-range_from_zero (holds field) 0 n (sym counted ∙ no_count) index (omega arith)
          (omega arith)

    set_none : ((index : ℕ) → index < n → holds field index ≡ false) → is_none field ≡ true
    set_none h =
        let none_listed =
          filter-range_from_none (holds field) 0 n (λ i lo. nowhere i (dec_lt i n)) in
        unfold is_none in (==_iff (count field) 0).1 (counted ∙ ap length none_listed)
      where
        nowhere : (i : ℕ) → Dec (i < n) → holds field i ≡ false
        nowhere i (yes lt) = h i lt
        nowhere i (no past) = v.clear i (omega arith)
