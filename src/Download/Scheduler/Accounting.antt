-- ===== src/Download/Scheduler/Accounting.antt =====
-- The count of the blocks that nobody was asked for, which `Scheduler` keeps up to date.
pub mod Weights
pub mod Claims
pub mod Recalled
pub mod Arrivals
pub mod Initial
use peer_stream.Prelude.{
  ℕ, zero, suc, ◌+◌, ◌≡◌, ◌≢◌, refl, sym, ap, subst, ◌∙◌, String, Bool, Bool-cases, Option-cases,
  inl, inr, true, false, not, Option, none, some, List, [], ◌∷◌, length, filter, All, ◌==◌, ==_iff,
  if◌then◌else◌, Result, ok, err, ◌>>=◌, arith, Ensures, holds, Ensures-bind, Ensures-map,
  Ensures_self,
}
use peer_stream.Prelude.Int.{ℤ, pos, negsuc}
use peer_stream.Prelude.Dicts.{get, put}
use peer_stream.Peer.Availability.{increase, decrease}
use peer_stream.Download.Block.{BlockState}
use peer_stream.Download.Piece.{
  PieceState, is_verified, after_request, Piece, Slot, find_slot, change_slot, is_missing,
  is_requested, is_received, all_received, finished, unclaimed_blocks, block_state, mark_requested,
  mark_orphaned, asked_for, orphaned, request_slot, orphan_slot, is_orphan,
}
use peer_stream.Download.Piece.Slots.{All-change_slot}
use peer_stream.Download.Scheduler.{
  Scheduler, same_index, sum_unclaimed, counted, unclaimed_count, remember_unclaimed, piece_at,
  with_piece, is_new_claim, adjust, claim, unclaim_of, unclaim,
}

-- The blocks of a piece that count as unclaimed.
abbrev pub weight : Piece → ℕ
weight p = if finished p then 0 else unclaimed_blocks p

-- A finished piece has no request; a piece that was on disk from the start has no block either.
abbrev pub IsQuiet : Piece → Type 0
IsQuiet p = finished p ≡ true → All (λ s. is_requested s.state ≡ false) p.slots

-- A piece under an index.
pub record IsSound (index : ℕ) (p : Piece) : Type 0 where
  pub indexed : p.index ≡ index
  pub blocks : All (λ s. s.block.index ≡ index) p.slots
  pub quiet : IsQuiet p

abbrev pub AllSound : List (ℕ × Piece) → Type 0
AllSound pieces = All (λ entry. IsSound entry.0 entry.1) pieces

-- No index stands twice.
abbrev pub AreDistinct : List (ℕ × Piece) → Type 0
AreDistinct [] = Unit
AreDistinct (entry ∷ pieces) = (get same_index entry.0 pieces ≡ none) × AreDistinct pieces

-- The pieces are sound, and a count that is kept is the number of the unclaimed blocks.
pub record IsAccounted (s : Scheduler) : Type 0 where
  pub sound : AllSound s.pieces
  pub distinct : AreDistinct s.pieces
  pub exact : (n : ℤ) → s.unclaimed ≡ some n → n ≡ pos (sum_unclaimed s.pieces)

pub sum_unclaimed-put :
    (index : ℕ) (p q : Piece) (pieces : List (ℕ × Piece))
    → get same_index index pieces ≡ some p
    → sum_unclaimed (put same_index index q pieces) + weight p ≡ sum_unclaimed pieces + weight q
sum_unclaimed-put index p q [] h = cc
sum_unclaimed-put index p q ((i, r) ∷ pieces) h = elim (Bool-cases (index == i)) [
  | inl e ↦
      let same : r ≡ p = ap (λ (o : Option Piece). elim o [ none ↦ r | some x ↦ x ]) (rw e at h) in
      rw (e, same) (omega arith)
  | inr e ↦ rw e (omega (arith, sum_unclaimed-put index p q pieces (rw e at h)))
]

pub AllSound-put :
    (index : ℕ) (q : Piece) (pieces : List (ℕ × Piece))
    → IsSound index q
    → AllSound pieces
    → AllSound (put same_index index q pieces)
AllSound-put index q [] h hs = (h, tt)
AllSound-put index q ((i, r) ∷ pieces) h (g, hs) = elim (Bool-cases (index == i)) [
  | inl e ↦ rw e (subst (λ j. IsSound j q) ((==_iff index i).0 e) h, hs)
  | inr e ↦ rw e (g, AllSound-put index q pieces h hs)
]

pub AllSound-get :
    (index : ℕ) (p : Piece) (pieces : List (ℕ × Piece))
    → get same_index index pieces ≡ some p
    → AllSound pieces
    → IsSound index p
AllSound-get index p [] h hs = cc
AllSound-get index p ((i, r) ∷ pieces) h (g, hs) = elim (Bool-cases (index == i)) [
  | inl e ↦
      subst (IsSound index)
        (ap (λ (o : Option Piece). elim o [ none ↦ r | some x ↦ x ]) (rw e at h))
        (subst (λ j. IsSound j r) (sym ((==_iff index i).0 e)) g)
  | inr e ↦ AllSound-get index p pieces (rw e at h) hs
]

get-put_other :
    (index j : ℕ) (p q : Piece) (pieces : List (ℕ × Piece))
    → get same_index index pieces ≡ some p
    → get same_index j pieces ≡ none
    → get same_index j (put same_index index q pieces) ≡ none
get-put_other index j p q [] h absent = cc
get-put_other index j p q ((i, r) ∷ pieces) h absent =
    ground (arith, get-put_other index j p q pieces)

pub AreDistinct-put :
    (index : ℕ) (p q : Piece) (pieces : List (ℕ × Piece))
    → get same_index index pieces ≡ some p
    → AreDistinct pieces
    → AreDistinct (put same_index index q pieces)
AreDistinct-put index p q [] h d = cc
AreDistinct-put index p q ((i, r) ∷ pieces) h (new, d) = elim (Bool-cases (index == i)) [
  | inl e ↦ rw e (new, d)
  | inr e ↦ rw e (
    get-put_other index i p q pieces (rw e at h) new,
    AreDistinct-put index p q pieces (rw e at h) d,
  )
]

abbrev pub one_if : Bool → ℕ
one_if b = if b then 1 else 0

abbrev pub missing_in : List Slot → ℕ
missing_in slots = length (filter (λ s. is_missing s.state) slots)

pub missing_in-change_slot :
    (offset : ℕ) (change : Slot → Slot) (slots : List Slot) (s : Slot)
    → find_slot offset slots ≡ some s
    → missing_in (change_slot offset change slots) + one_if (is_missing s.state)
      ≡ missing_in slots + one_if (is_missing (change s).state)
missing_in-change_slot offset change [] s h = cc
missing_in-change_slot offset change (x ∷ slots) s h =
    elim (Bool-cases (x.block.offset == offset)) [
      | inl e ↦
          let same : x ≡ s =
            ap (λ (o : Option Slot). elim o [ none ↦ x | some y ↦ y ]) (rw e at h) in
          rw (e, same) (ground arith)
      | inr e ↦ rw e (ground (arith, missing_in-change_slot offset change slots s (rw e at h)))
    ]

-- The pieces and the count are as they were.
pub IsAccounted-same :
    (before after : Scheduler)
    → after.pieces ≡ before.pieces
    → after.unclaimed ≡ before.unclaimed
    → IsAccounted before
    → IsAccounted after
IsAccounted-same before after same count a = record {
  sound = subst AllSound (sym same) a.sound;
  distinct = subst AreDistinct (sym same) a.distinct;
  exact = λ n h. a.exact n (sym count ∙ h) ∙ ap (λ d. pos (sum_unclaimed d)) (sym same);
}

pub remember_unclaimed-IsAccounted :
    (s : Scheduler) → IsAccounted s → IsAccounted (remember_unclaimed s)
remember_unclaimed-IsAccounted s a = record {
  sound = a.sound;
  distinct = a.distinct;
  exact = λ n h.
      ap (λ (o : Option ℤ). elim o [ none ↦ n | some x ↦ x ]) (sym h)
      ∙ counted_exact s.unclaimed a.exact;
}
  where
    counted_exact :
        (count : Option ℤ)
        → ((n : ℤ) → count ≡ some n → n ≡ pos (sum_unclaimed s.pieces))
        → counted count s.pieces ≡ pos (sum_unclaimed s.pieces)
    counted_exact none exact = refl
    counted_exact (some n) exact = exact n refl
