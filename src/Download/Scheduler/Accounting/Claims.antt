-- ===== src/Download/Scheduler/Accounting/Claims.antt =====
-- `_claim` and `_unclaim` keep the count exact.
use peer_stream.Prelude.{
  ℕ, suc, ◌+◌, ◌≡◌, ◌≢◌, refl, sym, ap, ◌∙◌, String, Bool, Option-cases, inl, inr, true, false,
  Option, none, some, ok, arith, Ensures, holds, Ensures-bind, Ensures-map, Ensures_self,
}
use peer_stream.Prelude.Int.{ℤ, pos}
use peer_stream.Prelude.Dicts.{get, put}
use peer_stream.Peer.Availability.{increase, decrease}
use peer_stream.Download.Piece.{
  Piece, Slot, find_slot, is_missing, finished, block_state, mark_requested, mark_orphaned,
}
use peer_stream.Download.Scheduler.{
  Scheduler, same_index, sum_unclaimed, piece_at, with_piece, is_new_claim, adjust, claim, unclaim,
}
use peer_stream.Download.Scheduler.Accounting.{
  IsAccounted, sum_unclaimed-put, AllSound-put, AllSound-get, AreDistinct-put, one_if,
}
use peer_stream.Download.Scheduler.Accounting.Weights.{mark_requested-weight, mark_orphaned-weight}

-- A count that has followed a change.
exact-decrease :
    (is_new : Bool) (m : ℤ) (before after : ℕ)
    → m ≡ pos before
    → after + one_if is_new ≡ before
    → (n : ℤ) → adjust decrease is_new (some m) ≡ some n
    → n ≡ pos after
exact-decrease true m before after same less n h =
    let e : before ≡ suc after = omega arith in
    ap (λ (o : Option ℤ). elim o [ none ↦ n | some x ↦ x ]) (sym h) ∙ (rw (same, e) refl)
exact-decrease false m before after same less n h =
    let e : before ≡ after = omega arith in
    ap (λ (o : Option ℤ). elim o [ none ↦ n | some x ↦ x ]) (sym h) ∙ (rw (same, e) refl)

exact-increase :
    (free : Bool) (m : ℤ) (before after : ℕ)
    → m ≡ pos before
    → after ≡ before + one_if free
    → (n : ℤ) → adjust increase free (some m) ≡ some n
    → n ≡ pos after
exact-increase true m before after same more n h =
    let e : after ≡ suc before = omega arith in
    ap (λ (o : Option ℤ). elim o [ none ↦ n | some x ↦ x ]) (sym h) ∙ (rw (same, e) refl)
exact-increase false m before after same more n h =
    let e : after ≡ before = omega arith in
    ap (λ (o : Option ℤ). elim o [ none ↦ n | some x ↦ x ]) (sym h) ∙ (rw (same, e) refl)

adjust-none : (change : ℤ → ℤ) (b : Bool) (n : ℤ) → adjust change b none ≢ some n
adjust-none change true n h = cc
adjust-none change false n h = cc

pub unclaim-IsAccounted :
    (index offset : ℕ) (peer : String) (s : Scheduler)
    → IsAccounted s
    → IsAccounted (unclaim index offset peer s)
unfolding unclaim
unclaim-IsAccounted index offset peer s a = elim (Option-cases (get same_index index s.pieces)) [
  | inl absent ↦ rw absent a
  | inr (p, found) ↦
      let q = (mark_orphaned offset peer p).1 in
      let free = (mark_orphaned offset peer p).0 in
      let (sound, heavier) =
        mark_orphaned-weight index offset peer p (AllSound-get index p s.pieces found a.sound) in
      rw found (record {
        sound = AllSound-put index q s.pieces sound a.sound;
        distinct = AreDistinct-put index p q s.pieces found a.distinct;
        exact = λ n h. elim (Option-cases s.unclaimed) [
          | inl unknown ↦ absurd (adjust-none increase free n (rw unknown at h))
          | inr (m, count) ↦
              exact-increase free m (sum_unclaimed s.pieces)
                (sum_unclaimed (put same_index index q s.pieces)) (a.exact m count)
                (omega (arith, heavier, sum_unclaimed-put index p q s.pieces found)) n
                (rw count at h)
        ];
      })
]

pub piece_at-get :
    (index : ℕ) (s : Scheduler) (p : Piece)
    → piece_at index s ≡ ok p
    → get same_index index s.pieces ≡ some p
piece_at-get index s p h = elim (Option-cases (get same_index index s.pieces)) [
  | inl absent ↦ cc (rw (absent, piece_at) at h)
  | inr (x, found) ↦ ground (arith, found, h)
]

pub mark_requested-find_slot :
    (offset : ℕ) (peer : String) (p q : Piece)
    → mark_requested offset peer p ≡ ok q
    → (s : Slot) × (find_slot offset p.slots ≡ some s)
unfolding mark_requested
mark_requested-find_slot offset peer p q h = elim (Option-cases (find_slot offset p.slots)) [
  | inl absent ↦ cc (rw absent at h)
  | inr found ↦ found
]

is_new_claim-is_missing :
    (m : ℤ) (offset : ℕ) (p : Piece) (s : Slot) (is_new : Bool)
    → is_new_claim (some m) offset p ≡ ok is_new
    → find_slot offset p.slots ≡ some s
    → is_new ≡ is_missing s.state
unfolding block_state
is_new_claim-is_missing m offset p s is_new h found = ground arith

claimed-IsAccounted :
    (index offset : ℕ) (peer : String) (s : Scheduler) (p q : Piece) (is_new : Bool)
    → IsAccounted s
    → get same_index index s.pieces ≡ some p
    → finished p ≡ false
    → is_new_claim s.unclaimed offset p ≡ ok is_new
    → mark_requested offset peer p ≡ ok q
    → IsAccounted (record (with_piece index q s) { unclaimed = adjust decrease is_new s.unclaimed })
claimed-IsAccounted index offset peer s p q is_new a found undone new marked =
    let (slot, there) = mark_requested-find_slot offset peer p q marked in
    let (sound, lighter) =
      mark_requested-weight index offset peer p q slot there marked undone
        (AllSound-get index p s.pieces found a.sound) in
    record {
      sound = AllSound-put index q s.pieces sound a.sound;
      distinct = AreDistinct-put index p q s.pieces found a.distinct;
      exact = λ n h. elim (Option-cases s.unclaimed) [
        | inl unknown ↦ absurd (adjust-none decrease is_new n (rw unknown at h))
        | inr (m, count) ↦
            let e : is_new ≡ is_missing slot.state =
              is_new_claim-is_missing m offset p slot is_new (rw count at new) there in
            exact-decrease is_new m (sum_unclaimed s.pieces)
              (sum_unclaimed (put same_index index q s.pieces)) (a.exact m count)
              (omega (arith, lighter, ap one_if e, sum_unclaimed-put index p q s.pieces found)) n
              (rw count at h)
      ];
    }

pub claim-IsAccounted :
    (index offset : ℕ) (peer : String) (s : Scheduler)
    → IsAccounted s
    → ((p : Piece) → get same_index index s.pieces ≡ some p → finished p ≡ false)
    → Ensures IsAccounted (λ e. Unit {0}) (claim index offset peer s)
unfolding claim
claim-IsAccounted index offset peer s a undone =
    Ensures-bind (Ensures-map (λ p h. h) (λ e h. tt) (Ensures_self (piece_at index s))) (λ p found.
      Ensures-bind
        (Ensures-map (λ b h. h) (λ e h. tt) (Ensures_self (is_new_claim s.unclaimed offset p)))
        (λ is_new new.
          Ensures-bind
            (Ensures-map (λ q h. h) (λ e h. tt) (Ensures_self (mark_requested offset peer p)))
            (λ q marked. holds (
              claimed-IsAccounted index offset peer s p q is_new a (piece_at-get index s p found)
                (undone p (piece_at-get index s p found)) new marked))))
