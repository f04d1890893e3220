-- ===== src/Download/Scheduler/Accounting/Weights.antt =====
-- What a request, and giving one up, do to the unclaimed blocks of a piece.
use peer_stream.Prelude.{
  ℕ, ◌+◌, ◌≡◌, refl, sym, ap, subst, ◌∙◌, String, Bool-cases, Option-cases, inl, inr, false, Option,
  none, some, List, [], ◌∷◌, All, ◌==◌, if◌then◌else◌, Result, ok, err, arith,
}
use peer_stream.Download.Block.{BlockState}
use peer_stream.Download.Piece.{
  PieceState, is_verified, after_request, Piece, Slot, find_slot, change_slot, is_missing,
  is_requested, finished, unclaimed_blocks, mark_requested, mark_orphaned, request_slot,
  orphan_slot, is_orphan,
}
use peer_stream.Download.Piece.Slots.{All-change_slot}
use peer_stream.Download.Scheduler.Accounting.{weight, IsSound, one_if, missing_in-change_slot}

pub request_slot-is_missing :
    (peer : String) (s : Slot) → is_missing (request_slot peer s).state ≡ false
request_slot-is_missing peer s = go s.state
  where
    go :
        (state : BlockState)
        → is_missing (if is_missing state then BlockState.requested else state) ≡ false
    go BlockState.missing = refl
    go BlockState.requested = refl
    go BlockState.received = refl

-- Whether an orphaned block is requested or missing.
pub orphan_slot-state :
    (peer : String) (s : Slot)
    → (is_requested s.state ≡ false → is_requested (orphan_slot peer s).state ≡ false)
      × (one_if (is_missing (orphan_slot peer s).state)
          ≡ one_if (is_missing s.state)
            + one_if (is_orphan (orphan_slot peer s).requesters s.state))
      × (is_requested s.state ≡ false → is_orphan (orphan_slot peer s).requesters s.state ≡ false)
orphan_slot-state peer s = go (orphan_slot peer s).requesters s.state
  where
    after : List String → BlockState → BlockState
    after left state = if is_orphan left state then BlockState.missing else state

    go :
        (left : List String) (state : BlockState)
        → (is_requested state ≡ false → is_requested (after left state) ≡ false)
          × (one_if (is_missing (after left state))
              ≡ one_if (is_missing state) + one_if (is_orphan left state))
          × (is_requested state ≡ false → is_orphan left state ≡ false)
    go [] BlockState.missing = (λ h. h, omega arith, λ h. h)
    go [] BlockState.requested = (λ h. refl, omega arith, λ h. h)
    go [] BlockState.received = (λ h. h, omega arith, λ h. h)
    go (q ∷ left) BlockState.missing = (λ h. h, omega arith, λ h. refl)
    go (q ∷ left) BlockState.requested = (λ h. h, omega arith, λ h. refl)
    go (q ∷ left) BlockState.received = (λ h. h, omega arith, λ h. refl)

pub after_request-is_verified :
    (state : PieceState) → is_verified (after_request state) ≡ is_verified state
after_request-is_verified PieceState.missing = refl
after_request-is_verified PieceState.requested = refl
after_request-is_verified PieceState.downloading = refl
after_request-is_verified PieceState.downloaded = refl
after_request-is_verified PieceState.verifying = refl
after_request-is_verified PieceState.verified = refl
after_request-is_verified PieceState.failed = refl

pub All-find_slot {κ} :
    (P : Slot → Type κ) (offset : ℕ) (slots : List Slot) (s : Slot)
    → find_slot offset slots ≡ some s
    → All P slots
    → P s
All-find_slot P offset [] s h hs = cc
All-find_slot P offset (x ∷ slots) s h (p, hs) = elim (Bool-cases (x.block.offset == offset)) [
  | inl e ↦ subst P (ap (λ (o : Option Slot). elim o [ none ↦ x | some y ↦ y ]) (rw e at h)) p
  | inr e ↦ All-find_slot P offset slots s (rw e at h) hs
]

-- A request takes a missing block out of the weight of its piece, and no other.
pub mark_requested-weight :
    (index offset : ℕ) (peer : String) (p q : Piece) (s : Slot)
    → find_slot offset p.slots ≡ some s
    → mark_requested offset peer p ≡ ok q
    → finished p ≡ false
    → IsSound index p
    → IsSound index q × (weight q + one_if (is_missing s.state) ≡ weight p)
unfolding mark_requested finished unclaimed_blocks
mark_requested-weight index offset peer p q s found marked undone sound =
    let slots = change_slot offset (request_slot peer) p.slots in
    let result : Piece = record p { slots = slots; state = after_request p.state } in
    let known : mark_requested offset peer p ≡ ok result = rw found refl in
    let e : q ≡ result =
      ap (λ (r : Result Piece). elim r [ ok x ↦ x | err _ ↦ p ]) (sym marked ∙ known) in
    let still : is_verified (after_request p.state) ≡ false =
      after_request-is_verified p.state ∙ undone in
    rw e (
      record {
        indexed = sound.indexed;
        blocks = All-change_slot offset (request_slot peer) p.slots (λ x h _. h) sound.blocks;
        quiet = λ done. absurd (cc (sym still ∙ done));
      },
      rw (still, undone)
          (omega (
            arith,
            missing_in-change_slot offset (request_slot peer) p.slots s found,
            ap one_if (request_slot-is_missing peer s),
          )),
    )

-- A block that is left free is back in the weight of its piece.
pub mark_orphaned-weight :
    (index offset : ℕ) (peer : String) (p : Piece)
    → IsSound index p
    → IsSound index (mark_orphaned offset peer p).1
      × (weight (mark_orphaned offset peer p).1 ≡ weight p + one_if (mark_orphaned offset peer p).0)
unfolding mark_orphaned finished unclaimed_blocks
mark_orphaned-weight index offset peer p sound = elim (Option-cases (find_slot offset p.slots)) [
  | inl absent ↦ rw absent (sound, omega arith)
  | inr (s, found) ↦ rw found (
    record {
      indexed = sound.indexed;
      blocks = All-change_slot offset (orphan_slot peer) p.slots (λ x h _. h) sound.blocks;
      quiet = λ done.
          All-change_slot offset (orphan_slot peer) p.slots
            (λ x h _. (orphan_slot-state peer x).0 h) (sound.quiet done);
    },
    elim (Bool-cases (is_verified p.state)) [
      | inl done ↦ rw done (
          omega (
            arith,
            ap one_if (
                (orphan_slot-state peer s).2 (
                  All-find_slot (λ x. is_requested x.state ≡ false) offset p.slots s found
                    (sound.quiet done))),
          ))
      | inr undone ↦ rw undone (
          omega (
            arith,
            missing_in-change_slot offset (orphan_slot peer) p.slots s found,
            (orphan_slot-state peer s).1,
          ))
    ],
  )
]
