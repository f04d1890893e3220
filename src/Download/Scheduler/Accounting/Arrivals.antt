-- ===== src/Download/Scheduler/Accounting/Arrivals.antt =====
-- The count under what happens to a piece.
use peer_stream.Prelude.{
  ℕ, ◌+◌, ◌≡◌, refl, sym, ap, ◌∙◌, String, Bool, Bool-cases, inl, inr, true, false, ◌&&◌, and_true,
  and_false, Option, some, List, [], ◌∷◌, map, All, Bytes, arith,
}
use peer_stream.Prelude.Int.{pos}
use peer_stream.Prelude.Dicts.{get}
use peer_stream.Download.Block.{BlockState}
use peer_stream.Download.Piece.{
  Piece, PieceState, Slot, find_slot, change_slot, is_missing, is_requested, is_received,
  all_received, complete, finished, unclaimed_blocks, add_block, receive_slot, after_block,
  is_accepted, mark_verifying, mark_verified, mark_failed, reset, clear, clear_slot, is_verified,
}
use peer_stream.Download.Piece.Slots.{All-change_slot}
use peer_stream.Download.Scheduler.{
  Scheduler, same_index, sum_unclaimed, with_piece, note_piece_reset, forget_piece,
}
use peer_stream.Download.Scheduler.Accounting.{
  weight, IsSound, IsAccounted, sum_unclaimed-put, AllSound-put, AreDistinct-put, missing_in,
  missing_in-change_slot, one_if,
}

-- A piece in place of another one, with as many unclaimed blocks.
pub with_piece-IsAccounted :
    (index : ℕ) (p q : Piece) (s : Scheduler)
    → get same_index index s.pieces ≡ some p
    → IsSound index q
    → weight q ≡ weight p
    → IsAccounted s
    → IsAccounted (with_piece index q s)
with_piece-IsAccounted index p q s found sound same a = record {
  sound = AllSound-put index q s.pieces sound a.sound;
  distinct = AreDistinct-put index p q s.pieces found a.distinct;
  exact = λ n h.
      a.exact n h
      ∙ ap pos {x = sum_unclaimed s.pieces}
          (omega (arith, sum_unclaimed-put index p q s.pieces found));
}

-- A piece in place of another one, and no count.
pub reset_piece-IsAccounted :
    (index : ℕ) (p q : Piece) (s : Scheduler)
    → get same_index index s.pieces ≡ some p
    → IsSound index q
    → IsAccounted s
    → IsAccounted (note_piece_reset index (with_piece index q s))
unfolding note_piece_reset forget_piece
reset_piece-IsAccounted index p q s found sound a = record {
  sound = AllSound-put index q s.pieces sound a.sound;
  distinct = AreDistinct-put index p q s.pieces found a.distinct;
  exact = λ n h. absurd (cc h);
}

clear_slot-blocks :
    (index : ℕ) (slots : List Slot)
    → All (λ s. s.block.index ≡ index) slots
    → All (λ s. s.block.index ≡ index) (map clear_slot slots)
clear_slot-blocks index [] h = tt
clear_slot-blocks index (s ∷ slots) (h, hs) = (h, clear_slot-blocks index slots hs)

pub reset-IsSound :
    (index : ℕ) (p : Piece) → IsSound index p → IsSound index (reset (mark_failed p))
unfolding reset mark_failed clear finished
reset-IsSound index p sound = record {
  indexed = sound.indexed;
  blocks =
      clear_slot-blocks index (map clear_slot p.slots)
        (clear_slot-blocks index p.slots sound.blocks);
  quiet = λ done. absurd (cc done);
}

-- All the blocks of a complete piece have arrived.
all_received-settled :
    (slots : List Slot)
    → all_received slots ≡ true
    → All (λ s. is_requested s.state ≡ false) slots × (missing_in slots ≡ 0)
all_received-settled [] h = (tt, refl)
all_received-settled (s ∷ slots) h = elim (Bool-cases (is_received s.state)) [
  | inl e ↦
      let (quiet, none') = all_received-settled slots (rw e at h) in
      let (calm, here) = settled s.state e in ((calm, quiet), rw here none')
  | inr e ↦ absurd (cc (rw e at h))
]
  where
    settled :
        (state : BlockState)
        → is_received state ≡ true
        → (is_requested state ≡ false) × (is_missing state ≡ false)
    settled BlockState.missing h = absurd (cc h)
    settled BlockState.requested h = absurd (cc h)
    settled BlockState.received h = (refl, refl)

pub verifying-kept :
    (index : ℕ) (p : Piece)
    → complete p ≡ true
    → IsSound index p
    → IsSound index (mark_verifying p) × (weight (mark_verifying p) ≡ weight p)
unfolding mark_verifying complete finished unclaimed_blocks
verifying-kept index p done sound = (
  record { indexed = sound.indexed; blocks = sound.blocks; quiet = λ h. absurd (cc h) },
  elim (Bool-cases (is_verified p.state)) [
    | inl e ↦ rw e (all_received-settled p.slots done).1
    | inr e ↦ rw e refl
  ],
)

pub verified-kept :
    (index : ℕ) (p : Piece)
    → complete p ≡ true
    → IsSound index p
    → IsSound index (mark_verified p) × (weight (mark_verified p) ≡ weight p)
unfolding mark_verified complete finished unclaimed_blocks
verified-kept index p done sound = (
  record {
    indexed = sound.indexed;
    blocks = sound.blocks;
    quiet = λ _. (all_received-settled p.slots done).0;
  },
  elim (Bool-cases (is_verified p.state)) [
    | inl e ↦ rw e refl
    | inr e ↦ rw e (sym (all_received-settled p.slots done).1)
  ],
)

after_block-undone :
    (b : Bool) (state : PieceState)
    → is_verified state ≡ false
    → is_verified (after_block b state) ≡ false
after_block-undone true state h = refl
after_block-undone false PieceState.missing h = refl
after_block-undone false PieceState.requested h = refl
after_block-undone false PieceState.downloading h = refl
after_block-undone false PieceState.downloaded h = refl
after_block-undone false PieceState.verifying h = refl
after_block-undone false PieceState.verified h = h
after_block-undone false PieceState.failed h = refl

-- A block that arrives, whether it is taken or not: the weight of the piece is less by one exactly
-- when it is taken for a missing block.
pub add_block-weight :
    (index offset : ℕ) (block : Bytes) (source : Option String) (p : Piece) (s : Slot)
    → find_slot offset p.slots ≡ some s
    → finished p ≡ false
    → IsSound index p
    → IsSound index (add_block offset block source p).1
      × (weight (add_block offset block source p).1
            + one_if (is_missing s.state && (add_block offset block source p).0)
          ≡ weight p)
unfolding add_block finished unclaimed_blocks
add_block-weight index offset block source p s found undone sound =
    elim (Bool-cases (is_accepted (find_slot offset p.slots) block)) [
      | inr refused ↦ rw refused (sound, omega (arith, ap one_if (and_false (is_missing s.state))))
      | inl taken ↦
          let slots = change_slot offset receive_slot p.slots in
          let still = after_block-undone (all_received slots) p.state undone in
          rw taken (
            record {
              indexed = sound.indexed;
              blocks = All-change_slot offset receive_slot p.slots (λ x h _. h) sound.blocks;
              quiet = λ done. absurd (cc (sym still ∙ done));
            },
            rw (still, undone)
                (omega (
                  arith,
                  ap one_if (and_true (is_missing s.state)),
                  missing_in-change_slot offset receive_slot p.slots s found,
                )),
          )
    ]
