-- ===== src/Download/Piece/Histories.antt =====
-- A piece from its making on: requests, lost peers, blocks in any order, checks that failed.
use peer_stream.Prelude.{
  ℕ, ◌≤◌, ◌<◌, ◌≡◌, subst, Bool-cases, true, inl, inr, Option, some, String, length, arith, Bytes,
  ok,
}
use peer_stream.Peer.Messages.{max_block_size}
use peer_stream.Download.Piece.{
  Piece, make_piece, all_received, mark_requested, mark_orphaned, add_block, assembled, release,
  mark_verifying, mark_verified, mark_failed, reset, clear,
}
use peer_stream.Download.Piece.Buffer.{eq_of_get_or}
use peer_stream.Download.Piece.Assembly.{Filled, IsAssembling, covered}
use peer_stream.Download.Piece.Arrival.{IsGenuine}
use peer_stream.Download.Piece.Kept.{
  make_piece-IsAssembling, clear-Filled, restate, give_up-IsAssembling, mark_requested-IsAssembling,
  mark_orphaned-IsAssembling, add_block-IsAssembling,
}

-- What may happen to a piece whose peers send the content's bytes.
pub data Step (content : Bytes) : Piece → Piece → Type 0 where
  request :
      {p q : Piece} (offset : ℕ) (peer : String)
      → mark_requested offset peer p ≡ ok q
      → Step content p q
  lose : {p : Piece} (offset : ℕ) (peer : String) → Step content p (mark_orphaned offset peer p).1
  receive :
      {p : Piece} (offset : ℕ) (block : Bytes) (source : Option String)
      → IsGenuine content offset block
      → Step content p (add_block offset block source p).1
  begin_check : {p : Piece} → Step content p (mark_verifying p)
  pass : {p : Piece} → all_received p.slots ≡ true → Step content p (mark_verified p)
  give_up : {p : Piece} → all_received p.slots ≡ true → Step content p (release p)
  fail : {p : Piece} → Step content p (mark_failed p)
  start_over : {p : Piece} → Step content p (reset p)

pub data Reach (content : Bytes) (first : Piece) : Piece → Type 0 where
  start : Reach content first first
  next : {p q : Piece} → Reach content first p → Step content p q → Reach content first q

Step-IsAssembling :
    (content : Bytes) (p q : Piece)
    → Step content p q
    → IsAssembling content p
    → IsAssembling content q
unfolding mark_verifying mark_verified release mark_failed reset
Step-IsAssembling content p q (request offset peer h) a =
    mark_requested-IsAssembling content p q offset peer h a
Step-IsAssembling content p q (lose offset peer) a =
    mark_orphaned-IsAssembling content p offset peer a
Step-IsAssembling content p q (receive offset block source genuine) a =
    add_block-IsAssembling content p offset block source genuine a
Step-IsAssembling content p q begin_check a = restate content p _ _ a
Step-IsAssembling content p q (pass all) a = give_up-IsAssembling content p _ all a
Step-IsAssembling content p q (give_up all) a = give_up-IsAssembling content p _ all a
Step-IsAssembling content p q fail a = restate content (clear p) _ _ (clear-Filled content p a)
Step-IsAssembling content p q start_over a =
    restate content (clear p) _ _ (clear-Filled content p a)

Reach-IsAssembling :
    (content : Bytes) (p q : Piece)
    → Reach content p q
    → IsAssembling content p
    → IsAssembling content q
Reach-IsAssembling content p q start a = a
Reach-IsAssembling content p q (next {p = m} r s) a =
    Step-IsAssembling content m q s (Reach-IsAssembling content p m r a)

assembled-IsAssembling :
    (content whole : Bytes) (p : Piece)
    → IsAssembling content p
    → assembled p ≡ some whole
    → whole ≡ content
unfolding assembled
assembled-IsAssembling content whole p a h = elim (Bool-cases (all_received p.slots)) [
  | inl all ↦
      let kept : p.buffer ≡ some whole = ground (arith, all) in
      let (long, agrees) = subst (λ b. Filled content b p.slots) kept a.filled in
      eq_of_get_or whole content long (λ i lt.
        covered content whole p.index p.block_size 0 p.size p.slots a.tiles agrees all i
          (omega arith) (let e = a.sized in omega arith))
  | inr part ↦ absurd (ground (arith, part))
]

-- Whatever the order in which the content's blocks arrive at a fresh piece, and whatever requests,
-- lost peers, repeated blocks and failed checks there are in between, the data of the piece, once
-- it has any, is the content.
pub assembled-Reach :
    (content : Bytes) (index size : ℕ) (expected_hash : Bytes) (block_size : ℕ) (first p : Piece)
    (whole : Bytes)
    → 0 < block_size
    → block_size ≤ max_block_size
    → length content ≡ size
    → make_piece index size expected_hash block_size ≡ ok first
    → Reach content first p
    → assembled p ≡ some whole
    → whole ≡ content
assembled-Reach content index size expected_hash block_size first p whole pos small sized made reach
      got =
    assembled-IsAssembling content whole p
      (Reach-IsAssembling content first p reach (
        make_piece-IsAssembling content index size expected_hash block_size first pos small sized
          made))
      got
