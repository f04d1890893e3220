-- ===== src/Download/Piece/Kept.antt =====
-- Each operation of a piece keeps its assembly.
use peer_stream.Prelude.{
  ℕ, ◌+◌, ◌≤◌, ◌<◌, ◌≡◌, refl, sym, ap, subst, ◌∙◌, Bool, Bool-cases, true, false, inl, inr, Option,
  none, some, List, [], ◌∷◌, map, All, String, length, ◌==◌, ==_iff, if◌then◌else◌, arith, Bytes,
  ok, guard-eq-ok, ◌>>=◌, value_error, Result,
}
use peer_stream.Peer.Messages.{max_block_size}
use peer_stream.Peer.Handshake.{info_hash_size}
use peer_stream.Download.Block.{Block, plan_blocks}
use peer_stream.Download.Block.Tiling.{Tiles, plan_blocks-Tiles}
use peer_stream.Download.Piece.{
  Piece, Slot, make_piece, fresh_slot, find_slot, change_slot, is_received, all_received,
  buffer_or_new, request_slot, orphan_slot, receive_slot, clear_slot, mark_requested, mark_orphaned,
  add_block, clear, store_block, new_piece, PieceState, after_request, orphaned, is_accepted,
  asked_for,
}
use peer_stream.Download.Piece.Buffer.{length-splice}
use peer_stream.Download.Piece.Slots.{IsBookkeeping, blocks-change_slot, find_slot-Tiles}
use peer_stream.Download.Piece.Assembly.{
  NotReceived, IsAssembling, Filled-change, request_slot-IsBookkeeping, orphan_slot-IsBookkeeping,
}
use peer_stream.Download.Piece.Arrival.{IsGenuine, store-All, buffer-Agrees}

pub blocks-fresh : (blocks : List Block) → map (λ s. s.block) (map fresh_slot blocks) ≡ blocks
blocks-fresh [] = refl
blocks-fresh (b ∷ blocks) = ap (λ bs. b ∷ bs) (blocks-fresh blocks)

pub blocks-clear :
    (slots : List Slot) → map (λ s. s.block) (map clear_slot slots) ≡ map (λ s. s.block) slots
blocks-clear [] = refl
blocks-clear (s ∷ slots) = ap (λ bs. s.block ∷ bs) (blocks-clear slots)

pub fresh-NotReceived : (blocks : List Block) → All NotReceived (map fresh_slot blocks)
fresh-NotReceived [] = tt
fresh-NotReceived (b ∷ blocks) = (refl, fresh-NotReceived blocks)

pub clear-NotReceived : (slots : List Slot) → All NotReceived (map clear_slot slots)
clear-NotReceived [] = tt
clear-NotReceived (s ∷ slots) = (refl, clear-NotReceived slots)

pub new_piece-IsAssembling :
    (content : Bytes) (index size : ℕ) (expected_hash : Bytes) (block_size : ℕ)
    (blocks : List Block)
    → length content ≡ size
    → Tiles index block_size 0 size blocks
    → IsAssembling content (new_piece index size expected_hash block_size blocks)
new_piece-IsAssembling content index size expected_hash block_size blocks sized tiles = record {
  sized = sized;
  tiles = subst (λ x. Tiles index block_size 0 size x) (sym (blocks-fresh blocks)) tiles;
  filled = inl (fresh-NotReceived blocks);
}

pub make_piece-IsAssembling :
    (content : Bytes) (index size : ℕ) (expected_hash : Bytes) (block_size : ℕ) (p : Piece)
    → 0 < block_size
    → block_size ≤ max_block_size
    → length content ≡ size
    → make_piece index size expected_hash block_size ≡ ok p
    → IsAssembling content p
unfolding make_piece
make_piece-IsAssembling content index size expected_hash block_size p pos small sized made =
    let (blocks, planned, tiles) = plan_blocks-Tiles index size block_size pos small in
    let build : List Block → Result Piece =
      λ bs. ok (new_piece index size expected_hash block_size bs) in
    let (_, after_guard) =
      guard-eq-ok (length expected_hash == info_hash_size) value_error
        (plan_blocks index size block_size >>= build) made in
    let same : new_piece index size expected_hash block_size blocks ≡ p =
      (let h : build blocks ≡ ok p = subst (λ r. (r >>= build) ≡ ok p) planned after_guard in cc) in
    subst (IsAssembling content) same
      (new_piece-IsAssembling content index size expected_hash block_size blocks sized tiles)

pub clear-Filled :
    (content : Bytes) (p : Piece) → IsAssembling content p → IsAssembling content (clear p)
unfolding clear
clear-Filled content p a = record {
  sized = a.sized;
  tiles = subst (λ x. Tiles p.index p.block_size 0 p.size x) (sym (blocks-clear p.slots)) a.tiles;
  filled = inl (clear-NotReceived p.slots);
}

pub change-IsAssembling :
    (content : Bytes) (p : Piece) (offset : ℕ) (change : Slot → Slot)
    → IsBookkeeping change
    → IsAssembling content p
    → IsAssembling content (record p { slots = change_slot offset change p.slots })
change-IsAssembling content p offset change book a = record {
  sized = a.sized;
  tiles =
      subst (λ x. Tiles p.index p.block_size 0 p.size x)
        (sym (blocks-change_slot offset change p.slots book.keeps_block)) a.tiles;
  filled = Filled-change content p.buffer offset change p.slots book a.filled;
}

-- The state and the failures of a piece play no part.
pub restate :
    (content : Bytes) (p : Piece) (state : PieceState) (failures : ℕ)
    → IsAssembling content p
    → IsAssembling content (record p { state = state; failures = failures })
restate content p state failures a = record { sized = a.sized; tiles = a.tiles; filled = a.filled }

pub give_up-IsAssembling :
    (content : Bytes) (p : Piece) (state : PieceState)
    → all_received p.slots ≡ true
    → IsAssembling content p
    → IsAssembling content (record p { buffer = none; state = state })
give_up-IsAssembling content p state all a = record {
  sized = a.sized;
  tiles = a.tiles;
  filled = inr all;
}

pub mark_requested-IsAssembling :
    (content : Bytes) (p q : Piece) (offset : ℕ) (peer : String)
    → mark_requested offset peer p ≡ ok q
    → IsAssembling content p
    → IsAssembling content q
unfolding mark_requested
mark_requested-IsAssembling content p q offset peer h a = go (find_slot offset p.slots) h
  where
    asked : Piece
    asked = record p {
      slots = change_slot offset (request_slot peer) p.slots;
      state = after_request p.state;
    }

    go : (o : Option Slot) → asked_for o offset peer p ≡ ok q → IsAssembling content q
    go none e = cc
    go (some s) e =
        let same : asked ≡ q = cc in
        subst (λ x. IsAssembling content x) same
          (restate content (record p { slots = change_slot offset (request_slot peer) p.slots })
            (after_request p.state) p.failures
            (change-IsAssembling content p offset (request_slot peer)
              (request_slot-IsBookkeeping peer) a))

pub mark_orphaned-IsAssembling :
    (content : Bytes) (p : Piece) (offset : ℕ) (peer : String)
    → IsAssembling content p
    → IsAssembling content (mark_orphaned offset peer p).1
unfolding mark_orphaned
mark_orphaned-IsAssembling content p offset peer a = go (find_slot offset p.slots)
  where
    go : (o : Option Slot) → IsAssembling content (orphaned o offset peer p).1
    go none = a
    go (some s) =
        change-IsAssembling content p offset (orphan_slot peer) (orphan_slot-IsBookkeeping peer) a

pub add_block-IsAssembling :
    (content : Bytes) (p : Piece) (offset : ℕ) (block : Bytes) (source : Option String)
    → IsGenuine content offset block
    → IsAssembling content p
    → IsAssembling content (add_block offset block source p).1
unfolding add_block
add_block-IsAssembling content p offset block source genuine a = go (find_slot offset p.slots) refl
  where
    outcome : Bool → Bool × Piece
    outcome accepted = if accepted then (true, store_block offset block source p) else (false, p)

    stored :
        (t : Slot)
        → find_slot offset p.slots ≡ some t
        → length block ≡ t.block.size
        → is_received t.state ≡ false
        → IsAssembling content (store_block offset block source p)
    stored t found size waiting =
        let (here, fits) =
          find_slot-Tiles p.index p.block_size 0 p.size offset p.slots t a.tiles found in
        let found₁ = subst (λ o. find_slot o p.slots ≡ some t) (sym here) found in
        let (long, agrees) = buffer-Agrees content p t a found₁ waiting in
        let within : offset + length block ≤ length (buffer_or_new p.size p.buffer) =
          (let e = a.sized in omega arith) in
        record {
          sized = a.sized;
          tiles =
              subst (λ x. Tiles p.index p.block_size 0 p.size x)
                (sym (blocks-change_slot offset receive_slot p.slots (λ s. refl))) a.tiles;
          filled = (
            length-splice offset block (buffer_or_new p.size p.buffer) within ∙ long,
            store-All content (buffer_or_new p.size p.buffer) block offset p.slots t within genuine
                found (sym size) agrees,
          );
        }

    go :
        (o : Option Slot)
        → find_slot offset p.slots ≡ o
        → IsAssembling content (outcome (is_accepted o block)).1
    go none _ = a
    go (some t) found = elim (Bool-cases (length block == t.block.size)) [
      | inl size ↦ elim (Bool-cases (is_received t.state)) [
        | inl got ↦ rw (size, got) a
        | inr waiting ↦ rw (size, waiting) (stored t found ((==_iff _ _).0 size) waiting)
      ]
      | inr other ↦ rw other a
    ]
