-- ===== src/Download/Piece/Assembly.antt =====
-- The assembled piece is the content that the blocks were cut from, whatever the order of arrival,
-- and whatever was requested, orphaned or thrown away on the way.
use peer_stream.Prelude.{
  ℕ, ◌+◌, ◌-◌, ◌≤◌, ◌<◌, ◌≡◌, refl, sym, ap, ◌∙◌, true, false, ◌⊎◌, inl, inr, Option, none, some,
  List, [], ◌∷◌, map, All, String, length, get_or, arith, Bytes, dec_lt,
}
use peer_stream.Download.Block.Tiling.{Tiles}
use peer_stream.Download.Piece.{
  Piece, Slot, change_slot, is_received, all_received, splice, request_slot, orphan_slot,
}
use peer_stream.Download.Piece.Buffer.{get_or-splice}
use peer_stream.Download.Piece.Slots.{IsBookkeeping, All-change_slot, all_received-change_slot}

-- The bytes of a block that arrived are those of the content.
abbrev pub Agrees : Bytes → Bytes → Slot → Type 0
Agrees content buffer s =
    is_received s.state ≡ true
    → (i : ℕ) → s.block.offset ≤ i
    → i < s.block.offset + s.block.size
    → get_or buffer i 0 ≡ get_or content i 0

abbrev pub NotReceived : Slot → Type 0
NotReceived s = is_received s.state ≡ false

-- With no buffer nothing has arrived, or all has and the buffer was given up.
abbrev pub Filled : Bytes → Option Bytes → List Slot → Type 0
Filled content none slots = All NotReceived slots ⊎ (all_received slots ≡ true)
Filled content (some buffer) slots =
    (length buffer ≡ length content) × All (Agrees content buffer) slots

pub record IsAssembling (content : Bytes) (p : Piece) : Type 0 where
  pub sized : length content ≡ p.size
  pub tiles : Tiles p.index p.block_size 0 p.size (map (λ s. s.block) p.slots)
  pub filled : Filled content p.buffer p.slots

-- Bookkeeping keeps the assembly.
pub Filled-change :
    (content : Bytes) (buffer : Option Bytes) (offset : ℕ) (change : Slot → Slot)
    (slots : List Slot)
    → IsBookkeeping change
    → Filled content buffer slots
    → Filled content buffer (change_slot offset change slots)
Filled-change content none offset change slots book (inl nothing) =
    inl (All-change_slot offset change slots (λ s h _. book.keeps_received s ∙ h) nothing)
Filled-change content none offset change slots book (inr all) =
    inr (all_received-change_slot offset change slots book.keeps_received ∙ all)
Filled-change content (some buffer) offset change slots book (size, agrees) = (
  size,
  All-change_slot offset change slots
      (λ s h _ r i. rw (book.keeps_block s) (h (sym (book.keeps_received s) ∙ r) i)) agrees,
)

pub request_slot-IsBookkeeping : (peer : String) → IsBookkeeping (request_slot peer)
request_slot-IsBookkeeping peer = record {
  keeps_block = λ s. refl;
  keeps_received = λ s. ground arith;
}

pub orphan_slot-IsBookkeeping : (peer : String) → IsBookkeeping (orphan_slot peer)
orphan_slot-IsBookkeeping peer = record {
  keeps_block = λ s. refl;
  keeps_received = λ s. ground arith;
}

-- A block of the content, put into a buffer that agrees with it, gives one that agrees as well.
pub Agrees-splice :
    (content buffer block : Bytes) (offset : ℕ) (s : Slot)
    → offset + length block ≤ length buffer
    → ((j : ℕ) → j < length block → get_or block j 0 ≡ get_or content (offset + j) 0)
    → Agrees content buffer s
    → Agrees content (splice offset block buffer) s
Agrees-splice content buffer block offset s fits genuine agrees r i lo hi =
    let (inside, before, after) = get_or-splice offset block buffer i fits in
    elim (dec_lt i offset) [
      | yes early ↦ before early ∙ agrees r i lo hi
      | no reached ↦ elim (dec_lt i (offset + length block)) [
        | yes within ↦
            let back : offset + (i - offset) ≡ i = omega arith in
            inside (omega arith) within
            ∙ genuine (i - offset) (omega arith)
            ∙ ap (λ j. get_or content j 0) back
        | no late ↦ after (omega arith) ∙ agrees r i lo hi
      ]
    ]

-- What arrived in a piece that is complete is every byte of it.
pub covered :
    (content buffer : Bytes) (index block_size first last : ℕ) (slots : List Slot)
    → Tiles index block_size first last (map (λ s. s.block) slots)
    → All (Agrees content buffer) slots
    → all_received slots ≡ true
    → (i : ℕ) → first ≤ i
    → i < last
    → get_or buffer i 0 ≡ get_or content i 0
covered content buffer index block_size first last [] t agrees all i lo hi = absurd (omega arith)
covered content buffer index block_size first last (s ∷ slots) (_, here, _, _, _, rest) (now, later)
      all i lo hi =
    let got : is_received s.state ≡ true = ground arith in
    let others : all_received slots ≡ true = ground arith in
    elim (dec_lt i (first + s.block.size)) [
      | yes within ↦ now got i (omega arith) (omega arith)
      | no beyond ↦
          covered content buffer index block_size (first + s.block.size) last slots rest later
            others i (omega arith) hi
    ]
