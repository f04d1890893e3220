-- ===== src/Download/Piece/Arrival.antt =====
-- The bytes of the content arrive in the buffer.
use peer_stream.Prelude.{
  ℕ, ◌+◌, ◌-◌, ◌≤◌, ◌<◌, ◌≡◌, sym, ap, subst, ◌∙◌, Bool-cases, false, inl, inr, Option, none, some,
  List, [], ◌∷◌, All, length, get_or, replicate, length-replicate, ◌==◌, ==_iff, arith, Bytes,
}
use peer_stream.Download.Piece.{
  Piece, Slot, find_slot, change_slot, is_received, splice, buffer_or_new, receive_slot,
}
use peer_stream.Download.Piece.Buffer.{get_or-splice}
use peer_stream.Download.Piece.Slots.{find_slot-all_received}
use peer_stream.Download.Piece.Assembly.{Agrees, NotReceived, Filled, IsAssembling, Agrees-splice}

-- The bytes are those that the content has at the offset.
abbrev pub IsGenuine : Bytes → ℕ → Bytes → Type 0
IsGenuine content offset block =
    (j : ℕ) → j < length block → get_or block j 0 ≡ get_or content (offset + j) 0

-- The block that was written is there.
pub received-Agrees :
    (content buffer block : Bytes) (s : Slot)
    → s.block.offset + length block ≤ length buffer
    → s.block.size ≡ length block
    → IsGenuine content s.block.offset block
    → Agrees content (splice s.block.offset block buffer) (receive_slot s)
received-Agrees content buffer block s fits size genuine r i lo hi =
    let offset = s.block.offset in
    let (inside, _, _) = get_or-splice offset block buffer i fits in
    let back : offset + (i - offset) ≡ i = omega arith in
    inside lo (omega arith) ∙ genuine (i - offset) (omega arith) ∙ ap (λ j. get_or content j 0) back

pub splice-All :
    (content buffer block : Bytes) (offset : ℕ) (slots : List Slot)
    → offset + length block ≤ length buffer
    → IsGenuine content offset block
    → All (Agrees content buffer) slots
    → All (Agrees content (splice offset block buffer)) slots
splice-All content buffer block offset [] fits genuine agrees = tt
splice-All content buffer block offset (s ∷ slots) fits genuine (now, later) = (
  Agrees-splice content buffer block offset s fits genuine now,
  splice-All content buffer block offset slots fits genuine later,
)

-- A write of genuine bytes for the block that starts at their offset.
pub store-All :
    (content buffer block : Bytes) (offset : ℕ) (slots : List Slot) (t : Slot)
    → offset + length block ≤ length buffer
    → IsGenuine content offset block
    → find_slot offset slots ≡ some t
    → t.block.size ≡ length block
    → All (Agrees content buffer) slots
    → All (Agrees content (splice offset block buffer)) (change_slot offset receive_slot slots)
store-All content buffer block offset [] t fits genuine found size agrees = tt
store-All content buffer block offset (s ∷ slots) t fits genuine found size (now, later) =
    elim (Bool-cases (s.block.offset == offset)) [
      | inl here ↦
          let at : s.block.offset ≡ offset = (==_iff _ offset).0 here in
          let same : s ≡ t = ground (arith, here) in
          let size₁ : s.block.size ≡ length block = ap (λ x. x.block.size) same ∙ size in
          let put : Agrees content (splice s.block.offset block buffer) (receive_slot s) =
            received-Agrees content buffer block s (omega arith) size₁
              (subst (λ o. IsGenuine content o block) (sym at) genuine) in
          rw here (
            subst (λ o. Agrees content (splice o block buffer) (receive_slot s)) at put,
            splice-All content buffer block offset slots fits genuine later,
          )
      | inr other ↦ rw other (
        Agrees-splice content buffer block offset s fits genuine now,
        store-All content buffer block offset slots t fits genuine (ground (arith, other)) size
            later,
      )
    ]

-- Before the first block there is no buffer, and no claim on its bytes.
pub idle-Agrees :
    (content buffer : Bytes) (slots : List Slot)
    → All NotReceived slots
    → All (Agrees content buffer) slots
idle-Agrees content buffer [] idle = tt
idle-Agrees content buffer (s ∷ slots) (no_yet, idle) =
    (λ r. cc, idle-Agrees content buffer slots idle)

-- What the buffer is when a block that has not arrived is stored.
pub buffer-Agrees :
    (content : Bytes) (p : Piece) (t : Slot)
    → IsAssembling content p
    → find_slot t.block.offset p.slots ≡ some t
    → is_received t.state ≡ false
    → (length (buffer_or_new p.size p.buffer) ≡ length content)
      × All (Agrees content (buffer_or_new p.size p.buffer)) p.slots
buffer-Agrees content p t a found waiting = go p.buffer a.filled
  where
    go :
        (b : Option Bytes)
        → Filled content b p.slots
        → (length (buffer_or_new p.size b) ≡ length content)
          × All (Agrees content (buffer_or_new p.size b)) p.slots
    go none (inl idle) = (
      length-replicate p.size 0 ∙ sym a.sized,
      idle-Agrees content (replicate p.size 0) p.slots idle,
    )
    go none (inr all) =
        (let e = find_slot-all_received t.block.offset p.slots t found all in absurd cc)
    go (some buffer) filled = filled
