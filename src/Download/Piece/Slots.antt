-- ===== src/Download/Piece/Slots.antt =====
-- What a change of one slot leaves alone.
use peer_stream.Prelude.{
  ℕ, ◌+◌, ◌≤◌, ◌≡◌, refl, Bool-cases, true, inl, inr, some, List, [], ◌∷◌, map, All, ◌==◌, ==_iff,
  arith,
}
use peer_stream.Download.Block.{Block}
use peer_stream.Download.Block.Tiling.{Tiles}
use peer_stream.Download.Piece.{Slot, find_slot, change_slot, is_received, all_received}

-- The change is to the state and the requesters of a block, and does not say whether it arrived.
pub record IsBookkeeping (change : Slot → Slot) : Type 0 where
  pub keeps_block : (s : Slot) → (change s).block ≡ s.block
  pub keeps_received : (s : Slot) → is_received (change s).state ≡ is_received s.state

pub blocks-change_slot :
    (offset : ℕ) (change : Slot → Slot) (slots : List Slot)
    → ((s : Slot) → (change s).block ≡ s.block)
    → map (λ s. s.block) (change_slot offset change slots) ≡ map (λ s. s.block) slots
blocks-change_slot offset change [] h = refl
blocks-change_slot offset change (s ∷ slots) h =
    ground (arith, blocks-change_slot offset change slots h, h s)

pub All-change_slot {κ} :
    {P : Slot → Type κ} (offset : ℕ) (change : Slot → Slot) (slots : List Slot)
    → ((s : Slot) → P s → s.block.offset ≡ offset → P (change s))
    → All P slots
    → All P (change_slot offset change slots)
All-change_slot offset change [] h all = tt
All-change_slot offset change (s ∷ slots) h (p, all) =
    elim (Bool-cases (s.block.offset == offset)) [
      | inl here ↦ rw here (h s p ((==_iff _ offset).0 here), all)
      | inr other ↦ rw other (p, All-change_slot offset change slots h all)
    ]

pub all_received-change_slot :
    (offset : ℕ) (change : Slot → Slot) (slots : List Slot)
    → ((s : Slot) → is_received (change s).state ≡ is_received s.state)
    → all_received (change_slot offset change slots) ≡ all_received slots
all_received-change_slot offset change [] h = refl
all_received-change_slot offset change (s ∷ slots) h =
    ground (arith, all_received-change_slot offset change slots h, h s)

-- A slot that is found starts at the offset, and ends within the piece.
pub Tiles-le :
    (index block_size first last : ℕ) (blocks : List Block)
    → Tiles index block_size first last blocks
    → first ≤ last
Tiles-le index block_size first last [] t = omega arith
Tiles-le index block_size first last (b ∷ blocks) (_, _, pos, nominal, _, rest) = omega arith

pub find_slot-Tiles :
    (index block_size first last offset : ℕ) (slots : List Slot) (s : Slot)
    → Tiles index block_size first last (map (λ s. s.block) slots)
    → find_slot offset slots ≡ some s
    → (s.block.offset ≡ offset) × (offset + s.block.size ≤ last)
find_slot-Tiles index block_size first last offset [] s t h = cc
find_slot-Tiles index block_size first last offset (x ∷ slots) s (_, here, pos, nominal, _, rest)
      h =
    ground (arith, find_slot-Tiles index block_size (first + x.block.size) last offset slots s rest)

pub find_slot-all_received :
    (offset : ℕ) (slots : List Slot) (s : Slot)
    → find_slot offset slots ≡ some s
    → all_received slots ≡ true
    → is_received s.state ≡ true
find_slot-all_received offset [] s h all = cc
find_slot-all_received offset (x ∷ slots) s h all =
    ground (arith, find_slot-all_received offset slots s)
