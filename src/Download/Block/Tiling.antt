-- ===== src/Download/Block/Tiling.antt =====
-- The planned blocks cover the piece once, in order.
use peer_stream.Prelude.{
  ℕ, zero, suc, ◌+◌, ◌-◌, ◌%◌, ◌≤◌, ◌<◌, ◌≡◌, refl, min, List, [], ◌∷◌, arith, ok, dec_lt, lt→ltb,
  All,
}
use peer_stream.Peer.Messages.{max_block_size}
use peer_stream.Download.Block.{Block, plan_from, plan_blocks, block_at}

-- The blocks are those of piece `index`; they follow one another from `first` to `last`, each is
-- nominal but for the one at the end, and starts at a multiple of the block size.
abbrev pub Tiles : ℕ → ℕ → ℕ → ℕ → List Block → Type 0
Tiles index block_size first last [] = first ≡ last
Tiles index block_size first last (b ∷ blocks) =
    (b.index ≡ index)
    × (b.offset ≡ first)
    × (0 < b.size)
    × (b.size ≡ min block_size (last - first))
    × (first % block_size ≡ 0)
    × Tiles index block_size (first + b.size) last blocks

mod-add_self : (a s : ℕ) → 0 < s → a % s ≡ 0 → (a + s) % s ≡ 0
mod-add_self a s pos h = grind arith

next_whole : (o n s : ℕ) → 0 < s → o % s ≡ 0 → o + min s (n - o) < n → (o + min s (n - o)) % s ≡ 0
next_whole o n s pos whole more =
    let full_size : min s (n - o) ≡ s = omega arith in rw full_size (mod-add_self o s pos whole)

plan_step :
    (rounds index n s o : ℕ) {blocks : List Block}
    → 0 < s
    → s ≤ max_block_size
    → o < n
    → plan_from rounds index n s (o + min s (n - o)) ≡ ok blocks
    → plan_from (suc rounds) index n s o
      ≡ ok (record { index = index; offset = o; size = min s (n - o) } ∷ blocks)
unfolding plan_from
plan_step rounds index n s o pos small more planned = ground arith

plan_done : (rounds index n s o : ℕ) → n ≤ o → plan_from rounds index n s o ≡ ok []
unfolding plan_from
plan_done zero index n s o h = refl
plan_done (suc rounds) index n s o h = ground arith

plan_from-Tiles :
    (rounds index piece_size block_size offset : ℕ)
    → 0 < block_size
    → block_size ≤ max_block_size
    → offset ≤ piece_size
    → piece_size - offset ≤ rounds
    → (offset < piece_size → offset % block_size ≡ 0)
    → (blocks : List Block) × (plan_from rounds index piece_size block_size offset ≡ ok blocks)
      × Tiles index block_size offset piece_size blocks
plan_from-Tiles zero index n s o pos small le enough whole =
    ([], plan_done zero index n s o (omega arith), omega arith)
plan_from-Tiles (suc rounds) index n s o pos small le enough whole = elim (dec_lt o n) [
  | yes more ↦
      let next : o + min s (n - o) ≤ n = omega arith in
      let left : n - (o + min s (n - o)) ≤ rounds = omega arith in
      let (blocks, planned, tiles) =
        plan_from-Tiles rounds index n s (o + min s (n - o)) pos small next left
          (next_whole o n s pos (whole more)) in
      (
        record { index = index; offset = o; size = min s (n - o) } ∷ blocks,
        plan_step rounds index n s o pos small more planned,
        (refl, refl, omega arith, refl, whole more, tiles),
      )
  | no done ↦ ([], plan_done (suc rounds) index n s o (omega arith), omega arith)
]

-- A positive block size within the limit always gives a plan, and its blocks cover the piece from
-- the first byte to the last, one after the other, each nominal but for the last.
pub plan_blocks-Tiles :
    (index piece_size block_size : ℕ)
    → 0 < block_size
    → block_size ≤ max_block_size
    → (blocks : List Block) × (plan_blocks index piece_size block_size ≡ ok blocks)
      × Tiles index block_size 0 piece_size blocks
unfolding plan_blocks
plan_blocks-Tiles index n s pos small =
    let (blocks, planned, tiles) =
      plan_from-Tiles n index n s 0 pos small (omega arith) (omega arith) (λ _. omega arith) in
    (blocks, rw (lt→ltb 0 s pos) planned, tiles)

-- For a positive block size within the limit, each of the blocks that cover a piece is what
-- `block_at` gives for its offset.
pub block_at-Tiles :
    (piece_size block_size first : ℕ) (blocks : List Block)
    → 0 < block_size
    → block_size ≤ max_block_size
    → Tiles 0 block_size first piece_size blocks
    → All (λ b. block_at piece_size b.offset block_size ≡ ok b) blocks
unfolding block_at
block_at-Tiles n s o [] pos small tiles = tt
block_at-Tiles n s o (b ∷ blocks) pos small (same, here, some_bytes, nominal, whole, rest) = (
  (let aligned : b.offset % s ≡ 0 = rw here whole in ground arith),
  block_at-Tiles n s (o + b.size) blocks pos small rest,
)
