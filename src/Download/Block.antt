-- ===== src/Download/Block.antt =====
-- app/download/block.py: a piece is requested in blocks.
pub mod Tiling
use peer_stream.Prelude.{
  ℕ, zero, suc, ◌+◌, ◌-◌, ◌*◌, ◌%◌, min, Bool, not, ◌&&◌, List, [], ◌∷◌, ltb, leb, ◌==◌,
  if◌then◌else◌, Result, ok, err, ◌>>=◌, ◌>>◌, guard, value_error, zero_division_error,
}
use peer_stream.Peer.Messages.{max_block_size}

pub data BlockState : Type 0 where
  missing requested received : BlockState

pub record Block : Type 0 where
  pub index : ℕ
  pub offset : ℕ
  pub size : ℕ

-- A block as its class builds it: `__post_init__`
unfoldable pub make_block : ℕ → ℕ → ℕ → Result Block
make_block index offset size = do
  guard (ltb 0 size && leb size max_block_size) value_error
  ok (record { index = index; offset = offset; size = size })

abbrev pub end : Block → ℕ
end block = block.offset + block.size

-- The `while offset < piece_size` loop. A round moves `offset` on by a byte at least, so
-- `piece_size - offset` rounds are enough.
unfoldable pub plan_from : ℕ → ℕ → ℕ → ℕ → ℕ → Result (List Block)
unfolding make_block
plan_from zero index piece_size block_size offset = ok []
plan_from (suc rounds) index piece_size block_size offset =
    let size = min block_size (piece_size - offset) in
    let rest = plan_from rounds index piece_size block_size (offset + size) in
    if ltb offset piece_size
    then (do block ← make_block index offset size; blocks ← rest; ok (block ∷ blocks))
    else ok []

unfoldable pub plan_blocks : ℕ → ℕ → ℕ → Result (List Block)
plan_blocks index piece_size block_size = do
  guard (ltb 0 block_size) value_error
  plan_from piece_size index piece_size block_size 0

-- A block size of zero divides by zero in the source; it is an error here as well.
unfoldable pub block_at : ℕ → ℕ → ℕ → Result Block
unfolding make_block
block_at piece_size offset block_size = do
  guard (ltb offset piece_size) value_error
  guard (not (block_size == 0)) zero_division_error
  guard (offset % block_size == 0) value_error
  make_block 0 offset (min block_size (piece_size - offset))
