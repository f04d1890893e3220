-- ===== src/Examples/Pieces.antt =====
-- Bitfields, blocks and pieces at concrete inputs.
use peer_stream.Prelude.{
  ℕ, zero, suc, ◌<◌, ◌≡◌, ◌≢◌, ◌↔◌, refl, true, false, not, ◌&&◌, List, [], ◌∷◌, ◌++◌, replicate,
  some, none, ltb, ◌==◌, if◌then◌else◌, get_or, ◌/◌, ◌%◌, arith, Bytes, ok, err, index_error,
}
use peer_stream.Peer.Bitfield.{
  Bitfield, put, has, holds, parse, to_wire, complete, is_none, test_bit, missing_from,
  is_interesting, mask_spare_bits,
}
use peer_stream.Peer.Bitfield.Invariant.{IsValid, mask_spare_bits-IsValid}
use peer_stream.Peer.Bitfield.Access.{has-put}
use peer_stream.Peer.Bitfield.Wire.{parse-to_wire, parse-has}
use peer_stream.Peer.Bitfield.Count.{complete_iff}
use peer_stream.Peer.Bitfield.Wanted.{missing_from_lem, member}
use peer_stream.Prelude.Sets.{discard}
use peer_stream.Download.Block.{Block, plan_blocks, plan_from}
use peer_stream.Download.Block.Tiling.{Tiles, plan_blocks-Tiles}
use peer_stream.Download.Piece.{
  Piece, make_piece, new_piece, mark_orphaned, add_block, mark_failed, assembled,
}
use peer_stream.Download.Piece.Arrival.{IsGenuine}
use peer_stream.Download.Piece.Histories.{Reach, start, next, lose, receive, fail, assembled-Reach}

-- Ten pieces, of which 0, 7 and 9 are there.
abbrev ten : Bitfield
ten = record { piece_count = 10; bits = 0x81 ∷ 0x40 ∷ [] }

ten-IsValid : IsValid ten
unfolding mask_spare_bits
ten-IsValid =
    mask_spare_bits-IsValid ten (record { size = refl; bytes = (omega arith, (omega arith, tt)) })

-- Five bytes in blocks of two.
abbrev content : Bytes
content = 1 ∷ 2 ∷ 3 ∷ 4 ∷ 5 ∷ []

abbrev digest : Bytes
digest = replicate 20 0

abbrev three_blocks : List Block
three_blocks =
    record { index = 0; offset = 0; size = 2 }
    ∷ record { index = 0; offset = 2; size = 2 }
    ∷ record { index = 0; offset = 4; size = 1 }
    ∷ []

abbrev first_piece : Piece
first_piece = new_piece 0 5 digest 2 three_blocks

first_piece-made : make_piece 0 5 digest 2 ≡ ok first_piece
unfolding make_piece plan_blocks plan_from
first_piece-made = refl

IsGenuine-front : IsGenuine content 0 (1 ∷ 2 ∷ [])
IsGenuine-front zero lt = refl
IsGenuine-front (suc zero) lt = refl
IsGenuine-front (suc (suc j)) lt = absurd (omega arith)

IsGenuine-middle : IsGenuine content 2 (3 ∷ 4 ∷ [])
IsGenuine-middle zero lt = refl
IsGenuine-middle (suc zero) lt = refl
IsGenuine-middle (suc (suc j)) lt = absurd (omega arith)

IsGenuine-back : IsGenuine content 4 (5 ∷ [])
IsGenuine-back zero lt = refl
IsGenuine-back (suc j) lt = absurd (omega arith)

-- A block is lost to a failed check, then all three arrive, the last one first.
abbrev last_piece : Piece
last_piece =
    (add_block 0 (1 ∷ 2 ∷ []) (some "b")
      (add_block 2 (3 ∷ 4 ∷ []) none
        (mark_orphaned 2 "a"
          (add_block 4 (5 ∷ []) (some "a")
            (mark_failed (add_block 2 (3 ∷ 4 ∷ []) (some "b") first_piece).1)).1).1).1).1

history : Reach content first_piece last_piece
history =
    next
      (next
        (next
          (next (next (next start (receive 2 (3 ∷ 4 ∷ []) (some "b") IsGenuine-middle)) fail)
            (receive 4 (5 ∷ []) (some "a") IsGenuine-back))
          (lose 2 "a"))
        (receive 2 (3 ∷ 4 ∷ []) none IsGenuine-middle))
      (receive 0 (1 ∷ 2 ∷ []) (some "b") IsGenuine-front)

last_piece-assembled : assembled last_piece ≡ some content
unfolding assembled add_block mark_orphaned mark_failed discard
last_piece-assembled = refl

assembled-Reach_example : content ≡ content
assembled-Reach_example =
    assembled-Reach content 0 5 digest 2 first_piece last_piece content (omega arith) (omega arith)
      refl first_piece-made history last_piece-assembled

plan_blocks-Tiles_example :
    (blocks : List Block) × (plan_blocks 3 5 2 ≡ ok blocks) × Tiles 3 2 0 5 blocks
plan_blocks-Tiles_example = plan_blocks-Tiles 3 5 2 (omega arith) (omega arith)

has-put_example :
    (after : Bitfield) × (put ten 3 true ≡ ok after)
    × IsValid after
    × (after.piece_count ≡ 10)
    × ((other : ℕ) → has after other ≡ (if 3 == other then ok true else has ten other))
has-put_example = has-put ten 3 true ten-IsValid (omega arith)

parse-to_wire_example :
    ((to_wire ten).0 ≡ ten) × (parse ((to_wire ten).1 ++ (255 ∷ [])) 10 ≡ ok ten)
parse-to_wire_example = parse-to_wire ten (255 ∷ []) ten-IsValid

parse-has_example :
    (field : Bitfield) × (parse (0x81 ∷ 0x7F ∷ []) 10 ≡ ok field)
    × IsValid field
    × (field.piece_count ≡ 10)
    × ((index : ℕ)
        → has field index ≡ (
            if ltb index 10
            then ok (test_bit (get_or (0x81 ∷ 0x7F ∷ []) (index / 8) 0) (index % 8))
            else err index_error))
parse-has_example = parse-has (0x81 ∷ 0x7F ∷ []) 10 (omega arith, (omega arith, tt)) (omega arith)

complete_iff_example :
    ((complete ten ≡ true) ↔ ((index : ℕ) → index < 10 → holds ten index ≡ true))
    × ((is_none ten ≡ true) ↔ ((index : ℕ) → index < 10 → holds ten index ≡ false))
complete_iff_example = complete_iff ten ten-IsValid

missing_from_lem_example :
    (missing : List ℕ) × (missing_from ten (record { piece_count = 10; bits = 0x11 ∷ 0x80 ∷ [] })
      ≡ ok missing)
    × ((index : ℕ)
        → member index missing
          ≡ ltb index 10
            && (holds (record { piece_count = 10; bits = 0x11 ∷ 0x80 ∷ [] }) index
                && not (holds ten index)))
    × ((is_interesting ten (record { piece_count = 10; bits = 0x11 ∷ 0x80 ∷ [] }) ≡ ok true)
        ↔ (missing ≢ []))
missing_from_lem_example =
    missing_from_lem ten (record { piece_count = 10; bits = 0x11 ∷ 0x80 ∷ [] }) refl
