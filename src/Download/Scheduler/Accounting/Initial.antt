-- ===== src/Download/Scheduler/Accounting/Initial.antt =====
-- The count of a scheduler for the pieces that `build_pieces` gives.
use peer_stream.Prelude.{
  ℕ, zero, suc, ◌+◌, ◌-◌, ◌≡◌, refl, sym, subst, ◌∙◌, min, Bool, Bool-cases, inl, inr, true, false,
  ◌&&◌, List, [], ◌∷◌, map, length, All, ltb, leb, ◌==◌, ==_iff, if◌then◌else◌, Bytes, ok, arith,
  Ensures, holds, raises, Ensures-if, Ensures-bind, Ensures-guard, Ensures-ok,
}
use peer_stream.Prelude.Dicts.{put, get-put}
use peer_stream.Peer.Messages.{max_block_size}
use peer_stream.Peer.Handshake.{info_hash_size}
use peer_stream.Download.Block.{Block, make_block, plan_from, plan_blocks}
use peer_stream.Download.Piece.{
  Piece, Slot, fresh_slot, make_piece, mark_verified, build_from, build_pieces, is_requested,
}
use peer_stream.Download.Scheduler.{DownloadConfig, same_index, index_pieces, make_scheduler}
use peer_stream.Download.Scheduler.Accounting.{
  IsSound, AllSound, AreDistinct, IsAccounted, AllSound-put,
}

abbrev IsOf : ℕ → List Block → Type 0
IsOf index blocks = All (λ (b : Block). b.index ≡ index) blocks

plan_from-IsOf :
    (rounds index piece_size block_size offset : ℕ)
    → Ensures (IsOf index) (λ e. Unit {0}) (plan_from rounds index piece_size block_size offset)
unfolding plan_from make_block
plan_from-IsOf zero index piece_size block_size offset = holds tt
plan_from-IsOf (suc rounds) index piece_size block_size offset =
    let size = min block_size (piece_size - offset) in
    Ensures-if (ltb offset piece_size)
      (λ _.
        Ensures-bind {P = λ (b : Block). b.index ≡ index}
          (Ensures-guard (ltb 0 size && leb size max_block_size) _ tt (λ _. holds refl))
          (λ b here.
            Ensures-bind (plan_from-IsOf rounds index piece_size block_size (offset + size))
              (λ rest there. holds (here, there))))
      (λ _. holds tt)

fresh_slots-IsSound :
    (index : ℕ) (blocks : List Block)
    → IsOf index blocks
    → All (λ (s : Slot). s.block.index ≡ index) (map fresh_slot blocks)
      × All (λ (s : Slot). is_requested s.state ≡ false) (map fresh_slot blocks)
fresh_slots-IsSound index [] h = (tt, tt)
fresh_slots-IsSound index (b ∷ blocks) (h, hs) =
    let (same, quiet) = fresh_slots-IsSound index blocks hs in ((h, same), (refl, quiet))

make_piece-IsSound :
    (index size : ℕ) (piece_hash : Bytes) (block_size : ℕ)
    → Ensures
        (λ p. IsSound index p × IsSound index (mark_verified p))
        (λ e. Unit {0})
        (make_piece index size piece_hash block_size)
unfolding make_piece plan_blocks mark_verified
make_piece-IsSound index size piece_hash block_size =
    Ensures-guard (length piece_hash == info_hash_size) _ tt (λ _.
      Ensures-bind
        (Ensures-guard (ltb 0 block_size) _ tt (λ _. plan_from-IsOf size index size block_size 0))
        (λ blocks is_of.
          let (same, quiet) = fresh_slots-IsSound index blocks is_of in
          holds (
            record { indexed = refl; blocks = same; quiet = λ _. quiet },
            record { indexed = refl; blocks = same; quiet = λ _. quiet },
          )))

-- Each piece is sound under its own index.
abbrev AllBuilt : List Piece → Type 0
AllBuilt pieces = All (λ (p : Piece). IsSound p.index p) pieces

own_index : (index : ℕ) (p : Piece) → IsSound index p → IsSound p.index p
own_index index p sound = subst (λ i. IsSound i p) (sym sound.indexed) sound

build_from-AllBuilt :
    (index block_size : ℕ) (is_done : ℕ → Bool) (sizes : List ℕ) (hashes : List Bytes)
    → Ensures AllBuilt (λ e. Unit {0}) (build_from index block_size is_done sizes hashes)
unfolding build_from
build_from-AllBuilt index block_size is_done [] [] = holds tt
build_from-AllBuilt index block_size is_done [] (piece_hash ∷ hashes) = raises tt
build_from-AllBuilt index block_size is_done (size ∷ sizes) [] = raises tt
build_from-AllBuilt index block_size is_done (size ∷ sizes) (piece_hash ∷ hashes) =
    Ensures-bind (make_piece-IsSound index size piece_hash block_size) (λ p (fresh, verified).
      Ensures-bind (build_from-AllBuilt (index + 1) block_size is_done sizes hashes) (λ rest built.
        holds (elim (is_done index) as (λ b. AllBuilt ((if b then mark_verified p else p) ∷ rest)) [
          | true ↦ (own_index index (mark_verified p) verified, built)
          | false ↦ (own_index index p fresh, built)
        ])))

AreDistinct-put_any :
    (index : ℕ) (q : Piece) (pieces : List (ℕ × Piece))
    → AreDistinct pieces
    → AreDistinct (put same_index index q pieces)
AreDistinct-put_any index q [] d = (refl, tt)
AreDistinct-put_any index q ((i, r) ∷ pieces) (new, d) = elim (Bool-cases (index == i)) [
  | inl e ↦ rw e (new, d)
  | inr e ↦ rw e (
    get-put same_index ==_iff index i q pieces ∙ ground (arith, e, new),
    AreDistinct-put_any index q pieces d,
  )
]

index_pieces-AllSound :
    (pieces : List Piece) (known : List (ℕ × Piece))
    → AllBuilt pieces
    → AllSound known
    → AreDistinct known
    → AllSound (index_pieces pieces known) × AreDistinct (index_pieces pieces known)
index_pieces-AllSound [] known built sound distinct = (sound, distinct)
index_pieces-AllSound (p ∷ pieces) known (here, built) sound distinct =
    index_pieces-AllSound pieces (put same_index p.index p known) built
      (AllSound-put p.index p known here sound) (AreDistinct-put_any p.index p known distinct)

pub make_scheduler-IsAccounted :
    (block_size : ℕ) (is_done : ℕ → Bool) (sizes : List ℕ) (hashes : List Bytes)
    (pieces : List Piece) (config : DownloadConfig)
    → build_pieces block_size is_done sizes hashes ≡ ok pieces
    → IsAccounted (make_scheduler pieces config)
unfolding make_scheduler build_pieces
make_scheduler-IsAccounted block_size is_done sizes hashes pieces config built =
    let (sound, distinct) =
      index_pieces-AllSound pieces []
        (Ensures-ok {P = AllBuilt} (build_from-AllBuilt 0 block_size is_done sizes hashes) built) tt
        tt in
    record { sound = sound; distinct = distinct; exact = λ n h. absurd (cc h) }
