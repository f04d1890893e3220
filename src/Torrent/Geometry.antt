-- ===== src/Torrent/Geometry.antt =====
-- The pieces of a torrent cover its bytes.
use peer_stream.Prelude.{
  true, false, ℕ, ◌+◌, ◌-◌, ◌*◌, ◌/◌, ◌≤◌, ◌<◌, ◌≡◌, refl, min, ok, arith, lt→ltb, ne→==, ==_iff,
  ◌==◌, dec_lt,
}
use peer_stream.Torrent.{Torrent, make_torrent, piece_offset, piece_size, piece_count, total_length}

facts :
    (t : Torrent)
    → make_torrent t ≡ ok t
    → (0 < t.piece_length)
      × (piece_count t ≡ (total_length t + t.piece_length - 1) / t.piece_length)
unfolding make_torrent
facts t h = ground arith

ceil_bounds : (n s i : ℕ) → 0 < s → i < (n + s - 1) / s → i * s < n
ceil_bounds n s i pos h = grind arith

ceil_last : (n s i : ℕ) → 0 < s → i + 1 ≡ (n + s - 1) / s → n ≤ i * s + s
ceil_last n s i pos h = grind arith

ceil_inner : (n s i : ℕ) → 0 < s → i + 1 < (n + s - 1) / s → i * s + s ≤ n
ceil_inner n s i pos h = grind arith

-- In a torrent that was accepted, each piece starts at a multiple of the piece length, has at least
-- one byte, and ends where the next one starts or, if it is the last, with the torrent.
pub piece_size-piece_offset :
    (t : Torrent) (index : ℕ)
    → make_torrent t ≡ ok t
    → index < piece_count t
    → (size : ℕ) × (piece_size t index ≡ ok size)
      × (piece_offset t index ≡ ok (index * t.piece_length))
      × (0 < size)
      × (index * t.piece_length + size ≡ min (total_length t) ((index + 1) * t.piece_length))
unfolding piece_size piece_offset
piece_size-piece_offset t index h lt =
    let (pos, count) = facts t h in
    let n = total_length t in
    let s = t.piece_length in
    let next : (index + 1) * s ≡ index * s + s = omega arith in
    let starts : index * s < n = ceil_bounds n s index pos (omega (arith, count)) in
    elim (dec_lt (index + 1) (piece_count t)) [
      | yes inner ↦
          let ends : index * s + s ≤ n = ceil_inner n s index pos (omega (arith, count)) in
          let not_last : (index == piece_count t - 1) ≡ false =
            ne→== index (piece_count t - 1) (omega arith) in
          (
            s,
            rw (lt→ltb index (piece_count t) lt, not_last) refl,
            rw (lt→ltb index (piece_count t) lt) refl,
            pos,
            omega (arith, next),
          )
      | no outer ↦
          let ends : n ≤ index * s + s = ceil_last n s index pos (omega (arith, count)) in
          let last : (index == piece_count t - 1) ≡ true =
            (==_iff index (piece_count t - 1)).1 (omega arith) in
          (
            n - index * s,
            rw (lt→ltb index (piece_count t) lt, last) refl,
            rw (lt→ltb index (piece_count t) lt) refl,
            omega arith,
            omega (arith, next),
          )
    ]
