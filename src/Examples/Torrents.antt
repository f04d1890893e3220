-- ===== src/Examples/Torrents.antt =====
-- A torrent of six bytes in two pieces.
use peer_stream.Prelude.{ℕ, ◌+◌, ◌*◌, ◌<◌, ◌≡◌, refl, min, [], ◌∷◌, none, replicate, arith, ok}
use peer_stream.Torrent.{Torrent, make_torrent, piece_size, piece_offset}
use peer_stream.Torrent.Geometry.{piece_size-piece_offset}

abbrev small : Torrent
small = record {
  name = "small";
  info_hash = replicate 20 7;
  piece_length = 4;
  piece_hashes = replicate 20 1 ∷ replicate 20 2 ∷ [];
  files =
      record { path = "a"; size = 2; offset = 0 }
      ∷ record { path = "b"; size = 4; offset = 2 }
      ∷ [];
  announce = none;
  announce_list = [];
}

small-made : make_torrent small ≡ ok small
unfolding make_torrent
small-made = refl

piece_size-piece_offset_example :
    (size : ℕ) × (piece_size small 1 ≡ ok size)
    × (piece_offset small 1 ≡ ok (1 * 4))
    × (0 < size)
    × (1 * 4 + size ≡ min 6 ((1 + 1) * 4))
piece_size-piece_offset_example = piece_size-piece_offset small 1 small-made (omega arith)
