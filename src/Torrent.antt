-- ===== src/Torrent.antt =====
-- app/torrent/metadata.py: the geometry of a torrent. The raw `info` dictionary, the date, the
-- comment, the maker and the private flag are not kept; the views for display are not modelled.
pub mod Geometry
pub mod Paths
use peer_stream.Prelude.{
  ℕ, zero, suc, ◌+◌, ◌-◌, ◌*◌, ◌/◌, String, Bool, true, false, not, ◌&&◌, Option, none, some, List,
  [], ◌∷◌, ◌++◌, length, filter, get_elem?, ltb, leb, ◌==◌, if◌then◌else◌, Bytes, Result, ok, err,
  ◌>>=◌, ◌>>◌, guard, index_error, invalid_torrent_error,
}
use peer_stream.Prelude.Sets.{contains}
use peer_stream.Peer.Handshake.{info_hash_size}

pub record FileEntry : Type 0 where
  pub path : String
  pub size : ℕ
  pub offset : ℕ

abbrev pub entry_end : FileEntry → ℕ
entry_end f = f.offset + f.size

unfoldable pub contains_offset : FileEntry → ℕ → Bool
contains_offset f offset = leb f.offset offset && ltb offset (entry_end f)

pub record Torrent : Type 0 where
  pub name : String
  pub info_hash : Bytes
  pub piece_length : ℕ
  pub piece_hashes : List Bytes
  pub files : List FileEntry
  pub announce : Option String
  pub announce_list : List (List String)

abbrev pub sum_sizes : List FileEntry → ℕ
sum_sizes [] = 0
sum_sizes (f ∷ files) = f.size + sum_sizes files

abbrev pub total_length : Torrent → ℕ
total_length t = sum_sizes t.files

abbrev pub piece_count : Torrent → ℕ
piece_count t = length t.piece_hashes

abbrev pub has_files : List FileEntry → Bool
has_files [] = false
has_files (f ∷ files) = true

abbrev pub are_hashes : List Bytes → Bool
are_hashes [] = true
are_hashes (h ∷ hashes) = length h == info_hash_size && are_hashes hashes

-- `__post_init__`
unfoldable pub make_torrent : Torrent → Result Torrent
make_torrent t = do
  guard (ltb 0 t.piece_length) invalid_torrent_error
  guard (length t.info_hash == info_hash_size) invalid_torrent_error
  guard (has_files t.files) invalid_torrent_error
  guard (are_hashes t.piece_hashes) invalid_torrent_error
  guard (piece_count t == (total_length t + t.piece_length - 1) / t.piece_length)
      invalid_torrent_error
  ok t

abbrev pub check_index : Torrent → ℕ → Result (Unit {0})
check_index t index = guard (ltb index (piece_count t)) index_error

unfoldable pub piece_offset : Torrent → ℕ → Result ℕ
piece_offset t index = do check_index t index; ok (index * t.piece_length)

unfoldable pub piece_size : Torrent → ℕ → Result ℕ
piece_size t index = do
  check_index t index
  ok (
      if index == piece_count t - 1
      then total_length t - index * t.piece_length
      else t.piece_length)

-- Without pieces the source asks for piece -1, which is out of range as piece 0 is.
unfoldable pub last_piece_length : Torrent → Result ℕ
unfolding piece_size
last_piece_length t = piece_size t (piece_count t - 1)

abbrev pub hash_at : Option Bytes → Result Bytes
hash_at none = err index_error
hash_at (some h) = ok h

unfoldable pub piece_hash : Torrent → ℕ → Result Bytes
piece_hash t index = do check_index t index; hash_at (get_elem? t.piece_hashes index)

abbrev pub touches : ℕ → ℕ → FileEntry → Bool
touches first last f = ltb f.offset last && ltb first (entry_end f)

unfoldable pub files_in_piece : Torrent → ℕ → Result (List FileEntry)
unfolding piece_offset piece_size
files_in_piece t index = do
  first ← piece_offset t index
  size ← piece_size t index
  ok (filter (touches first (first + size)) t.files)

-- `if url not in ordered: ordered.append(url)`
abbrev pub append_new : List String → List String → List String
append_new ordered [] = ordered
append_new ordered (url ∷ tier) =
    append_new (if contains url ordered then ordered else ordered ++ url ∷ []) tier

abbrev pub append_tiers : List String → List (List String) → List String
append_tiers ordered [] = ordered
append_tiers ordered (tier ∷ tiers) = append_tiers (append_new ordered tier) tiers

-- `if self.announce`: a text that is there and not empty
abbrev pub announced : Option String → List String
announced none = []
announced (some url) = if contains url ("" ∷ []) then [] else url ∷ []

unfoldable pub trackers : Torrent → List String
trackers t = append_tiers (announced t.announce) t.announce_list
