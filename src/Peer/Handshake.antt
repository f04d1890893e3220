-- ===== src/Peer/Handshake.antt =====
-- app/peer/handshake.py: the 68-byte handshake. The client name inferred from the peer id and the
-- text form are not modelled.
pub mod Exact
pub mod Flags
use Prim.Native.Nat.{bit_and, bit_or}
use peer_stream.Prelude.{
  ℕ, ◌+◌, ◌-◌, Bool, true, not, Option, none, some, List, [], ◌∷◌, ◌++◌, length, take, drop, get_or,
  set, replicate, ◌==◌, if◌then◌else◌, Bytes, bytes_eq, Result, ok, err, ◌>>=◌, ◌>>◌, guard,
  handshake_error,
}

-- b"BitTorrent protocol"
abbrev pub protocol_string : Bytes
protocol_string =
    b'B' ∷ b'i' ∷ b't' ∷ b'T' ∷ b'o' ∷ b'r' ∷ b'r' ∷ b'e' ∷ b'n' ∷ b't' ∷ b' ' ∷ b'p' ∷ b'r' ∷ b'o'
    ∷ b't' ∷ b'o' ∷ b'c' ∷ b'o' ∷ b'l' ∷ []

abbrev pub protocol_string_length : ℕ
protocol_string_length = 19

abbrev pub handshake_length : ℕ
handshake_length = 68

abbrev pub reserved_bytes_length : ℕ
reserved_bytes_length = 8

abbrev pub info_hash_size : ℕ
info_hash_size = 20

abbrev pub peer_id_size : ℕ
peer_id_size = 20

abbrev pub dht_flag_byte : ℕ
dht_flag_byte = 7

abbrev pub dht_flag_mask : ℕ
dht_flag_mask = 0x01

abbrev pub extension_flag_byte : ℕ
extension_flag_byte = 5

abbrev pub extension_flag_mask : ℕ
extension_flag_mask = 0x10

abbrev pub fast_flag_byte : ℕ
fast_flag_byte = 7

abbrev pub fast_flag_mask : ℕ
fast_flag_mask = 0x04

abbrev pub default_reserved : Bytes
default_reserved = replicate reserved_bytes_length 0

pub record Handshake : Type 0 where
  pub info_hash : Bytes
  pub peer_id : Bytes
  pub reserved : Bytes

-- A handshake as its class builds it: `__post_init__` refuses parts of another size.
unfoldable pub construct : Handshake → Result Handshake
construct h = do
  guard (length h.info_hash == info_hash_size) handshake_error
  guard (length h.peer_id == peer_id_size) handshake_error
  guard (length h.reserved == reserved_bytes_length) handshake_error
  ok h

unfoldable pub encode : Handshake → Bytes
encode h = protocol_string_length ∷ (protocol_string ++ (h.reserved ++ (h.info_hash ++ h.peer_id)))

-- `data[first:last]`
abbrev pub slice : ℕ → ℕ → Bytes → Bytes
slice first last raw = take (last - first) (drop first raw)

-- `expected_info_hash is not None and not compare_digest(...)` is the failing test.
unfoldable pub is_expected : Option Bytes → Bytes → Bool
is_expected none info_hash = true
is_expected (some expected) info_hash = bytes_eq info_hash expected

unfoldable pub decode : Bytes → Option Bytes → Result Handshake
unfolding construct is_expected
decode raw expected_info_hash = do
  guard (length raw == handshake_length) handshake_error
  guard (get_or raw 0 0 == protocol_string_length) handshake_error
  guard (bytes_eq (slice 1 (1 + protocol_string_length) raw) protocol_string) handshake_error
  guard (is_expected expected_info_hash (slice 28 48 raw)) handshake_error
  construct (record {
    info_hash = slice 28 48 raw;
    peer_id = slice 48 68 raw;
    reserved = slice 20 28 raw;
  })

-- `bool(self.reserved[place] & mask)`
abbrev pub flag : ℕ → ℕ → Handshake → Bool
flag place mask h = not (bit_and (get_or h.reserved place 0) mask == 0)

unfoldable pub supports_dht : Handshake → Bool
supports_dht = flag dht_flag_byte dht_flag_mask

unfoldable pub supports_extensions : Handshake → Bool
supports_extensions = flag extension_flag_byte extension_flag_mask

unfoldable pub supports_fast : Handshake → Bool
supports_fast = flag fast_flag_byte fast_flag_mask

-- `reserved[place] |= mask`, if the extension is advertised
abbrev pub advertise : Bool → ℕ → ℕ → Bytes → Bytes
advertise enabled place mask reserved =
    if enabled then set reserved place (bit_or (get_or reserved place 0) mask) else reserved

unfoldable pub outgoing_handshake : Bytes → Bytes → Bool → Bool → Result Handshake
unfolding construct
outgoing_handshake info_hash peer_id dht extensions = construct (record {
  info_hash = info_hash;
  peer_id = peer_id;
  reserved =
      advertise extensions extension_flag_byte extension_flag_mask
        (advertise dht dht_flag_byte dht_flag_mask default_reserved);
})
