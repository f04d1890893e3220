-- ===== src/Peer/Messages.antt =====
-- app/peer/messages.py: the peer wire messages and their codec. A message's fields are unsigned
-- here, so the sign tests of the constructors have no counterpart.
pub mod Codec
use peer_stream.Prelude.{
  ℕ, ◌+◌, ◌*◌, ◌^◌, Bool, ◌&&◌, not, [], ◌∷◌, ◌++◌, length, take, drop, ltb, leb, ◌==◌,
  if◌then◌else◌, Bytes, push_bytes, from_bytes, to_bytes, Result, ok, err, ◌>>=◌, ◌>>◌, guard,
  message_error, struct_error, value_error,
}

abbrev pub msg_choke : ℕ
msg_choke = 0

abbrev pub msg_unchoke : ℕ
msg_unchoke = 1

abbrev pub msg_interested : ℕ
msg_interested = 2

abbrev pub msg_not_interested : ℕ
msg_not_interested = 3

abbrev pub msg_have : ℕ
msg_have = 4

abbrev pub msg_bitfield : ℕ
msg_bitfield = 5

abbrev pub msg_request : ℕ
msg_request = 6

abbrev pub msg_piece : ℕ
msg_piece = 7

abbrev pub msg_cancel : ℕ
msg_cancel = 8

abbrev pub msg_port : ℕ
msg_port = 9

abbrev pub msg_extended : ℕ
msg_extended = 20

abbrev pub message_header_length : ℕ
message_header_length = 4

abbrev pub request_payload_length : ℕ
request_payload_length = 12

abbrev pub have_payload_length : ℕ
have_payload_length = 4

abbrev pub piece_header_length : ℕ
piece_header_length = 8

abbrev pub max_block_size : ℕ
max_block_size = 128 * 1024

abbrev pub min_port : ℕ
min_port = 1

abbrev pub max_port : ℕ
max_port = 65535

pub data Message : Type 0 where
  keep_alive choke unchoke interested not_interested : Message
  have : (index : ℕ) → Message
  bitfield : (payload : Bytes) → Message
  request : (index begin size : ℕ) → Message
  piece : (index begin : ℕ) → (block : Bytes) → Message
  cancel : (index begin size : ℕ) → Message
  port : (number : ℕ) → Message
  extended : (extension_id : ℕ) → (payload : Bytes) → Message

-- `1 <= length <= MAX_BLOCK_SIZE`
unfoldable pub validate_block : ℕ → Result (Unit {0})
validate_block size = guard (leb 1 size && leb size max_block_size) message_error

-- A message as its class builds it: `__post_init__` refuses what is out of range.
unfoldable pub construct : Message → Result Message
unfolding validate_block
construct (bitfield payload) = do
  guard (not (length payload == 0)) message_error
  ok (bitfield payload)
construct (request index begin size) = do validate_block size; ok (request index begin size)
construct (piece index begin block) = do
  guard (not (length block == 0)) message_error
  guard (leb (length block) max_block_size) message_error
  ok (piece index begin block)
construct (cancel index begin size) = do validate_block size; ok (cancel index begin size)
construct (port number) = do
  guard (leb min_port number && leb number max_port) message_error
  ok (port number)
construct (extended extension_id payload) = do
  guard (leb extension_id 255) message_error
  ok (extended extension_id payload)
construct m = ok m

-- One field of `struct.Struct(">I")`, in front of the bytes that follow.
unfoldable pub pack : ℕ → Bytes → Result Bytes
pack x rest = if ltb x (2 ^ 32) then ok (push_bytes 4 x rest) else err struct_error

-- `_encode_body`: the id and payload, without the length prefix
unfoldable pub encode_body : Message → Result Bytes
unfolding pack to_bytes
encode_body keep_alive = ok []
encode_body choke = ok (msg_choke ∷ [])
encode_body unchoke = ok (msg_unchoke ∷ [])
encode_body interested = ok (msg_interested ∷ [])
encode_body not_interested = ok (msg_not_interested ∷ [])
encode_body (have index) = do raw ← to_bytes index 4; ok (msg_have ∷ raw)
encode_body (bitfield payload) = ok (msg_bitfield ∷ payload)
encode_body (request index begin size) = do
  c ← pack size []
  b ← pack begin c
  a ← pack index b
  ok (msg_request ∷ a)
encode_body (piece index begin block) = do
  b ← pack begin block
  a ← pack index b
  ok (msg_piece ∷ a)
encode_body (cancel index begin size) = do
  c ← pack size []
  b ← pack begin c
  a ← pack index b
  ok (msg_cancel ∷ a)
encode_body (port number) = do raw ← to_bytes number 2; ok (msg_port ∷ raw)
encode_body (extended extension_id payload) =
    if ltb extension_id 256 then ok (msg_extended ∷ extension_id ∷ payload) else err value_error

-- The frame: 4-byte length, then id and payload.
unfoldable pub encode : Message → Result Bytes
encode message = do
  body ← encode_body message
  header ← to_bytes (length body) message_header_length
  ok (header ++ body)

unfoldable pub require_exact : Bytes → ℕ → Result (Unit {0})
require_exact payload size = guard (length payload == size) message_error

-- One field of `struct.Struct(">I")`, with the bytes that follow it.
unfoldable pub unpack : Bytes → Result (ℕ × Bytes)
unpack (a ∷ b ∷ c ∷ d ∷ rest) = ok (from_bytes (a ∷ b ∷ c ∷ d ∷ []), rest)
unpack _ = err struct_error

abbrev pub decode_have : Bytes → Result Message
decode_have payload = do
  require_exact payload have_payload_length
  construct (have (from_bytes payload))

-- The payload of `request` and of `cancel`.
abbrev pub decode_range : (ℕ → ℕ → ℕ → Message) → Bytes → Result Message
decode_range build payload = do
  require_exact payload request_payload_length
  (index, rest) ← unpack payload
  (begin, rest') ← unpack rest
  (size, _) ← unpack rest'
  construct (build index begin size)

abbrev pub decode_piece : Bytes → Result Message
decode_piece payload = do
  guard (not (leb (length payload) piece_header_length)) message_error
  (index, rest) ← unpack (take piece_header_length payload)
  (begin, _) ← unpack rest
  construct (piece index begin (drop piece_header_length payload))

abbrev pub decode_port : Bytes → Result Message
decode_port payload = do require_exact payload 2; construct (port (from_bytes payload))

abbrev pub decode_extended : Bytes → Result Message
decode_extended [] = err message_error
decode_extended (extension_id ∷ payload) = construct (extended extension_id payload)

-- A message without a payload.
abbrev pub decode_bare : Message → Bytes → Result Message
decode_bare message payload = do require_exact payload 0; construct message

unfoldable pub decode_payload : ℕ → Bytes → Result Message
decode_payload message_id payload =
    if message_id == msg_choke
    then decode_bare choke payload
    else if message_id == msg_unchoke
    then decode_bare unchoke payload
    else if message_id == msg_interested
    then decode_bare interested payload
    else if message_id == msg_not_interested
    then decode_bare not_interested payload
    else if message_id == msg_have
    then decode_have payload
    else if message_id == msg_bitfield
    then construct (bitfield payload)
    else if message_id == msg_request
    then decode_range request payload
    else if message_id == msg_piece
    then decode_piece payload
    else if message_id == msg_cancel
    then decode_range cancel payload
    else if message_id == msg_port
    then decode_port payload
    else if message_id == msg_extended
    then decode_extended payload
    else err message_error

-- A frame body: one id byte, then its payload. An empty body is a keep-alive.
unfoldable pub decode : Bytes → Result Message
unfolding decode_payload require_exact unpack construct
decode [] = ok keep_alive
decode (message_id ∷ payload) = decode_payload message_id payload
