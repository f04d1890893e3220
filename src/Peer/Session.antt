-- ===== src/Peer/Session.antt =====
-- app/peer/state.py: what is known about one peer, apart from its socket. The clocks, the latency
-- and the fraction `progress` are not modelled.
pub mod History
use peer_stream.Prelude.{
  ℕ, ◌+◌, ◌≤◌, ◌<◌, ◌≡◌, Bool, not, ◌&&◌, true, false, String, Option, none, some, List, [], ◌∷◌,
  length, leb, ltb, if◌then◌else◌, Bytes, Result, ok, err, ◌>>=◌, ◌>>◌, guard, message_error,
  protocol_error, value_error,
}
use peer_stream.Peer.Messages.{
  Message, keep_alive, choke, unchoke, interested, not_interested, have, bitfield, request, piece,
  cancel, port, extended,
}
use peer_stream.Peer.Bitfield
use peer_stream.Peer.Bitfield.{Bitfield, empty_field, parse, has, put, missing_from}

pub data ConnectionState : Type 0 where
  connecting handshaking connected closing closed : ConnectionState

-- The members of `EventType` that a message causes.
pub data EventType : Type 0 where
  peer_choked peer_unchoked peer_interested peer_bitfield piece_block_received : EventType

pub record PeerSession : Type 0 where
  pub piece_count : ℕ
  pub peer_id : Option Bytes
  pub client : String
  pub state : ConnectionState
  pub am_choking : Bool
  pub am_interested : Bool
  pub peer_choking : Bool
  pub peer_interested : Bool
  pub uploaded : ℕ
  pub downloaded : ℕ
  pub bitfield : Bitfield
  pub bitfield_received : Bool

-- `PeerSession(piece_count)`
unfoldable pub make_session : ℕ → Result PeerSession
make_session piece_count = do
  guard (ltb 0 piece_count) value_error
  ok (record {
    piece_count = piece_count;
    peer_id = none;
    client = "Unknown";
    state = connecting;
    am_choking = true;
    am_interested = false;
    peer_choking = true;
    peer_interested = false;
    uploaded = 0;
    downloaded = 0;
    bitfield = empty_field piece_count;
    bitfield_received = false;
  })

unfoldable pub note_handshake : Bytes → String → PeerSession → PeerSession
note_handshake peer_id client s = record s {
  peer_id = some peer_id;
  client = client;
  state = connected;
}

unfoldable pub mark_closed : PeerSession → PeerSession
mark_closed s = record s { state = closed }

abbrev pub is_over : ConnectionState → Bool
is_over closing = true
is_over closed = true
is_over _ = false

unfoldable pub is_closed : PeerSession → Bool
is_closed s = is_over s.state

abbrev pub validate_index : PeerSession → ℕ → Result (Unit {0})
validate_index s index = guard (ltb index s.piece_count) protocol_error

-- The part of `_validate_block` for a piece length that is known.
abbrev pub validate_range : ℕ → ℕ → Option ℕ → Result (Unit {0})
validate_range begin size none = ok tt
validate_range begin size (some piece_length) = do
  guard (ltb begin piece_length) message_error
  guard (leb (begin + size) piece_length) message_error

abbrev pub validate_block : PeerSession → ℕ → ℕ → ℕ → Option ℕ → Result (Unit {0})
validate_block s index begin size piece_length = do
  validate_index s index
  validate_range begin size piece_length

abbrev pub apply_have : ℕ → PeerSession → Result PeerSession
apply_have index s = do
  validate_index s index
  held ← has s.bitfield index
  after ← (if held then ok s.bitfield else put s.bitfield index true)
  ok (record s { bitfield = after })

abbrev pub apply_bitfield : Bytes → PeerSession → Result PeerSession
apply_bitfield payload s = do
  guard (not s.bitfield_received) protocol_error
  after ← parse payload s.piece_count
  ok (record s { bitfield = after; bitfield_received = true })

abbrev pub apply_piece : ℕ → ℕ → Bytes → Option ℕ → PeerSession → Result PeerSession
apply_piece index begin block piece_length s = do
  validate_block s index begin (length block) piece_length
  ok (record s { downloaded = s.downloaded + length block })

abbrev pub with_event : Option EventType → PeerSession → Result (Option EventType × PeerSession)
with_event event s = ok (event, s)

-- A message that raises leaves the session as it was, its clock apart.
unfoldable pub apply : Message → Option ℕ → PeerSession → Result (Option EventType × PeerSession)
apply keep_alive piece_length s = ok (none, s)
apply choke piece_length s = ok (some peer_choked, record s { peer_choking = true })
apply unchoke piece_length s = ok (some peer_unchoked, record s { peer_choking = false })
apply interested piece_length s = ok (some peer_interested, record s { peer_interested = true })
apply not_interested piece_length s = ok (none, record s { peer_interested = false })
apply (have index) piece_length s = apply_have index s >>= with_event none
apply (bitfield payload) piece_length s =
    apply_bitfield payload s >>= with_event (some peer_bitfield)
apply (piece index begin block) piece_length s =
    apply_piece index begin block piece_length s >>= with_event (some piece_block_received)
apply (request index begin size) piece_length s = ok (none, s)
apply (cancel index begin size) piece_length s = ok (none, s)
apply (port number) piece_length s = ok (none, s)
apply (extended id payload) piece_length s = ok (none, s)

-- The messages of a peer, one after the other, up to the first that raises.
unfoldable pub apply_all : List Message → Option ℕ → PeerSession → Result PeerSession
unfolding apply
apply_all [] piece_length s = ok s
apply_all (m ∷ ms) piece_length s = apply m piece_length s >>= λ r. apply_all ms piece_length r.1

unfoldable pub note_upload : ℕ → PeerSession → PeerSession
note_upload size s = record s { uploaded = s.uploaded + size }

unfoldable pub can_request : PeerSession → Bool
can_request s = s.am_interested && not s.peer_choking

unfoldable pub wanted_from : PeerSession → Bitfield → Result (List ℕ)
wanted_from s ours = missing_from ours s.bitfield

unfoldable pub session_is_interesting : PeerSession → Bitfield → Result Bool
session_is_interesting s ours = Bitfield.is_interesting ours s.bitfield

unfoldable pub is_seed : PeerSession → Bool
is_seed s = Bitfield.complete s.bitfield

unfoldable pub record_download : ℕ → PeerSession → PeerSession
record_download count s = record s { downloaded = s.downloaded + count }

unfoldable pub record_upload : ℕ → PeerSession → PeerSession
record_upload count s = record s { uploaded = s.uploaded + count }
