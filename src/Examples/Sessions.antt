-- ===== src/Examples/Sessions.antt =====
-- Sessions and the exchange of handshakes at concrete inputs.
use peer_stream.Prelude.{
  ◌+◌, ◌≡◌, refl, true, false, List, [], ◌∷◌, ◌++◌, length, replicate, Option, some, none, arith,
  Bytes, ok,
}
use peer_stream.Examples.Readers.{byte_reader, byte_writer, start_with}
use peer_stream.Peer.Messages.{Message, choke, unchoke, piece, have}
use peer_stream.Peer.Bitfield.{empty_field}
use peer_stream.Peer.Bitfield.Invariant.{empty_field-IsValid}
use peer_stream.Peer.Session.{PeerSession, EventType, connecting, apply, apply_all}
use peer_stream.Peer.Session.History.{IsSession, apply-IsSession}
use peer_stream.Peer.Handshake
use peer_stream.Peer.Handshake.{Handshake}
use peer_stream.Peer.Stream.Greeting.{
  Connection, connect, after_receiving, perform_handshake, accept_handshake, exchange-encode,
}

abbrev fresh : PeerSession
fresh = record {
  piece_count = 10;
  peer_id = none;
  client = "Unknown";
  state = connecting;
  am_choking = true;
  am_interested = false;
  peer_choking = true;
  peer_interested = false;
  uploaded = 0;
  downloaded = 0;
  bitfield = empty_field 10;
  bitfield_received = false;
}

fresh-IsSession : IsSession fresh
unfolding empty_field
fresh-IsSession = record { counted = refl; valid = empty_field-IsValid 10 }

apply-IsSession_example :
    (event : Option EventType) × (t : PeerSession) × (apply (have 3) none fresh ≡ ok (event, t))
    × IsSession t
    × (t.piece_count ≡ 10)
apply-IsSession_example = apply-IsSession (have 3) none fresh fresh-IsSession tt (omega arith)

abbrev three_messages : List Message
three_messages = unchoke ∷ piece 2 0 (7 ∷ 8 ∷ []) ∷ choke ∷ []

abbrev later : PeerSession
later = record fresh { downloaded = 2 }

three_messages-taken : apply_all three_messages (some 5) fresh ≡ ok later
unfolding apply_all
three_messages-taken = refl

abbrev our_handshake : Handshake
our_handshake = record {
  info_hash = replicate 20 7;
  peer_id = replicate 20 9;
  reserved = replicate 8 0;
}

abbrev their_handshake : Handshake
their_handshake = record {
  info_hash = replicate 20 7;
  peer_id = replicate 20 3;
  reserved = replicate 8 0;
}

their_handshake-constructed : Handshake.construct their_handshake ≡ ok their_handshake
unfolding Handshake.construct
their_handshake-constructed = refl

abbrev waiting : Connection byte_reader byte_writer
waiting =
    connect byte_reader byte_writer
      (start_with 65536 (Handshake.encode their_handshake ++ (1 ∷ []))) [] 0

exchange-encode_example :
    (after : Bytes) × (perform_handshake byte_reader byte_writer our_handshake waiting ≡ (
      ok their_handshake,
      record (after_receiving byte_reader byte_writer after waiting) {
        sink = Handshake.encode our_handshake;
        bytes_sent = 0 + length (Handshake.encode our_handshake);
      },
    ))
    × (accept_handshake byte_reader byte_writer our_handshake waiting ≡ (
      ok their_handshake,
      record (after_receiving byte_reader byte_writer after waiting) {
        sink = Handshake.encode our_handshake;
        bytes_sent = 0 + length (Handshake.encode our_handshake);
      },
    ))
    × (after ≡ 1 ∷ [])
exchange-encode_example =
    exchange-encode byte_reader byte_writer our_handshake their_handshake waiting (1 ∷ [])
      (Handshake.encode our_handshake) their_handshake-constructed refl refl refl refl
