-- ===== src/Examples/Wire.antt =====
-- Messages, frames and handshakes at concrete inputs.
use peer_stream.Prelude.{
  ℕ, ◌+◌, ◌≡◌, ◌↔◌, refl, sym, List, [], ◌∷◌, ◌++◌, length, replicate, append-nil, length-replicate,
  All, some, arith, Bytes, to_bytes, ok, err, message_error, protocol_error,
}
use peer_stream.Examples.Readers.{byte_reader, start_with}
use peer_stream.Peer.Messages.{
  Message, keep_alive, have, piece, construct, encode, encode_body, decode, pack,
}
use peer_stream.Peer.Messages.Codec.{decode-eq-ok_iff, decode-raises}
use peer_stream.Peer.Stream.{read_message, messages, send_all, running, max_message_length}
use peer_stream.Peer.Stream.Frames.{IsSendable, messages-send_all}
use peer_stream.Peer.Stream.Limits.{
  IsTaken, read_message-le_limit, piece_frame, read_message-piece_oversize,
}
use peer_stream.Peer.Handshake
use peer_stream.Peer.Handshake.{
  Handshake, outgoing_handshake, supports_dht, supports_extensions, supports_fast,
}
use peer_stream.Peer.Handshake.Exact.{decode-encode_iff}

abbrev have_frame : Bytes
have_frame = 0 ∷ 0 ∷ 0 ∷ 5 ∷ 4 ∷ 0 ∷ 0 ∷ 1 ∷ 2 ∷ []

have_frame-coded : encode (have 258) ≡ ok have_frame
unfolding encode encode_body to_bytes pack
have_frame-coded = refl

have-constructed : construct (have 258) ≡ ok (have 258)
unfolding construct
have-constructed = refl

abbrev two_messages : List Message
two_messages = keep_alive ∷ have 258 ∷ []

two_messages-sent : send_all two_messages ≡ ok (0 ∷ 0 ∷ 0 ∷ 0 ∷ have_frame)
unfolding send_all encode encode_body to_bytes pack
two_messages-sent = refl

two_messages-IsSendable : All (IsSendable 5) two_messages
unfolding construct encode encode_body to_bytes pack
two_messages-IsSendable =
    ((refl, (0 ∷ 0 ∷ 0 ∷ 0 ∷ [], refl, omega arith)), ((refl, (have_frame, refl, omega arith)), tt))

messages-send_all_example :
    (after : Bytes) × (messages byte_reader 2
        (start_with 5 (0 ∷ 0 ∷ 0 ∷ 0 ∷ have_frame ++ (1 ∷ [])))
      ≡ (two_messages, running, record { stream = after; bytes_received = 13; limit = 5 }))
    × (after ≡ 1 ∷ [])
messages-send_all_example =
    messages-send_all byte_reader (start_with 5 (0 ∷ 0 ∷ 0 ∷ 0 ∷ have_frame ++ (1 ∷ [])))
      two_messages (0 ∷ 0 ∷ 0 ∷ 0 ∷ have_frame) (1 ∷ []) two_messages-IsSendable two_messages-sent
      refl

read_message-le_limit_example :
    IsTaken byte_reader
      (start_with 5 have_frame)
      (read_message byte_reader (start_with 5 have_frame)).1
      (4 + 5)
read_message-le_limit_example = read_message-le_limit byte_reader (start_with 5 have_frame)

abbrev big_block : Bytes
big_block = replicate 65528 0

length-big_block : length big_block ≡ 65528
length-big_block = length-replicate {A = ℕ} 65528 0

big_frame :
    (frame : Bytes) × (encode (piece 0 0 big_block) ≡ ok frame)
    × (length frame ≡ length big_block + 13)
big_frame = piece_frame 0 0 big_block (omega arith) (omega arith) (omega (arith, length-big_block))

read_message-piece_oversize_example :
    (construct (piece 0 0 big_block) ≡ ok (piece 0 0 big_block))
    × ((read_message byte_reader (start_with max_message_length big_frame.0)).0
        ≡ err protocol_error)
read_message-piece_oversize_example =
    read_message-piece_oversize byte_reader (start_with max_message_length big_frame.0) 0 0
      big_block big_frame.0 [] refl (omega arith) (omega arith) (omega (arith, length-big_block))
      (omega (arith, length-big_block)) big_frame.1 (sym (append-nil big_frame.0))

decode-eq-ok_iff_example :
    (decode (4 ∷ 0 ∷ 0 ∷ 1 ∷ 2 ∷ []) ≡ ok (have 258))
    ↔ (construct (have 258) ≡ ok (have 258))
      × (encode_body (have 258) ≡ ok (4 ∷ 0 ∷ 0 ∷ 1 ∷ 2 ∷ []))
decode-eq-ok_iff_example =
    decode-eq-ok_iff (4 ∷ 0 ∷ 0 ∷ 1 ∷ 2 ∷ []) (have 258)
      (omega arith, (omega arith, (omega arith, (omega arith, (omega arith, tt)))))

short_have : decode (4 ∷ 0 ∷ []) ≡ err message_error
unfolding decode
short_have = refl

decode-raises_example : message_error ≡ message_error
decode-raises_example =
    decode-raises (4 ∷ 0 ∷ []) message_error (omega arith, (omega arith, tt)) short_have

abbrev some_handshake : Handshake
some_handshake = record {
  info_hash = replicate 20 7;
  peer_id = replicate 20 9;
  reserved = replicate 8 0;
}

decode-encode_iff_example :
    (Handshake.decode (Handshake.encode some_handshake) (some some_handshake.info_hash)
      ≡ ok some_handshake)
    ↔ (Handshake.construct some_handshake ≡ ok some_handshake)
      × (Handshake.encode some_handshake ≡ Handshake.encode some_handshake)
      × (some_handshake.info_hash ≡ some_handshake.info_hash)
decode-encode_iff_example =
    decode-encode_iff (Handshake.encode some_handshake) (some some_handshake.info_hash)
      some_handshake
