-- ===== src/Peer/Stream/Frames.antt =====
-- Frames are read back from a byte stream, one message to each frame.
use peer_stream.Prelude.{
  All, ℕ, ◌+◌, ◌^◌, ◌≤◌, ◌<◌, ◌≡◌, List, [], ◌∷◌, ◌++◌, length, ap, Bytes, to_bytes, push_bytes, ok,
  >>=-eq-ok, arith, append_assoc, ◌∙◌, length-append, from_bytes-push_four,
}
use peer_stream.Peer.Messages.{
  Message, construct, encode_body, decode, encode, message_header_length,
}
use peer_stream.Peer.Messages.Codec.{decode_nil, decode-encode_body}
use peer_stream.Peer.Stream.{
  Reader, PeerStream, take_exactly, read_frame, read_body, read_message, running, messages,
  send_all,
}

-- What a frame is made of.
pub encode_cases :
    (m : Message) (frame : Bytes)
    → encode m ≡ ok frame
    → (body : Bytes) × (encode_body m ≡ ok body)
      × (length body < 2 ^ 32)
      × (frame ≡ push_bytes 4 (length body) [] ++ body)
unfolding encode to_bytes
encode_cases m frame h =
    let (body, coded, rest) = >>=-eq-ok (encode_body m) _ h in
    (body, coded, ground arith, ground arith)

-- The constructor accepts the message, and it has a frame, which is within the limit.
abbrev pub IsSendable : ℕ → Message → Type 0
IsSendable limit m =
    (construct m ≡ ok m)
    × ((frame : Bytes) × (encode m ≡ ok frame) × (length frame ≤ message_header_length + limit))

module _ (reader : Reader) where
  open reader use {Stream, read_exactly, pending, reads}

  pub take_exactly_lem :
      (s : PeerStream reader) (front rest : Bytes)
      → pending s.stream ≡ front ++ rest
      → (after : Stream) × (take_exactly reader (length front) s
          ≡ (ok front, record s { stream = after }))
        × (pending after ≡ rest)
  unfolding take_exactly
  take_exactly_lem s front rest h =
      let (result, left) = reads s.stream front rest h in
      let after = (read_exactly (length front) s.stream).1 in
      (after, ap (λ r. (r, record s { stream = after })) result, left)

  read_frame-body :
      (s : PeerStream reader) (m : Message) (body rest : Bytes)
      → decode body ≡ ok m
      → pending s.stream ≡ body ++ rest
      → length body ≤ s.limit
      → (after : Stream) × (read_frame reader (length body) s
          ≡ (ok m, record s { stream = after; bytes_received = s.bytes_received + length body }))
        × (pending after ≡ rest)
  unfolding read_frame read_body
  read_frame-body s m [] rest d h fits = (s.stream, ground (arith, decode_nil), h)
  read_frame-body s m (b ∷ body) rest d h fits =
      let (after, taken, left) = take_exactly_lem s (b ∷ body) rest h in
      (after, ground (arith, taken, d), left)

  read_message-body :
      (s : PeerStream reader) (m : Message) (body rest : Bytes)
      → decode body ≡ ok m
      → length body < 2 ^ 32
      → pending s.stream ≡ push_bytes 4 (length body) [] ++ (body ++ rest)
      → length body ≤ s.limit
      → (after : Stream) × (read_message reader s ≡ (
        ok m,
        record s { stream = after; bytes_received = s.bytes_received + 4 + length body },
      ))
        × (pending after ≡ rest)
  unfolding read_message
  read_message-body s m body rest d small h fits =
      let (after, taken, left) =
        take_exactly_lem s (push_bytes 4 (length body) []) (body ++ rest) h in
      let (final, read, last) =
        read_frame-body (record s { stream = after; bytes_received = s.bytes_received + 4 }) m body
          rest d left fits in
      (final, rw (read_message, taken, from_bytes-push_four (length body) small) read, last)

  -- The frame of a message that its constructor accepts, within the limit, is read back as that
  -- message; the bytes counted are those of the frame and what follows is left in the stream.
  pub read_message-encode :
      (s : PeerStream reader) (m : Message) (frame rest : Bytes)
      → construct m ≡ ok m
      → encode m ≡ ok frame
      → pending s.stream ≡ frame ++ rest
      → length frame ≤ message_header_length + s.limit
      → (after : Stream) × (read_message reader s
          ≡ (ok m, record s { stream = after; bytes_received = s.bytes_received + length frame }))
        × (pending after ≡ rest)
  read_message-encode s m frame rest valid coded h fits =
      let (body, body_coded, small, shape) = encode_cases m frame coded in
      let size : length frame ≡ 4 + length body = omega (arith, ap length shape) in
      let start : frame ++ rest ≡ push_bytes 4 (length body) [] ++ (body ++ rest) =
        ap (λ f. f ++ rest) shape in
      let (after, read, left) =
        read_message-body s m body rest (decode-encode_body m body valid body_coded) small
          (h ∙ start) (omega arith) in
      (after, ground (arith, read, size), left)

  -- Messages that their constructors accept, with frames within the limit, sent one after the
  -- other, are yielded in order by as many steps of the iteration, none lost and none added; the
  -- bytes counted are those of the frames, and what follows is left in the stream.
  pub messages-send_all :
      (s : PeerStream reader) (ms : List Message) (wire rest : Bytes)
      → All (IsSendable s.limit) ms
      → send_all ms ≡ ok wire
      → pending s.stream ≡ wire ++ rest
      → (after : Stream) × (messages reader (length ms) s ≡ (
        ms,
        running,
        record s { stream = after; bytes_received = s.bytes_received + length wire },
      ))
        × (pending after ≡ rest)
  unfolding messages send_all
  messages-send_all s [] wire rest all sent h = (s.stream, ground arith, ground arith)
  messages-send_all s (m ∷ ms) wire rest (good, all) sent h =
      let (frame, coded, sent') = >>=-eq-ok (encode m) _ sent in
      let (tail_wire, tail_sent, whole) = >>=-eq-ok (send_all ms) _ sent' in
      let split : wire ≡ frame ++ tail_wire = ground arith in
      let (sent_frame, sent_coded, small) = good.1 in
      let same : sent_frame ≡ frame = cc in
      let fits : length frame ≤ message_header_length + s.limit = rw (← same) small in
      let (next, read, left) =
        read_message-encode s m frame (tail_wire ++ rest) good.0 coded
          (h ∙ (ap (λ w. w ++ rest) split ∙ append_assoc frame tail_wire rest)) fits in
      let (final, yielded, last) =
        messages-send_all
          (record s { stream = next; bytes_received = s.bytes_received + length frame }) ms
          tail_wire rest all tail_sent left in
      (
        final,
        ground (arith, read, yielded, ap (length {0}) split, length-append frame tail_wire),
        last,
      )
