-- ===== src/Peer/Stream/Limits.antt =====
-- The length limit of the frame reader.
use peer_stream.Prelude.{
  [], to_bytes, ℕ, ◌+◌, ◌^◌, ◌≤◌, ◌<◌, ◌≡◌, ◌++◌, ◌∷◌, length, ok, err, protocol_error, arith, refl,
  sym, subst, inl, inr, Bool-cases, Result, and_then, ltb, ◌==◌, append_assoc, length-append,
  from_bytes, Bytes, push_bytes, ap, ◌∙◌, from_bytes-push_four,
}
use peer_stream.Peer.Messages.{
  Message, piece, pack, max_block_size, construct, decode, encode, encode_body,
  message_header_length,
}
use peer_stream.Peer.Stream.{
  Reader, PeerStream, max_message_length, take_exactly, counted, read_frame, read_body,
  read_message,
}
use peer_stream.Peer.Stream.Frames.{encode_cases, take_exactly_lem}

-- What a block is framed as.
pub piece_frame :
    (index begin : ℕ) (block : Bytes)
    → index < 2 ^ 32
    → begin < 2 ^ 32
    → length block + 9 < 2 ^ 32
    → (frame : Bytes) × (encode (piece index begin block) ≡ ok frame)
      × (length frame ≡ length block + 13)
unfolding encode encode_body to_bytes pack
piece_frame index begin block i b small = (
  push_bytes 4 (length block + 9) (7 ∷ push_bytes 4 index (push_bytes 4 begin block)),
  ground arith,
  ground arith,
)

module _ (reader : Reader) where
  open reader use {Stream, read_exactly, pending, takes}

  -- What is taken off the stream between two states: at most so many bytes, and at least as many
  -- as the counter goes up by.
  pub record IsTaken (before after : PeerStream reader) (most : ℕ) : Type 0 where
    pub taken : Bytes
    pub front : pending before.stream ≡ taken ++ pending after.stream
    pub few : length taken ≤ most
    pub counted : after.bytes_received ≤ before.bytes_received + length taken

  IsTaken-refl : (s : PeerStream reader) (most : ℕ) → IsTaken s s most
  IsTaken-refl s most = record {
    taken = [];
    front = refl;
    few = omega arith;
    counted = omega arith;
  }

  -- A read, what it counts if it returns, and what follows then.
  read_then-IsTaken :
      (count most : ℕ) (s : PeerStream reader)
      (next : Bytes → PeerStream reader → Result Message × PeerStream reader)
      → ((bytes : Bytes) (t : PeerStream reader)
          → t.limit ≡ s.limit
          → IsTaken t (next bytes t).1 most)
      → IsTaken s
          (and_then
            (take_exactly reader count s)
            (λ bytes t. next bytes (counted reader count t))).1
          (count + most)
  unfolding take_exactly
  read_then-IsTaken count most s next follows =
      let (taken, front, few, exact) = takes count s.stream in
      go (read_exactly count s.stream).0 exact
    where
      go :
          (result : Result Bytes)
          → ((bytes : Bytes) → result ≡ ok bytes → length (takes count s.stream).0 ≡ count)
          → IsTaken s
              (and_then
                (result, record s { stream = (read_exactly count s.stream).1 })
                (λ bytes t. next bytes (counted reader count t))).1
              (count + most)
      go (err e) exact =
          let (taken, front, few, _) = takes count s.stream in
          record { taken = taken; front = front; few = omega (arith, few); counted = omega arith }
      go (ok bytes) exact =
          let (taken, front, few, _) = takes count s.stream in
          let t : PeerStream reader = record s {
            stream = (read_exactly count s.stream).1;
            bytes_received = s.bytes_received + count;
          } in
          let rest = follows bytes t refl in
          record {
            taken = taken ++ rest.taken;
            front =
                front
                ∙ ap (λ more. taken ++ more) rest.front
                ∙ sym (append_assoc taken rest.taken _);
            few = omega (arith, few, rest.few, length-append taken rest.taken);
            counted = omega (arith, exact bytes refl, rest.counted, length-append taken rest.taken);
          }

  read_frame-IsTaken :
      (size : ℕ) (s : PeerStream reader) → IsTaken s (read_frame reader size s).1 s.limit
  unfolding read_frame read_body
  read_frame-IsTaken size s = elim (Bool-cases (size == 0)) [
    | inl empty ↦ rw empty (IsTaken-refl s s.limit)
    | inr body ↦ elim (Bool-cases (ltb s.limit size)) [
      | inl long ↦ rw (body, long) (IsTaken-refl s s.limit)
      | inr fits ↦
          let read =
            read_then-IsTaken size 0 s (λ bytes t. (decode bytes, t))
              (λ bytes t e. IsTaken-refl t 0) in
          rw (body, fits)
            (record {
              taken = read.taken;
              front = read.front;
              few = ground (arith, read.few);
              counted = read.counted;
            })
    ]
  ]

  -- Whatever the stream holds and whatever comes of it, one call takes at most a header and `limit`
  -- bytes off the stream, and the counter goes up by no more than is taken.
  pub read_message-le_limit :
      (s : PeerStream reader)
      → IsTaken s (read_message reader s).1 (message_header_length + s.limit)
  unfolding read_message
  read_message-le_limit s =
      read_then-IsTaken message_header_length s.limit s
        (λ raw_length t. read_frame reader (from_bytes raw_length) t)
        (λ raw_length t same.
          subst (IsTaken t (read_frame reader (from_bytes raw_length) t).1) same
            (read_frame-IsTaken (from_bytes raw_length) t))

  -- The frame of a message, if it declares more than the limit, raises `ProtocolError` before its
  -- body is read: the body is still in the stream.
  pub read_message-oversize :
      (s : PeerStream reader) (m : Message) (frame rest : Bytes)
      → encode m ≡ ok frame
      → pending s.stream ≡ frame ++ rest
      → message_header_length + s.limit < length frame
      → (after : Stream) × (body : Bytes) × (read_message reader s ≡ (
        err protocol_error,
        record s { stream = after; bytes_received = s.bytes_received + message_header_length },
      ))
        × (encode_body m ≡ ok body)
        × (pending after ≡ body ++ rest)
  unfolding read_message read_frame
  read_message-oversize s m frame rest coded h big =
      let (body, body_coded, small, shape) = encode_cases m frame coded in
      let size : length frame ≡ 4 + length body = omega (arith, ap length shape) in
      let start : frame ++ rest ≡ push_bytes 4 (length body) [] ++ (body ++ rest) =
        ap (λ f. f ++ rest) shape in
      let (after, taken, left) =
        take_exactly_lem reader s (push_bytes 4 (length body) []) (body ++ rest) (h ∙ start) in
      (
        after,
        body,
        rw (read_message, taken, from_bytes-push_four (length body) small) (ground arith),
        body_coded,
        left,
      )

  -- A block of more than 65527 bytes and within the block limit, with an index and an offset of 32
  -- bits, is accepted by the constructor; a reader with its default limit refuses its frame.
  pub read_message-piece_oversize :
      (s : PeerStream reader) (index begin : ℕ) (block frame rest : Bytes)
      → s.limit ≡ max_message_length
      → index < 2 ^ 32
      → begin < 2 ^ 32
      → max_message_length < length block + 9
      → length block ≤ max_block_size
      → encode (piece index begin block) ≡ ok frame
      → pending s.stream ≡ frame ++ rest
      → (construct (piece index begin block) ≡ ok (piece index begin block))
        × ((read_message reader s).0 ≡ err protocol_error)
  unfolding construct
  read_message-piece_oversize s index begin block frame rest limit i b big small coded h =
      let (framed, again, size) = piece_frame index begin block i b (omega arith) in
      let same : framed ≡ frame = cc in
      let long : length frame ≡ length block + 13 = rw (← same) size in
      let (_, _, refused, _, _) =
        read_message-oversize s (piece index begin block) frame rest coded h (omega arith) in
      (ground arith, ap (λ r. r.0) refused)
