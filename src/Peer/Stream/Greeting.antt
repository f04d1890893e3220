-- ===== src/Peer/Stream/Greeting.antt =====
-- app/peer/protocol.py: the exchange of handshakes. The socket's output side is a parameter.
use peer_stream.Prelude.{
  subst, false, ℕ, ◌+◌, ◌≡◌, refl, Bool, some, ◌++◌, length, if◌then◌else◌, Bytes, Result, ok, err,
  and_then, peer_disconnected, arith, length-append,
}
use peer_stream.Peer.Handshake.{Handshake, construct, encode, decode, handshake_length}
use peer_stream.Peer.Handshake.Exact.{decode-encode_iff}
use peer_stream.Peer.Stream.{Reader, PeerStream, take_exactly, counted}
use peer_stream.Peer.Stream.Frames.{take_exactly_lem}

-- `asyncio.StreamWriter`: `write` is its `write` with `drain`, and with the mapping of exceptions in
-- `_write`.
pub record Writer : Type 1 where
  pub Sink : Type 0
  pub write : Bytes → Sink → Result (Unit {0}) × Sink
  pub is_closing : Sink → Bool

module _ (reader : Reader) (writer : Writer) where
  open writer use {Sink}

  pub record Connection : Type 0 where
    pub input : PeerStream reader
    pub sink : Sink
    pub bytes_sent : ℕ

  -- `_write`
  unfoldable pub send_bytes : Bytes → Connection → Result (Unit {0}) × Connection
  send_bytes bytes c =
      if writer.is_closing c.sink
      then (err peer_disconnected, c)
      else let (result, after) = writer.write bytes c.sink in
        and_then (result, record c { sink = after })
          λ _ sent. (ok tt, record sent { bytes_sent = sent.bytes_sent + length bytes })

  -- `data = await self._read_exactly(HANDSHAKE_LENGTH, timeout)`, with the count
  unfoldable pub receive_handshake : Connection → Result Bytes × Connection
  receive_handshake c =
      let (result, after) = take_exactly reader handshake_length c.input in
      and_then (result, record c { input = after })
        λ bytes received.
          (ok bytes, record received { input = counted reader handshake_length received.input })

  unfoldable pub perform_handshake : Handshake → Connection → Result Handshake × Connection
  unfolding send_bytes receive_handshake
  perform_handshake ours c = and_then (send_bytes (encode ours) c) λ _ sent.
      and_then (receive_handshake sent)
        λ bytes received. (decode bytes (some ours.info_hash), received)

  unfoldable pub accept_handshake : Handshake → Connection → Result Handshake × Connection
  unfolding send_bytes receive_handshake
  accept_handshake ours c = and_then (receive_handshake c) λ bytes received.
      and_then (decode bytes (some ours.info_hash), received)
        λ theirs checked. and_then (send_bytes (encode ours) checked) λ _ sent. (ok theirs, sent)

  abbrev pub after_receiving : reader.Stream → Connection → Connection
  after_receiving stream c = record c {
    input = record c.input {
      stream = stream;
      bytes_received = c.input.bytes_received + handshake_length;
    };
  }

  length-encode : (h : Handshake) → construct h ≡ ok h → length (encode h) ≡ handshake_length
  unfolding construct encode
  length-encode h valid =
      let sizes : (length h.info_hash ≡ 20) × (length h.peer_id ≡ 20) × (length h.reserved ≡ 8) =
        ground arith in
      omega (
        arith,
        sizes,
        length-append h.reserved (h.info_hash ++ h.peer_id),
        length-append h.info_hash h.peer_id,
      )

  abbrev pub connect : PeerStream reader → Sink → ℕ → Connection
  connect input sink sent = record { input = input; sink = sink; bytes_sent = sent }

  receive_handshake-encode :
      (s : PeerStream reader) (theirs : Handshake) (rest : Bytes)
      → construct theirs ≡ ok theirs
      → reader.pending s.stream ≡ encode theirs ++ rest
      → (after : reader.Stream) × ((sink : Sink) (sent : ℕ)
          → receive_handshake (connect s sink sent)
            ≡ (ok (encode theirs), after_receiving after (connect s sink sent)))
        × (reader.pending after ≡ rest)
  unfolding receive_handshake
  receive_handshake-encode s theirs rest valid h =
      let (after, taken, left) = take_exactly_lem reader s (encode theirs) rest h in
      let taken₁ : take_exactly reader handshake_length s
          ≡ (ok (encode theirs), record s { stream = after }) =
        subst (λ n. take_exactly reader n s ≡ (ok (encode theirs), record s { stream = after }))
          (length-encode theirs valid) taken in
      (after, λ sink sent. rw taken₁ refl, left)

  -- On an open connection whose writes succeed, with a peer that sends a well-sized handshake for
  -- our torrent, both sides of the exchange give that handshake, take its bytes and no more, and
  -- write ours and count it: the side that dials, and the side that accepts.
  pub exchange-encode :
      (ours theirs : Handshake) (c : Connection) (rest : Bytes) (sink : Sink)
      → construct theirs ≡ ok theirs
      → theirs.info_hash ≡ ours.info_hash
      → writer.is_closing c.sink ≡ false
      → writer.write (encode ours) c.sink ≡ (ok tt, sink)
      → reader.pending c.input.stream ≡ encode theirs ++ rest
      → (after : reader.Stream) × (perform_handshake ours c ≡ (
        ok theirs,
        record (after_receiving after c) {
          sink = sink;
          bytes_sent = c.bytes_sent + length (encode ours);
        },
      ))
        × (accept_handshake ours c ≡ (
          ok theirs,
          record (after_receiving after c) {
            sink = sink;
            bytes_sent = c.bytes_sent + length (encode ours);
          },
        ))
        × (reader.pending after ≡ rest)
  unfolding perform_handshake accept_handshake send_bytes
  exchange-encode ours theirs c rest sink valid swarm open_still wrote h =
      let (after, received, left) = receive_handshake-encode c.input theirs rest valid h in
      let decoded =
        (decode-encode_iff (encode theirs) (some ours.info_hash) theirs).1 (valid, refl, swarm) in
      let sent = c.bytes_sent + length (encode ours) in
      (
        after,
        rw (open_still, wrote, received sink sent, decoded) refl,
        rw (received c.sink c.bytes_sent, decoded, open_still, wrote) refl,
        left,
      )
