-- ===== src/Peer/Stream.antt =====
-- app/peer/protocol.py: framed message input over a byte stream. The stream is a parameter: its
-- `readexactly` and the bytes that are still to come.
use peer_stream.Prelude.{
  ℕ, zero, suc, ◌+◌, ◌*◌, ◌≤◌, ◌<◌, ◌≡◌, Bool, List, [], ◌∷◌, ◌++◌, length, ltb, ◌==◌,
  if◌then◌else◌, Bytes, from_bytes, Result, Error, ok, err, and_then, ◌>>=◌, protocol_error,
  peer_disconnected,
}
pub mod Frames
pub mod Limits
pub mod Greeting
use peer_stream.Peer.Messages.{Message, keep_alive, decode, encode, message_header_length}

abbrev pub max_message_length : ℕ
max_message_length = 64 * 1024

-- What the program relies on of `asyncio.StreamReader`, with the mapping of its exceptions in
-- `_read_exactly`. Where as many bytes are to come as are asked for, a read takes exactly these off
-- the front and returns them. Any read takes at most as many as are asked for, and exactly as many
-- if it returns; one that raises may have taken fewer.
pub record Reader : Type 1 where
  pub Stream : Type 0
  pub read_exactly : ℕ → Stream → Result Bytes × Stream
  pub pending : Stream → Bytes
  pub reads :
      (s : Stream) (front rest : Bytes)
      → pending s ≡ front ++ rest
      → ((read_exactly (length front) s).0 ≡ ok front)
        × (pending (read_exactly (length front) s).1 ≡ rest)
  pub takes :
      (count : ℕ) (s : Stream)
      → (taken : Bytes) × (pending s ≡ taken ++ pending (read_exactly count s).1)
        × (length taken ≤ count)
        × ((bytes : Bytes) → (read_exactly count s).0 ≡ ok bytes → length taken ≡ count)

-- `messages`: what `count` steps of the iteration yield on a stream that is not closed from our
-- side, and the exception that ends it early. A disconnect ends it without one.
pub data Step : Type 0 where
  running stopped : Step
  raised : Error → Step

abbrev pub after_error : Error → Step
after_error peer_disconnected = stopped
after_error e = raised e

module _ (reader : Reader) where
  open reader use {Stream, read_exactly}

  -- The state of a `PeerStream` that its input side changes.
  pub record PeerStream : Type 0 where
    pub stream : Stream
    pub bytes_received : ℕ
    pub limit : ℕ

  -- `async with asyncio.timeout(...): await self._reader.readexactly(count)`
  pub take_exactly : ℕ → PeerStream → Result Bytes × PeerStream
  take_exactly count s =
      let (result, after) = read_exactly count s.stream in (result, record s { stream = after })

  abbrev pub counted : ℕ → PeerStream → PeerStream
  counted count s = record s { bytes_received = s.bytes_received + count }

  -- The body of a frame, once its declared length has passed the tests.
  pub read_body : ℕ → PeerStream → Result Message × PeerStream
  read_body size s = and_then (take_exactly size s) λ body after. (decode body, counted size after)

  pub read_frame : ℕ → PeerStream → Result Message × PeerStream
  read_frame size s =
      if size == 0
      then (ok keep_alive, s)
      else if ltb s.limit size
      then (err protocol_error, s)
      else read_body size s

  pub read_message : PeerStream → Result Message × PeerStream
  read_message s =
      and_then (take_exactly message_header_length s)
        λ raw_length after. read_frame (from_bytes raw_length) (counted message_header_length after)

  pub messages : ℕ → PeerStream → List Message × Step × PeerStream
  messages zero s = ([], running, s)
  messages (suc count) s =
      let (result, after) = read_message s in
      let rest = messages count after in
      elim result [ ok m ↦ (m ∷ rest.0, rest.1, rest.2) | err e ↦ ([], after_error e, after) ]

-- What successive calls of `send` put on the wire.
unfoldable pub send_all : List Message → Result Bytes
send_all [] = ok []
send_all (m ∷ ms) = do frame ← encode m; rest ← send_all ms; ok (frame ++ rest)
