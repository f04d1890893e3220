-- ===== src/Examples/Readers.antt =====
-- A byte stream and a sink that are lists of bytes.
use peer_stream.Prelude.{
  ℕ, ◌≤◌, ◌≡◌, refl, sym, ap, ◌∙◌, inl, inr, Bool-cases, false, [], ◌++◌, length, take, drop, ltb,
  le→ltb, if◌then◌else◌, take_append, drop_append, append-nil, length-take, take-append-drop,
  length-append, arith, Bytes, Result, ok, err, peer_disconnected,
}
use peer_stream.Peer.Stream.{Reader, PeerStream}
use peer_stream.Peer.Stream.Greeting.{Writer}

-- A stream of bytes that are all there.
unfoldable pub read_bytes : ℕ → Bytes → Result Bytes × Bytes
read_bytes count s =
    if ltb (length s) count then (err peer_disconnected, []) else (ok (take count s), drop count s)

pub read_bytes-append :
    (s front rest : Bytes)
    → s ≡ front ++ rest
    → ((read_bytes (length front) s).0 ≡ ok front) × ((read_bytes (length front) s).1 ≡ rest)
unfolding read_bytes
read_bytes-append s front rest h =
    let enough : ltb (length s) (length front) ≡ false =
      le→ltb (length s) (length front) (omega (arith, ap length h, length-append front rest)) in
    rw enough (
      ap ok (ap (take (length front)) h ∙ take_append front rest (length front) refl),
      ap (drop (length front)) h ∙ drop_append front rest (length front) refl,
    )

pub read_bytes-takes :
    (count : ℕ) (s : Bytes)
    → (taken : Bytes) × (s ≡ taken ++ (read_bytes count s).1)
      × (length taken ≤ count)
      × ((bytes : Bytes) → (read_bytes count s).0 ≡ ok bytes → length taken ≡ count)
unfolding read_bytes
read_bytes-takes count s = elim (Bool-cases (ltb (length s) count)) [
  | inl short ↦ rw short (s, sym (append-nil s), ground arith, λ bytes e. cc)
  | inr enough ↦
      let size : length (take count s) ≡ count = length-take count s ∙ (ground arith) in
      rw enough (take count s, sym (take-append-drop count s), omega (arith, size), λ bytes e. size)
]

abbrev pub byte_reader : Reader
byte_reader = record {
  Stream = Bytes;
  read_exactly = read_bytes;
  pending = λ s. s;
  reads = read_bytes-append;
  takes = read_bytes-takes;
}

abbrev pub byte_writer : Writer
byte_writer = record {
  Sink = Bytes;
  write = λ bytes sink. (ok tt, sink ++ bytes);
  is_closing = λ sink. false;
}

abbrev pub start_with : ℕ → Bytes → PeerStream byte_reader
start_with limit bytes = record { stream = bytes; bytes_received = 0; limit = limit }
