-- ===== src/Peer/Handshake/Exact.antt =====
-- The handshake codec is exact, and the swarm check is part of it.
use peer_stream.Prelude.{
  ℕ, ◌≡◌, refl, sym, ap, ◌↔◌, true, Option, none, some, [], ◌∷◌, ◌++◌, length, take, drop, ◌==◌,
  arith, Bytes, bytes_eq, bytes_eq_refl, bytes_eq→eq, ok, take_append, guard-eq-ok, ==_iff,
  take_all, ◌∙◌, length-drop, drop-drop, append_assoc, drop_append, length-append, take-append-drop,
  handshake_error,
}
use peer_stream.Peer.Handshake.{
  Handshake, construct, encode, decode, slice, is_expected, protocol_string, handshake_length,
  info_hash_size, peer_id_size, reserved_bytes_length,
}

-- The handshake is for the torrent that is asked for, if one is.
abbrev pub IsExpected : Option Bytes → Bytes → Type 0
IsExpected none info_hash = Unit
IsExpected (some expected) info_hash = info_hash ≡ expected

is_expected_iff :
    (expected : Option Bytes) (info_hash : Bytes)
    → (is_expected expected info_hash ≡ true) ↔ IsExpected expected info_hash
unfolding is_expected
is_expected_iff none info_hash = (λ _. tt, λ _. refl)
is_expected_iff (some expected) info_hash =
    (bytes_eq→eq info_hash expected, λ h. rw h (bytes_eq_refl expected))

abbrev Sizes : Handshake → Type 0
Sizes h =
    (length h.info_hash ≡ info_hash_size)
    × (length h.peer_id ≡ peer_id_size)
    × (length h.reserved ≡ reserved_bytes_length)

construct-Sizes : (h : Handshake) → construct h ≡ ok h → Sizes h
unfolding construct
construct-Sizes h valid = ground arith

-- The three parts behind the protocol string.
pub slices-append :
    (r i p : Bytes)
    → length r ≡ 8
    → length i ≡ 20
    → length p ≡ 20
    → (take 8 (r ++ (i ++ p)) ≡ r)
      × (take 20 (drop 8 (r ++ (i ++ p))) ≡ i)
      × (take 20 (drop 28 (r ++ (i ++ p))) ≡ p)
slices-append r i p lr li lp =
    let past : drop 28 (r ++ (i ++ p)) ≡ p =
      ap (drop 28) (sym (append_assoc r i p))
      ∙ drop_append (r ++ i) p 28 (omega (arith, length-append r i)) in
    (
      take_append r (i ++ p) 8 (sym lr),
      rw (drop_append r (i ++ p) 8 (sym lr)) (take_append i p 20 (sym li)),
      rw past (take_all p 20 (omega arith)),
    )

append-slices :
    (w : Bytes) → length w ≡ 48 → take 8 w ++ (take 20 (drop 8 w) ++ take 20 (drop 28 w)) ≡ w
append-slices w h =
    let last : take 20 (drop 28 w) ≡ drop 20 (drop 8 w) =
      take_all (drop 28 w) 20 (omega (arith, length-drop 28 w)) ∙ sym (drop-drop 20 8 w) in
    rw (last, take-append-drop 20 (drop 8 w), take-append-drop 8 w)

-- A handshake that is encoded decodes to itself where its torrent is expected.
decode-encode :
    (h : Handshake) (expected : Option Bytes)
    → construct h ≡ ok h
    → IsExpected expected h.info_hash
    → decode (encode h) expected ≡ ok h
unfolding decode encode
decode-encode h expected valid fine =
    let (li, lp, lr) = construct-Sizes h valid in
    let (r, i, p) = slices-append h.reserved h.info_hash h.peer_id lr li lp in
    rw (r, i, p, (is_expected_iff expected h.info_hash).1 fine)
      (ground (
        arith,
        length-append h.reserved (h.info_hash ++ h.peer_id),
        length-append h.info_hash h.peer_id,
      ))

construct-eq : (g h : Handshake) → construct g ≡ ok h → g ≡ h
unfolding construct
construct-eq g h e = ground arith

-- What the tests of `decode` establish for a handshake whose first byte is `x`.
decode_facts :
    (x : ℕ) (t : Bytes) (expected : Option Bytes) (h : Handshake)
    → decode (x ∷ t) expected ≡ ok h
    → (length (x ∷ t) ≡ handshake_length)
      × (x ≡ 19)
      × (take 19 t ≡ protocol_string)
      × (is_expected expected (slice 28 48 (x ∷ t)) ≡ true)
      × (construct h ≡ ok h)
      × (record {
        info_hash = slice 28 48 (x ∷ t);
        peer_id = slice 48 68 (x ∷ t);
        reserved = slice 20 28 (x ∷ t);
      }
          ≡ h)
unfolding decode
decode_facts x t expected h d =
    let (size, d₁) = guard-eq-ok (length (x ∷ t) == handshake_length) handshake_error _ d in
    let (first, d₂) = guard-eq-ok (x == 19) handshake_error _ d₁ in
    let (proto, d₃) = guard-eq-ok (bytes_eq (take 19 t) protocol_string) handshake_error _ d₂ in
    let (swarm, d₄) =
      guard-eq-ok (is_expected expected (slice 28 48 (x ∷ t))) handshake_error _ d₃ in
    let same = construct-eq _ h d₄ in
    (
      (==_iff _ handshake_length).0 size,
      (==_iff x 19).0 first,
      bytes_eq→eq (take 19 t) protocol_string proto,
      swarm,
      ap construct (sym same) ∙ d₄,
      same,
    )

-- The parts lie side by side behind the protocol string.
slices-tail :
    (t : Bytes)
    → length t ≡ 67
    → take 8 (drop 19 t) ++ (take 20 (drop 27 t) ++ take 20 (drop 47 t)) ≡ drop 19 t
slices-tail t h =
    rw (← drop-drop 8 19 t, ← drop-drop 28 19 t)
      (append-slices (drop 19 t) (omega (arith, length-drop 19 t)))

encode-decode :
    (raw : Bytes) (expected : Option Bytes) (h : Handshake)
    → decode raw expected ≡ ok h
    → (construct h ≡ ok h) × (encode h ≡ raw) × IsExpected expected h.info_hash
unfolding encode
encode-decode [] expected h d = absurd (unfold decode in ground arith)
encode-decode (x ∷ t) expected h d =
    let (size, first, proto, swarm, valid, same) = decode_facts x t expected h d in
    let parts = slices-tail t (omega arith) in
    let whole = ap (λ q. q ++ drop 19 t) (sym proto) ∙ take-append-drop 19 t in
    (
      valid,
      rw (← same, parts, whole, first),
      rw (← same) ((is_expected_iff expected (slice 28 48 (x ∷ t))).0 swarm),
    )

-- A byte string decodes to a handshake exactly when it is the encoding of that handshake, with parts
-- of the right sizes, and its torrent is the one expected, if any is.
pub decode-encode_iff :
    (raw : Bytes) (expected : Option Bytes) (h : Handshake)
    → (decode raw expected ≡ ok h)
      ↔ (construct h ≡ ok h) × (encode h ≡ raw) × IsExpected expected h.info_hash
decode-encode_iff raw expected h = (
  encode-decode raw expected h,
  λ (valid, shape, fine). rw shape at (decode-encode h expected valid fine),
)
