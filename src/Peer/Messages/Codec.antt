-- ===== src/Peer/Messages/Codec.antt =====
-- The codec of message bodies is exact: decoding and encoding undo each other.
use peer_stream.Prelude.{
  ℕ, ◌+◌, ◌≤◌, ◌≡◌, refl, ◌↔◌, ◌⊎◌, inl, inr, [], ◌∷◌, length, ◌==◌, arith, Bytes, IsBytes,
  from_bytes, Result, Error, ok, err, ◌>>=◌, message_error, Ensures, holds, raises, Ensures-ok,
  Ensures-err, Ensures-if, Ensures-bind, Ensures-guard, Ensures_of_err, subst, sym, ==_iff,
  if◌then◌else◌, Ensures_of_guard, nil_of_length,
}
use peer_stream.Peer.Messages.{
  Message, keep_alive, choke, unchoke, interested, not_interested, have, bitfield, request, piece,
  cancel, port, extended, construct, pack, unpack, encode_body, require_exact, decode_payload,
  msg_have, request_payload_length, msg_piece, msg_port, msg_extended, decode, decode_bare,
  decode_have, decode_range, decode_piece, decode_port, decode_extended,
}

pub decode_nil : decode [] ≡ ok keep_alive
unfolding decode
decode_nil = refl

-- A field that was packed is unpacked, and the bytes behind it are left.
unpack-pack : (x : ℕ) (rest raw : Bytes) → pack x rest ≡ ok raw → unpack raw ≡ ok (x, rest)
unfolding pack unpack
unpack-pack x rest raw h = ground arith

length-pack : (x : ℕ) (rest raw : Bytes) → pack x rest ≡ ok raw → length raw ≡ length rest + 4
unfolding pack
length-pack x rest raw h = ground arith

-- An encoded message decodes to itself.
pub decode-encode_body :
    (m : Message) (body : Bytes) → construct m ≡ ok m → encode_body m ≡ ok body → decode body ≡ ok m
unfolding decode encode_body
decode-encode_body (have index) body v h = ground arith
decode-encode_body (bitfield payload) body v h = ground arith
decode-encode_body (request index begin size) body v h = ground arith
decode-encode_body (piece index begin block) body v h = ground arith
decode-encode_body (cancel index begin size) body v h = ground arith
decode-encode_body (port number) body v h = ground arith
decode-encode_body (extended extension_id payload) body v h = ground arith
decode-encode_body _ body v h = ground arith

-- What a successful decoding says of the input, and what else can come of it.
abbrev Encodes : Bytes → Message → Type 0
Encodes body m = (construct m ≡ ok m) × (encode_body m ≡ ok body)

abbrev IsMessageError : Error → Type 0
IsMessageError e = e ≡ message_error

unpack-Ensures :
    (raw : Bytes)
    → 4 ≤ length raw
    → IsBytes raw
    → Ensures
        (λ (x, rest). (pack x rest ≡ ok raw) × IsBytes rest × (length raw ≡ length rest + 4))
        IsMessageError
        (unpack raw)
unfolding unpack pack
unpack-Ensures (a ∷ b ∷ c ∷ d ∷ rest) h bs = holds (ground arith, ground arith, ground arith)
unpack-Ensures _ h bs = absurd (omega arith)

construct_cases : (m : Message) → (construct m ≡ ok m) ⊎ (construct m ≡ err message_error)
unfolding construct
construct_cases (bitfield payload) = ground arith
construct_cases (request index begin size) = ground arith
construct_cases (piece index begin block) = ground arith
construct_cases (cancel index begin size) = ground arith
construct_cases (port number) = ground arith
construct_cases (extended extension_id payload) = ground arith
construct_cases _ = inl refl

-- A decoder that ends by building `m` is right if `m` encodes to the input.
construct-Ensures :
    (m : Message) (body : Bytes)
    → (construct m ≡ ok m → encode_body m ≡ ok body)
    → Ensures (Encodes body) IsMessageError (construct m)
construct-Ensures m body h = elim (construct_cases m) [
  | inl fine ↦ rw fine (holds (fine, h fine))
  | inr bad ↦ rw bad (raises refl)
]

require_exact-Ensures :
    (payload : Bytes) (size : ℕ)
    → Ensures (λ _. length payload ≡ size) IsMessageError (require_exact payload size)
unfolding require_exact
require_exact-Ensures payload size =
    Ensures_of_guard (length payload == size) message_error refl λ h. ground arith

decode_bare-Ensures :
    (m : Message) (message_id : ℕ) (payload : Bytes)
    → encode_body m ≡ ok (message_id ∷ [])
    → Ensures (Encodes (message_id ∷ payload)) IsMessageError (decode_bare m payload)
unfolding require_exact
decode_bare-Ensures m message_id [] h = construct-Ensures m _ λ _. h
decode_bare-Ensures m message_id (b ∷ payload) h = Ensures_of_err message_error (ground arith) refl

decode_have-Ensures :
    (payload : Bytes)
    → IsBytes payload
    → Ensures (Encodes (msg_have ∷ payload)) IsMessageError (decode_have payload)
unfolding require_exact encode_body
decode_have-Ensures (a ∷ b ∷ c ∷ d ∷ []) bs = construct-Ensures _ _ λ _. ground arith
decode_have-Ensures payload bs = Ensures_of_err message_error (ground arith) refl

decode_range-Ensures :
    (build : ℕ → ℕ → ℕ → Message) (message_id : ℕ) (payload : Bytes)
    → ((index begin size : ℕ)
        → encode_body (build index begin size)
          ≡ (do c ← pack size []; b ← pack begin c; a ← pack index b; ok (message_id ∷ a)))
    → IsBytes payload
    → Ensures (Encodes (message_id ∷ payload)) IsMessageError (decode_range build payload)
decode_range-Ensures build message_id payload code bs =
    Ensures-bind (require_exact-Ensures payload request_payload_length) λ _ exact.
      Ensures-bind (unpack-Ensures payload (ground arith) bs) λ (index, r₁) (p₁, b₁, l₁).
        Ensures-bind (unpack-Ensures r₁ (ground arith) b₁) λ (begin, r₂) (p₂, b₂, l₂).
          Ensures-bind (unpack-Ensures r₂ (ground arith) b₂) λ (size, r₃) (p₃, b₃, l₃).
            construct-Ensures (build index begin size) (message_id ∷ payload)
              λ _. rw (code index begin size, rw (nil_of_length r₃ (omega arith)) at p₃, p₂, p₁)

decode_piece-Ensures :
    (payload : Bytes)
    → IsBytes payload
    → Ensures (Encodes (msg_piece ∷ payload)) IsMessageError (decode_piece payload)
unfolding unpack encode_body
decode_piece-Ensures (a ∷ b ∷ c ∷ d ∷ e ∷ f ∷ g ∷ h ∷ block) bs =
    let x = from_bytes (a ∷ b ∷ c ∷ d ∷ []) in
    let y = from_bytes (e ∷ f ∷ g ∷ h ∷ []) in
    Ensures-guard _ _ refl λ _. construct-Ensures (piece x y block) _ λ _. ground arith
decode_piece-Ensures payload bs = Ensures_of_err message_error (ground arith) refl

decode_port-Ensures :
    (payload : Bytes)
    → IsBytes payload
    → Ensures (Encodes (msg_port ∷ payload)) IsMessageError (decode_port payload)
unfolding require_exact encode_body
decode_port-Ensures (a ∷ b ∷ []) bs = construct-Ensures _ _ λ _. ground arith
decode_port-Ensures payload bs = Ensures_of_err message_error (ground arith) refl

decode_extended-Ensures :
    (payload : Bytes)
    → IsBytes payload
    → Ensures (Encodes (msg_extended ∷ payload)) IsMessageError (decode_extended payload)
unfolding encode_body
decode_extended-Ensures [] bs = raises refl
decode_extended-Ensures (extension_id ∷ payload) bs = construct-Ensures _ _ λ _. ground arith

-- One arm of the match on the id.
arm :
    (message_id k : ℕ) (payload : Bytes) {x y : Result Message}
    → Ensures (Encodes (k ∷ payload)) IsMessageError x
    → Ensures (Encodes (message_id ∷ payload)) IsMessageError y
    → Ensures (Encodes (message_id ∷ payload)) IsMessageError (if message_id == k then x else y)
arm message_id k payload {x} hx hy =
    Ensures-if (message_id == k)
      (λ h.
        subst (λ n. Ensures (Encodes (n ∷ payload)) IsMessageError x)
          (sym ((==_iff message_id k).0 h)) hx)
      (λ _. hy)

decode_payload-Ensures :
    (message_id : ℕ) (payload : Bytes)
    → IsBytes payload
    → Ensures (Encodes (message_id ∷ payload)) IsMessageError (decode_payload message_id payload)
unfolding decode_payload encode_body
decode_payload-Ensures message_id payload bs =
    arm message_id 0 payload (decode_bare-Ensures choke 0 payload refl) (
      arm message_id 1 payload (decode_bare-Ensures unchoke 1 payload refl) (
        arm message_id 2 payload (decode_bare-Ensures interested 2 payload refl) (
          arm message_id 3 payload (decode_bare-Ensures not_interested 3 payload refl) (
            arm message_id 4 payload (decode_have-Ensures payload bs) (
              arm message_id 5 payload
                (construct-Ensures (bitfield payload) (5 ∷ payload) (λ _. refl))
                (arm message_id 6 payload
                  (decode_range-Ensures request 6 payload (λ i b s. refl) bs)
                  (arm message_id 7 payload (decode_piece-Ensures payload bs) (
                    arm message_id 8 payload
                      (decode_range-Ensures cancel 8 payload (λ i b s. refl) bs)
                      (arm message_id 9 payload (decode_port-Ensures payload bs) (
                        arm message_id 20 payload (decode_extended-Ensures payload bs)
                          (raises refl)))))))))))

-- Decoding fails with `MessageError`, or gives a message that encodes to the input.
decode-Ensures : (body : Bytes) → IsBytes body → Ensures (Encodes body) IsMessageError (decode body)
unfolding decode encode_body
decode-Ensures [] bs = holds (refl, refl)
decode-Ensures (message_id ∷ payload) bs = decode_payload-Ensures message_id payload bs.1

-- On byte strings, a body decodes to a message exactly when the message passes its constructor's
-- checks and encodes to that body.
pub decode-eq-ok_iff :
    (body : Bytes) (m : Message)
    → IsBytes body
    → (decode body ≡ ok m) ↔ (construct m ≡ ok m) × (encode_body m ≡ ok body)
decode-eq-ok_iff body m bs =
    (Ensures-ok (decode-Ensures body bs), λ h. decode-encode_body m body h.0 h.1)

-- On byte strings, the only exception that decoding raises is `MessageError`.
pub decode-raises :
    (body : Bytes) (e : Error) → IsBytes body → decode body ≡ err e → e ≡ message_error
decode-raises body e bs = Ensures-err (decode-Ensures body bs)
