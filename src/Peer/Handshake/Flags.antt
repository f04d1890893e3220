-- ===== src/Peer/Handshake/Flags.antt =====
-- The reserved bytes that we send are read as what we advertise.
use peer_stream.Prelude.{◌≡◌, Bool, true, false, arith, Bytes, [], ◌∷◌, length, ok, refl}
use peer_stream.Peer.Handshake.{
  Handshake, construct, outgoing_handshake, supports_dht, supports_extensions, supports_fast,
  info_hash_size, peer_id_size,
}

-- With an info hash and a peer id of the right sizes the handshake is built, carries them, and says
-- exactly which of the two extensions are enabled; the fast extension is never advertised.
pub outgoing_handshake-flags :
    (info_hash peer_id : Bytes) (dht extensions : Bool)
    → length info_hash ≡ info_hash_size
    → length peer_id ≡ peer_id_size
    → (h : Handshake) × (outgoing_handshake info_hash peer_id dht extensions ≡ ok h)
      × (construct h ≡ ok h)
      × (h.info_hash ≡ info_hash)
      × (h.peer_id ≡ peer_id)
      × (supports_dht h ≡ dht)
      × (supports_extensions h ≡ extensions)
      × (supports_fast h ≡ false)
unfolding outgoing_handshake supports_dht supports_extensions supports_fast
outgoing_handshake-flags i p true true hi hp = (
  record { info_hash = i; peer_id = p; reserved = 0 ∷ 0 ∷ 0 ∷ 0 ∷ 0 ∷ 16 ∷ 0 ∷ 1 ∷ [] },
  ground arith,
  ground arith,
  refl,
  refl,
  refl,
  refl,
  refl,
)
outgoing_handshake-flags i p true false hi hp = (
  record { info_hash = i; peer_id = p; reserved = 0 ∷ 0 ∷ 0 ∷ 0 ∷ 0 ∷ 0 ∷ 0 ∷ 1 ∷ [] },
  ground arith,
  ground arith,
  refl,
  refl,
  refl,
  refl,
  refl,
)
outgoing_handshake-flags i p false true hi hp = (
  record { info_hash = i; peer_id = p; reserved = 0 ∷ 0 ∷ 0 ∷ 0 ∷ 0 ∷ 16 ∷ 0 ∷ 0 ∷ [] },
  ground arith,
  ground arith,
  refl,
  refl,
  refl,
  refl,
  refl,
)
outgoing_handshake-flags i p false false hi hp = (
  record { info_hash = i; peer_id = p; reserved = 0 ∷ 0 ∷ 0 ∷ 0 ∷ 0 ∷ 0 ∷ 0 ∷ 0 ∷ [] },
  ground arith,
  ground arith,
  refl,
  refl,
  refl,
  refl,
  refl,
)
