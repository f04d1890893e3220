-- ===== src/Peer/Session/History.antt =====
-- The state of a session after a peer's messages.
use peer_stream.Prelude.{
  ℕ, ◌+◌, ◌≤◌, ◌<◌, ◌≡◌, refl, sym, ap, ◌∙◌, Bool, Bool-cases, inl, inr, true, false, Option, none,
  some, List, [], ◌∷◌, length, Bytes, IsBytes, ok, ◌>>=◌, >>=-eq-ok, arith, lt→ltb,
}
use peer_stream.Peer.Messages.{
  Message, keep_alive, choke, unchoke, interested, not_interested, have, bitfield, request, piece,
  cancel, port, extended,
}
use peer_stream.Peer.Bitfield.{Bitfield, byte_count, has, holds}
use peer_stream.Peer.Bitfield.Invariant.{IsValid}
use peer_stream.Peer.Bitfield.Access.{has-put}
use peer_stream.Peer.Bitfield.Wire.{parse-has}
use peer_stream.Peer.Session.{
  PeerSession, EventType, peer_bitfield, piece_block_received, apply, apply_all, apply_have,
  apply_bitfield, apply_piece, with_event,
}

pub record IsSession (s : PeerSession) : Type 0 where
  pub counted : s.bitfield.piece_count ≡ s.piece_count
  pub valid : IsValid s.bitfield

-- The payload of a message is made of bytes.
abbrev pub IsPayload : Message → Type 0
IsPayload (bitfield payload) = IsBytes payload
IsPayload _ = Unit

-- A block lies inside its piece, where the length of pieces is known.
abbrev pub IsInside : ℕ → ℕ → Option ℕ → Type 0
IsInside begin size none = Unit
IsInside begin size (some piece_length) = (begin < piece_length) × (begin + size ≤ piece_length)

-- What a peer may send: pieces of the torrent, blocks inside them, and one bitfield of its size.
abbrev pub IsLawful : Option ℕ → PeerSession → Message → Type 0
IsLawful piece_length s (have index) = index < s.piece_count
IsLawful piece_length s (bitfield payload) =
    (s.bitfield_received ≡ false) × (byte_count s.piece_count ≤ length payload)
IsLawful piece_length s (piece index begin block) =
    (index < s.piece_count) × IsInside begin (length block) piece_length
IsLawful piece_length s _ = Unit

has_inside :
    (field : Bitfield) (index : ℕ)
    → index < field.piece_count
    → has field index ≡ ok (holds field index)
unfolding has
has_inside field index h = rw (lt→ltb index field.piece_count h) refl

apply_have-outcome :
    (index : ℕ) (s : PeerSession)
    → IsSession s
    → index < s.piece_count
    → (t : PeerSession) × (apply_have index s ≡ ok t)
      × IsSession t
      × (t.piece_count ≡ s.piece_count)
apply_have-outcome index s v h =
    let inside : index < s.bitfield.piece_count = (let e = v.counted in omega arith) in
    let held = has_inside s.bitfield index inside in
    elim (Bool-cases (holds s.bitfield index)) [
      | inl there ↦ (s, rw (lt→ltb index s.piece_count h, held, there) refl, v, refl)
      | inr absent ↦
          let (after, written, valid, same, _) = has-put s.bitfield index true v.valid inside in
          (
            record s { bitfield = after },
            rw (lt→ltb index s.piece_count h, held, absent, written) refl,
            record { counted = same ∙ v.counted; valid = valid },
            refl,
          )
    ]

apply_bitfield-outcome :
    (payload : Bytes) (s : PeerSession)
    → IsBytes payload
    → s.bitfield_received ≡ false
    → byte_count s.piece_count ≤ length payload
    → (t : PeerSession) × (apply_bitfield payload s ≡ ok t)
      × IsSession t
      × (t.piece_count ≡ s.piece_count)
apply_bitfield-outcome payload s bytes once long =
    let (field, parsed, valid, same, _) = parse-has payload s.piece_count bytes long in
    (
      record s { bitfield = field; bitfield_received = true },
      rw (once, parsed) refl,
      record { counted = same; valid = valid },
      refl,
    )

apply_piece-outcome :
    (index begin : ℕ) (block : Bytes) (piece_length : Option ℕ) (s : PeerSession)
    → index < s.piece_count
    → IsInside begin (length block) piece_length
    → apply_piece index begin block piece_length s
      ≡ ok (record s { downloaded = s.downloaded + length block })
apply_piece-outcome index begin block none s h inside = rw (lt→ltb index s.piece_count h) refl
apply_piece-outcome index begin block (some piece_length) s h (starts, ends) = ground arith

-- With a session whose bitfield is a valid one of the torrent's size, a message of bytes that is
-- lawful is taken, and the session after it is such a session again, for the same torrent.
pub apply-IsSession :
    (m : Message) (piece_length : Option ℕ) (s : PeerSession)
    → IsSession s
    → IsPayload m
    → IsLawful piece_length s m
    → (event : Option EventType) × (t : PeerSession) × (apply m piece_length s ≡ ok (event, t))
      × IsSession t
      × (t.piece_count ≡ s.piece_count)
unfolding apply
apply-IsSession keep_alive pl s v _ _ = (_, _, refl, v, refl)
apply-IsSession choke pl s v _ _ =
    (_, _, refl, record { counted = v.counted; valid = v.valid }, refl)
apply-IsSession unchoke pl s v _ _ =
    (_, _, refl, record { counted = v.counted; valid = v.valid }, refl)
apply-IsSession interested pl s v _ _ =
    (_, _, refl, record { counted = v.counted; valid = v.valid }, refl)
apply-IsSession not_interested pl s v _ _ =
    (_, _, refl, record { counted = v.counted; valid = v.valid }, refl)
apply-IsSession (have index) pl s v _ h =
    let (t, taken, valid, same) = apply_have-outcome index s v h in
    (none, t, ap (λ r. r >>= with_event none) taken, valid, same)
apply-IsSession (bitfield payload) pl s v bytes (once, long) =
    let (t, taken, valid, same) = apply_bitfield-outcome payload s bytes once long in
    (some peer_bitfield, t, ap (λ r. r >>= with_event (some peer_bitfield)) taken, valid, same)
apply-IsSession (piece index begin block) pl s v _ (h, inside) = (
  some piece_block_received,
  record s { downloaded = s.downloaded + length block },
  ap (λ r. r >>= with_event (some piece_block_received))
      (apply_piece-outcome index begin block pl s h inside),
  record { counted = v.counted; valid = v.valid },
  refl,
)
apply-IsSession (request index begin size) pl s v _ _ = (_, _, refl, v, refl)
apply-IsSession (cancel index begin size) pl s v _ _ = (_, _, refl, v, refl)
apply-IsSession (port number) pl s v _ _ = (_, _, refl, v, refl)
apply-IsSession (extended id payload) pl s v _ _ = (_, _, refl, v, refl)

-- What the counters and flags are after the messages, whatever they were before.
abbrev pub choked_after : Bool → List Message → Bool
choked_after flag [] = flag
choked_after flag (choke ∷ ms) = choked_after true ms
choked_after flag (unchoke ∷ ms) = choked_after false ms
choked_after flag (_ ∷ ms) = choked_after flag ms

abbrev pub block_bytes : List Message → ℕ
block_bytes [] = 0
block_bytes (piece index begin block ∷ ms) = length block + block_bytes ms
block_bytes (_ ∷ ms) = block_bytes ms

apply_one :
    (m : Message) (pl : Option ℕ) (s t : PeerSession) (event : Option EventType)
    → apply m pl s ≡ ok (event, t)
    → (t.peer_choking ≡ choked_after s.peer_choking (m ∷ []))
      × (t.downloaded ≡ s.downloaded + block_bytes (m ∷ []))
unfolding apply
apply_one keep_alive pl s t event h = ground arith
apply_one choke pl s t event h = ground arith
apply_one unchoke pl s t event h = ground arith
apply_one interested pl s t event h = ground arith
apply_one not_interested pl s t event h = ground arith
apply_one (have index) pl s t event h = ground arith
apply_one (bitfield payload) pl s t event h = ground arith
apply_one (piece index begin block) none s t event h = ground arith
apply_one (piece index begin block) (some piece_length) s t event h = ground arith
apply_one (request index begin size) pl s t event h = ground arith
apply_one (cancel index begin size) pl s t event h = ground arith
apply_one (port number) pl s t event h = ground arith
apply_one (extended id payload) pl s t event h = ground arith

choked_after_cons :
    (flag : Bool) (m : Message) (ms : List Message)
    → choked_after flag (m ∷ ms) ≡ choked_after (choked_after flag (m ∷ [])) ms
choked_after_cons flag keep_alive ms = refl
choked_after_cons flag choke ms = refl
choked_after_cons flag unchoke ms = refl
choked_after_cons flag interested ms = refl
choked_after_cons flag not_interested ms = refl
choked_after_cons flag (have index) ms = refl
choked_after_cons flag (bitfield payload) ms = refl
choked_after_cons flag (piece index begin block) ms = refl
choked_after_cons flag (request index begin size) ms = refl
choked_after_cons flag (cancel index begin size) ms = refl
choked_after_cons flag (port number) ms = refl
choked_after_cons flag (extended id payload) ms = refl

block_bytes_cons :
    (m : Message) (ms : List Message) → block_bytes (m ∷ ms) ≡ block_bytes (m ∷ []) + block_bytes ms
block_bytes_cons keep_alive ms = omega arith
block_bytes_cons choke ms = omega arith
block_bytes_cons unchoke ms = omega arith
block_bytes_cons interested ms = omega arith
block_bytes_cons not_interested ms = omega arith
block_bytes_cons (have index) ms = omega arith
block_bytes_cons (bitfield payload) ms = omega arith
block_bytes_cons (piece index begin block) ms = omega arith
block_bytes_cons (request index begin size) ms = omega arith
block_bytes_cons (cancel index begin size) ms = omega arith
block_bytes_cons (port number) ms = omega arith
block_bytes_cons (extended id payload) ms = omega arith

-- After messages that were all taken, the peer chokes us as the last choke or unchoke among them
-- says, or as it did if there is none, and the bytes downloaded have grown by those of the blocks.
pub apply_all_lem :
    (ms : List Message) (piece_length : Option ℕ) (s t : PeerSession)
    → apply_all ms piece_length s ≡ ok t
    → (t.peer_choking ≡ choked_after s.peer_choking ms)
      × (t.downloaded ≡ s.downloaded + block_bytes ms)
unfolding apply_all
apply_all_lem [] pl s t h = ground arith
apply_all_lem (m ∷ ms) pl s t h =
    let ((event, next), taken, rest) = >>=-eq-ok (apply m pl s) _ h in
    let (choked, bytes) = apply_one m pl s next event taken in
    let (choked_rest, bytes_rest) = apply_all_lem ms pl next t rest in
    (
      choked_rest
          ∙ ap (λ flag. choked_after flag ms) choked
          ∙ sym (choked_after_cons s.peer_choking m ms),
      omega (arith, block_bytes_cons m ms),
    )
