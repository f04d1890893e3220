-- ===== src/Tracker/Udp/Requests.antt =====
-- The layout of an announce, field by field.
use peer_stream.Prelude.{
  ℕ, zero, suc, ◌+◌, ◌*◌, ◌/◌, ◌%◌, ◌^◌, ◌<◌, ◌≡◌, refl, sym, ap, ◌∙◌, [], ◌∷◌, ◌++◌, foldl, length,
  take, drop, take_append, drop_append, drop-drop, length-append, append_assoc, Option, none, some,
  true, ltb, lt→ltb, ◌==◌, ==_iff, arith, Bytes, push_bytes, from_bytes, ok,
}
use peer_stream.Peer.Handshake.{info_hash_size, peer_id_size}
use peer_stream.Tracker.Udp.{
  AnnounceRequest, TrackerEvent, started, stopped, completed, join, head, build_announce_request,
  event_code, action_announce,
}

-- The number in so many bytes at an offset.
abbrev pub word_at : ℕ → ℕ → Bytes → ℕ
word_at n offset raw = from_bytes (take n (drop offset raw))

pub from_bytes-push : (n x : ℕ) → x < 256 ^ n → from_bytes (push_bytes n x []) ≡ x
from_bytes-push n x h = go n x [] h
  where
    go :
        (n x : ℕ) (out : Bytes)
        → x < 256 ^ n
        → from_bytes (push_bytes n x out) ≡ foldl (λ m b. m * 256 + b) x out
    go zero x out h = ap (λ y. foldl (λ m b. m * 256 + b) y out) (omega arith)
    go (suc n) x out h =
        go n (x / 256) (x % 256 ∷ out) (omega arith)
        ∙ ap (λ y. foldl (λ m b. m * 256 + b) y out) (omega arith)

-- The numbers fit their fields.
pub record IsPackable (r : AnnounceRequest) (ip : ℕ) : Type 0 where
  pub info_hash : length r.info_hash ≡ info_hash_size
  pub peer_id : length r.peer_id ≡ peer_id_size
  pub downloaded : r.downloaded < 2 ^ 64
  pub left : r.left < 2 ^ 64
  pub uploaded : r.uploaded < 2 ^ 64
  pub address : ip < 2 ^ 32
  pub num_want : r.num_want < 2 ^ 31
  pub port : r.port < 2 ^ 16

-- The fields of an announce in the order of the protocol.
pub record IsAnnounce (connection_id transaction_id : ℕ) (r : AnnounceRequest) (key ip : ℕ)
    (raw : Bytes) : Type 0 where
  pub size : length raw ≡ 98
  pub connection : word_at 8 0 raw ≡ connection_id % 2 ^ 64
  pub action : word_at 4 8 raw ≡ 1
  pub transaction : word_at 4 12 raw ≡ transaction_id % 2 ^ 32
  pub info_hash : take 20 (drop 16 raw) ≡ r.info_hash
  pub peer_id : take 20 (drop 36 raw) ≡ r.peer_id
  pub downloaded : word_at 8 56 raw ≡ r.downloaded
  pub left : word_at 8 64 raw ≡ r.left
  pub uploaded : word_at 8 72 raw ≡ r.uploaded
  pub no_event : r.event ≡ none → word_at 4 80 raw ≡ 0
  pub completes : r.event ≡ some completed → word_at 4 80 raw ≡ 1
  pub starts : r.event ≡ some started → word_at 4 80 raw ≡ 2
  pub stops : r.event ≡ some stopped → word_at 4 80 raw ≡ 3
  pub address : word_at 4 84 raw ≡ ip
  pub key_field : word_at 4 88 raw ≡ key % 2 ^ 32
  pub num_want : word_at 4 92 raw ≡ r.num_want
  pub port : word_at 2 96 raw ≡ r.port

-- What stands behind two names of 20 bytes.
drop-names :
    (n : ℕ) (a b rest : Bytes)
    → length a ≡ 20
    → length b ≡ 20
    → drop (40 + n) (a ++ (b ++ rest)) ≡ drop n rest
drop-names n a b rest ea eb =
    ap (drop (40 + n)) (sym (append_assoc a b rest))
    ∙ sym (drop-drop n 40 ((a ++ b) ++ rest))
    ∙ ap (drop n) (drop_append (a ++ b) rest 40 (omega (arith, length-append a b)))

event_code-lt : (event : Option TrackerEvent) → event_code event < 2 ^ 32
event_code-lt none = omega arith
event_code-lt (some started) = omega arith
event_code-lt (some stopped) = omega arith
event_code-lt (some completed) = omega arith

-- An announce whose numbers fit their fields is built, and the packet has 98 bytes with each field at
-- its place in the protocol; the action is 1, the event is 0 for none, 1 for completed, 2 for
-- started and 3 for stopped, and the ids and the key are cut to the sizes of their fields.
pub build_announce_request-IsAnnounce :
    (connection_id transaction_id : ℕ) (r : AnnounceRequest) (key ip : ℕ)
    → IsPackable r ip
    → (raw : Bytes) × (build_announce_request connection_id transaction_id r key ip ≡ ok raw)
      × IsAnnounce connection_id transaction_id r key ip raw
unfolding build_announce_request
build_announce_request-IsAnnounce connection_id transaction_id r key ip fits =
    let raw = packet in
    (
      raw,
      built,
      record {
        size = omega (
          arith,
          length-append r.info_hash (r.peer_id ++ numbers),
          length-append r.peer_id numbers,
          fits.info_hash,
          fits.peer_id,
        );
        connection = from_bytes-push 8 (connection_id % 2 ^ 64) (omega arith);
        action = refl;
        transaction = from_bytes-push 4 (transaction_id % 2 ^ 32) (omega arith);
        info_hash = take_append r.info_hash (r.peer_id ++ numbers) 20 (sym fits.info_hash);
        peer_id =
            ap (take 20) (drop_append r.info_hash (r.peer_id ++ numbers) 20 (sym fits.info_hash))
            ∙ take_append r.peer_id numbers 20 (sym fits.peer_id);
        downloaded = behind 8 0 ∙ from_bytes-push 8 r.downloaded fits.downloaded;
        left = behind 8 8 ∙ from_bytes-push 8 r.left fits.left;
        uploaded = behind 8 16 ∙ from_bytes-push 8 r.uploaded fits.uploaded;
        no_event = λ e. event_field ∙ ap event_code e;
        completes = λ e. event_field ∙ ap event_code e;
        starts = λ e. event_field ∙ ap event_code e;
        stops = λ e. event_field ∙ ap event_code e;
        address = behind 4 28 ∙ from_bytes-push 4 ip fits.address;
        key_field = behind 4 32 ∙ from_bytes-push 4 (key % 2 ^ 32) (omega arith);
        num_want = behind 4 36 ∙ from_bytes-push 4 r.num_want (omega (arith, fits.num_want));
        port = behind 2 40 ∙ from_bytes-push 2 r.port fits.port;
      },
    )
  where
    numbers : Bytes
    numbers = join (
        push_bytes 8 r.downloaded []
        ∷ push_bytes 8 r.left []
        ∷ push_bytes 8 r.uploaded []
        ∷ push_bytes 4 (event_code r.event) []
        ∷ push_bytes 4 ip []
        ∷ push_bytes 4 (key % 2 ^ 32) []
        ∷ push_bytes 4 r.num_want []
        ∷ push_bytes 2 r.port []
        ∷ [])

    packet : Bytes
    packet =
        head connection_id action_announce transaction_id ++ (r.info_hash ++ (r.peer_id ++ numbers))

    built : build_announce_request connection_id transaction_id r key ip ≡ ok packet
    built =
        let e₁ : (length r.info_hash == info_hash_size) ≡ true = (==_iff _ _).1 fits.info_hash in
        let e₂ : (length r.peer_id == peer_id_size) ≡ true = (==_iff _ _).1 fits.peer_id in
        let e₃ : ltb r.downloaded (256 ^ 8) ≡ true = lt→ltb _ _ fits.downloaded in
        let e₄ : ltb r.left (256 ^ 8) ≡ true = lt→ltb _ _ fits.left in
        let e₅ : ltb r.uploaded (256 ^ 8) ≡ true = lt→ltb _ _ fits.uploaded in
        let e₆ : ltb (event_code r.event) (256 ^ 4) ≡ true = lt→ltb _ _ (event_code-lt r.event) in
        let e₇ : ltb ip (256 ^ 4) ≡ true = lt→ltb _ _ fits.address in
        let e₈ : ltb r.num_want (2 ^ 31) ≡ true = lt→ltb _ _ fits.num_want in
        let e₉ : ltb r.port (256 ^ 2) ≡ true = lt→ltb _ _ fits.port in
        rw (e₁, e₂, e₃, e₄, e₅, e₆, e₇, e₈, e₉) refl

    behind : (n offset : ℕ) → word_at n (56 + offset) packet ≡ word_at n offset numbers
    behind n offset =
        let e : 56 + offset ≡ 16 + (40 + offset) = omega arith in
        ap (λ x. from_bytes (take n x))
          (ap (λ k. drop k packet) e
            ∙ sym (drop-drop (40 + offset) 16 packet)
            ∙ drop-names offset r.info_hash r.peer_id numbers fits.info_hash fits.peer_id)

    event_field : word_at 4 80 packet ≡ event_code r.event
    event_field = behind 4 24 ∙ from_bytes-push 4 (event_code r.event) (event_code-lt r.event)
