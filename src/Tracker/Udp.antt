-- ===== src/Tracker/Udp.antt =====
-- The packets of app/tracker/udp_tracker.py, with the records of app/tracker/base.py that they carry
-- and the compact peers of app/tracker/http_tracker.py. `inet_ntoa` is a parameter.
pub mod Requests
pub mod Replies
pub mod Refusals
pub mod Scrapes
use peer_stream.Prelude.{
  ℕ, zero, suc, ◌/◌, ◌%◌, ◌^◌, String, Bool, true, not, ◌&&◌, Option, none, some, List, [], ◌∷◌,
  ◌++◌, length, take, drop, ltb, leb, ◌==◌, if◌then◌else◌, Bytes, bytes_eq, push_bytes, from_bytes,
  Result, ok, ◌>>=◌, ◌>>◌, guard, value_error, struct_error, tracker_protocol_error,
}
use text.Mathlib.Text.{◌==◌ as ◌same_text◌}
use peer_stream.Dht.Contact.{min_port, max_port}
use peer_stream.Peer.Handshake.{info_hash_size, peer_id_size}

abbrev pub protocol_id : ℕ
protocol_id = 0x41727101980

abbrev pub action_connect : ℕ
action_connect = 0

abbrev pub action_announce : ℕ
action_announce = 1

abbrev pub action_scrape : ℕ
action_scrape = 2

abbrev pub action_error : ℕ
action_error = 3

abbrev pub connect_response_size : ℕ
connect_response_size = 16

abbrev pub announce_request_size : ℕ
announce_request_size = 98

abbrev pub announce_response_header_size : ℕ
announce_response_header_size = 20

abbrev pub scrape_response_header_size : ℕ
scrape_response_header_size = 8

abbrev pub scrape_entry_size : ℕ
scrape_entry_size = 12

abbrev pub header_size : ℕ
header_size = 8

abbrev pub max_scrape_hashes : ℕ
max_scrape_hashes = 74

abbrev pub compact_ipv4_record_size : ℕ
compact_ipv4_record_size = 6

-- A field of `struct.pack`.
abbrev pub pack_word : ℕ → ℕ → Result Bytes
pack_word n x = do guard (ltb x (256 ^ n)) struct_error; ok (push_bytes n x [])

pub data TrackerEvent : Type 0 where
  started stopped completed : TrackerEvent

abbrev pub event_code : Option TrackerEvent → ℕ
event_code none = 0
event_code (some completed) = 1
event_code (some started) = 2
event_code (some stopped) = 3

-- Its numbers are not negative, as `__post_init__` asks, so that `max(-1, request.num_want)` is
-- `num_want`.
pub record AnnounceRequest : Type 0 where
  pub info_hash : Bytes
  pub peer_id : Bytes
  pub port : ℕ
  pub uploaded : ℕ
  pub downloaded : ℕ
  pub left : ℕ
  pub event : Option TrackerEvent
  pub num_want : ℕ

-- `AnnounceRequest(...)` with `__post_init__`; the counters are not negative
unfoldable pub make_request : AnnounceRequest → Result AnnounceRequest
make_request r = do
  guard (length r.info_hash == info_hash_size) value_error
  guard (length r.peer_id == peer_id_size) value_error
  guard (leb min_port r.port && leb r.port max_port) value_error
  ok r

unfoldable pub build_connect_request : ℕ → Bytes
build_connect_request transaction_id =
    push_bytes 8 protocol_id []
    ++ push_bytes 4 action_connect []
    ++ push_bytes 4 (transaction_id % 2 ^ 32) []

-- `struct.pack(">QII", ...)`, the head of an announce and of a scrape
abbrev pub head : ℕ → ℕ → ℕ → Bytes
head connection_id action transaction_id =
    push_bytes 8 (connection_id % 2 ^ 64) []
    ++ push_bytes 4 action []
    ++ push_bytes 4 (transaction_id % 2 ^ 32) []

-- The `i` of `struct.pack`, for a number that is not negative
abbrev pub pack_signed : ℕ → Result Bytes
pack_signed x = do guard (ltb x (2 ^ 31)) struct_error; ok (push_bytes 4 x [])

abbrev pub join : List Bytes → Bytes
join [] = []
join (h ∷ hs) = h ++ join hs

-- No key is the key 0.
unfoldable pub build_announce_request : ℕ → ℕ → AnnounceRequest → ℕ → ℕ → Result Bytes
build_announce_request connection_id transaction_id r key ip = do
  guard (length r.info_hash == info_hash_size) tracker_protocol_error
  guard (length r.peer_id == peer_id_size) tracker_protocol_error
  downloaded ← pack_word 8 r.downloaded
  left ← pack_word 8 r.left
  uploaded ← pack_word 8 r.uploaded
  event ← pack_word 4 (event_code r.event)
  address ← pack_word 4 ip
  num_want ← pack_signed r.num_want
  port ← pack_word 2 r.port
  ok (
      join (
        head connection_id action_announce transaction_id
        ∷ r.info_hash
        ∷ r.peer_id
        ∷ downloaded
        ∷ left
        ∷ uploaded
        ∷ event
        ∷ address
        ∷ push_bytes 4 (key % 2 ^ 32) []
        ∷ num_want
        ∷ port
        ∷ []))

abbrev pub are_info_hashes : List Bytes → Bool
are_info_hashes [] = true
are_info_hashes (h ∷ hs) = (length h == info_hash_size) && are_info_hashes hs

unfoldable pub build_scrape_request : ℕ → ℕ → List Bytes → Result Bytes
build_scrape_request connection_id transaction_id hashes = do
  guard (ltb 0 (length hashes)) tracker_protocol_error
  guard (leb (length hashes) max_scrape_hashes) tracker_protocol_error
  guard (are_info_hashes hashes) tracker_protocol_error
  ok (head connection_id action_scrape transaction_id ++ join hashes)

pub record PeerAddress : Type 0 where
  pub host : String
  pub port : ℕ

-- `PeerAddress(...)` with `__post_init__`
abbrev pub make_peer : PeerAddress → Result PeerAddress
make_peer p = do
  guard (not (p.host same_text "")) value_error
  guard (leb min_port p.port && leb p.port max_port) value_error
  ok p

-- A round of the loop of `parse_compact_peers_ipv4`; `more` are the peers of the next rounds.
abbrev pub take_peer : ℕ → ℕ → PeerAddress → Result (List PeerAddress) → Result (List PeerAddress)
take_peer max_peers count p more =
    if p.port == 0
    then more
    else make_peer p >>= λ peer.
        if leb max_peers (suc count) then ok (peer ∷ []) else more >>= λ peers. ok (peer ∷ peers)

-- The loop, with the number of peers so far
unfoldable pub read_peers : (Bytes → String) → ℕ → ℕ → ℕ → Bytes → Result (List PeerAddress)
read_peers ntoa max_peers count zero blob = ok []
read_peers ntoa max_peers count (suc records) blob =
    let p : PeerAddress = record {
      host = ntoa (take 4 blob);
      port = from_bytes (take 2 (drop 4 blob));
    } in
    take_peer max_peers count p (
      read_peers ntoa max_peers (if p.port == 0 then count else suc count) records
        (drop compact_ipv4_record_size blob))

unfoldable pub parse_udp_peers : (Bytes → String) → ℕ → Bytes → Result (List PeerAddress)
parse_udp_peers ntoa max_peers blob = do
  guard (length blob % compact_ipv4_record_size == 0) tracker_protocol_error
  read_peers ntoa max_peers 0 (length blob / compact_ipv4_record_size) blob

pub record AnnounceResponse : Type 0 where
  pub interval : ℕ
  pub peers : List PeerAddress
  pub complete : ℕ
  pub incomplete : ℕ

-- `_header`
abbrev pub header : Bytes → ℕ → ℕ → Result ℕ
header raw transaction_id minimum = do
  guard (leb header_size (length raw)) tracker_protocol_error
  guard (from_bytes (take 4 (drop 4 raw)) == transaction_id) tracker_protocol_error
  guard (not (from_bytes (take 4 raw) == action_error)) tracker_protocol_error
  guard (leb minimum (length raw)) tracker_protocol_error
  ok (from_bytes (take 4 raw))

-- `_is_error`
unfoldable pub is_error : Bytes → Bool
is_error raw = leb header_size (length raw) && (from_bytes (take 4 raw) == action_error)

unfoldable pub parse_connect_response : Bytes → ℕ → Result ℕ
parse_connect_response raw transaction_id = do
  action ← header raw transaction_id connect_response_size
  guard (action == action_connect) tracker_protocol_error
  ok (from_bytes (take 8 (drop header_size raw)))

unfoldable pub parse_announce_response :
    (Bytes → String) → ℕ → ℕ → Bytes → ℕ → Result AnnounceResponse
parse_announce_response ntoa max_peers default_interval raw transaction_id = do
  action ← header raw transaction_id announce_response_header_size
  guard (action == action_announce) tracker_protocol_error
  let interval = from_bytes (take 4 (drop 8 raw))
  peers ← parse_udp_peers ntoa max_peers (drop announce_response_header_size raw)
  ok record {
    interval = if interval == 0 then default_interval else interval;
    peers = peers;
    complete = from_bytes (take 4 (drop 16 raw));
    incomplete = from_bytes (take 4 (drop 12 raw));
  }

pub record ScrapeResponse : Type 0 where
  pub complete : ℕ
  pub incomplete : ℕ
  pub downloaded : ℕ

abbrev pub entry_of : Bytes → ScrapeResponse
entry_of body = record {
  complete = from_bytes (take 4 body);
  incomplete = from_bytes (take 4 (drop 8 body));
  downloaded = from_bytes (take 4 (drop 4 body));
}

-- `results[info_hash] = entry`, on the dictionary as a list of its pairs
unfoldable pub put_result :
    Bytes → ScrapeResponse → List (Bytes × ScrapeResponse) → List (Bytes × ScrapeResponse)
put_result k v [] = (k, v) ∷ []
put_result k v ((j, w) ∷ results) =
    if bytes_eq j k then (j, v) ∷ results else (j, w) ∷ put_result k v results

-- The loop of `parse_scrape_response`
unfoldable pub read_entries :
    ℕ → List Bytes → Bytes → List (Bytes × ScrapeResponse) → List (Bytes × ScrapeResponse)
read_entries zero hashes body results = results
read_entries (suc entries) [] body results = results
read_entries (suc entries) (h ∷ hashes) body results =
    read_entries entries hashes (drop scrape_entry_size body) (put_result h (entry_of body) results)

unfoldable pub parse_scrape_response :
    Bytes → ℕ → List Bytes → Result (List (Bytes × ScrapeResponse))
parse_scrape_response raw transaction_id hashes = do
  action ← header raw transaction_id scrape_response_header_size
  guard (action == action_scrape) tracker_protocol_error
  let body = drop scrape_response_header_size raw
  guard (length body % scrape_entry_size == 0) tracker_protocol_error
  guard (leb (length body / scrape_entry_size) (length hashes)) tracker_protocol_error
  ok (read_entries (length body / scrape_entry_size) hashes body [])
