-- ===== src/Tracker/Udp/Scrapes.antt =====
-- The reply to a scrape.
use peer_stream.Prelude.{
  ℕ, ◌*◌, ◌/◌, ◌%◌, ◌^◌, ◌<◌, ◌≡◌, refl, sym, ap, ◌∙◌, Bool, true, false, List, [], ◌∷◌, ◌++◌,
  append-nil, append_assoc, map, length, length-map, All, leb, ◌==◌, if◌then◌else◌, arith, Bytes,
  bytes_eq, push_bytes, from_bytes, Result, ok, ◌>>=◌, ◌>>◌, guard, tracker_protocol_error,
}
use peer_stream.Tracker.Udp.{
  ScrapeResponse, entry_of, put_result, read_entries, parse_scrape_response, join, action_scrape,
}
use peer_stream.Tracker.Udp.Requests.{from_bytes-push}

-- A torrent's counters as they are sent: seeders, downloads, leechers.
abbrev pub entry_bytes : ScrapeResponse → Bytes
entry_bytes v =
    push_bytes 4 v.complete [] ++ (push_bytes 4 v.downloaded [] ++ push_bytes 4 v.incomplete [])

abbrev pub HasWords : ScrapeResponse → Type 0
HasWords v = (v.complete < 2 ^ 32) × (v.incomplete < 2 ^ 32) × (v.downloaded < 2 ^ 32)

abbrev pub Results : Type 0
Results = List (Bytes × ScrapeResponse)

abbrev pub keys : Results → List Bytes
keys = map (λ r. r.0)

abbrev pub values : Results → List ScrapeResponse
values = map (λ r. r.1)

abbrev pub scrape_reply : ℕ → List ScrapeResponse → Bytes
scrape_reply transaction_id vs =
    push_bytes 4 action_scrape [] ++ (push_bytes 4 transaction_id [] ++ join (map entry_bytes vs))

abbrev pub is_key : Bytes → Results → Bool
is_key k [] = false
is_key k ((j, w) ∷ rs) = if bytes_eq j k then true else is_key k rs

-- No info hash was asked for twice, nor is one among the results so far.
abbrev pub AreNew : Results → Results → Type 0
AreNew before [] = Unit
AreNew before ((k, v) ∷ rs) = (is_key k before ≡ false) × AreNew (before ++ ((k, v) ∷ [])) rs

length-entries : (vs : List ScrapeResponse) → length (join (map entry_bytes vs)) ≡ 12 * length vs
length-entries [] = refl
length-entries (v ∷ vs) = omega (arith, length-entries vs)

put_result-new :
    (k : Bytes) (v : ScrapeResponse) (rs : Results)
    → is_key k rs ≡ false
    → put_result k v rs ≡ rs ++ ((k, v) ∷ [])
unfolding put_result
put_result-new k v [] new = refl
put_result-new k v ((j, w) ∷ rs) new = ground (arith, put_result-new k v rs)

entry_of-entry_bytes :
    (v : ScrapeResponse) (rest : Bytes) → HasWords v → entry_of (entry_bytes v ++ rest) ≡ v
entry_of-entry_bytes v rest (c, i, d) =
    ap
      (λ x. record {
        complete = x;
        incomplete = from_bytes (push_bytes 4 v.incomplete []);
        downloaded = from_bytes (push_bytes 4 v.downloaded []);
      })
      (from_bytes-push 4 v.complete c)
    ∙ ap
        (λ x. record {
          complete = v.complete;
          incomplete = x;
          downloaded = from_bytes (push_bytes 4 v.downloaded []);
        })
        (from_bytes-push 4 v.incomplete i)
    ∙ ap (λ x. record { complete = v.complete; incomplete = v.incomplete; downloaded = x })
        (from_bytes-push 4 v.downloaded d)

read_entries-entry_bytes :
    (before rs : Results)
    → AreNew before rs
    → All HasWords (values rs)
    → read_entries (length rs) (keys rs) (join (map entry_bytes (values rs))) before ≡ before ++ rs
unfolding read_entries
read_entries-entry_bytes before [] new words = sym (append-nil before)
read_entries-entry_bytes before ((k, v) ∷ rs) (new, more) (w, words) =
    let body = join (map entry_bytes (values rs)) in
    ap (λ e. read_entries (length rs) (keys rs) body (put_result k e before))
      (entry_of-entry_bytes v body w)
    ∙ ap (read_entries (length rs) (keys rs) body) (put_result-new k v before new)
    ∙ read_entries-entry_bytes (before ++ ((k, v) ∷ [])) rs more words
    ∙ append_assoc before ((k, v) ∷ []) rs

-- A reply to a scrape, laid out by the protocol with an entry of three counters for each info hash, is
-- read back as those entries under those hashes, where no hash was asked for twice and the numbers
-- fit their fields.
pub parse_scrape_response-scrape_reply :
    (transaction_id : ℕ) (rs : Results)
    → transaction_id < 2 ^ 32
    → AreNew [] rs
    → All HasWords (values rs)
    → parse_scrape_response (scrape_reply transaction_id (values rs)) transaction_id (keys rs)
      ≡ ok rs
unfolding parse_scrape_response
parse_scrape_response-scrape_reply transaction_id rs tx new words =
    let body = join (map entry_bytes (values rs)) in
    let size = length (scrape_reply transaction_id (values rs)) in
    let long : leb 8 size ≡ true = ground arith in
    let ours : (transaction_id == transaction_id) ≡ true = ground arith in
    let count : length body ≡ 12 * length rs =
      length-entries (values rs) ∙ ap (λ n. 12 * n) (length-map rs (λ r. r.1)) in
    let whole : ((12 * length rs) % 12 == 0) ≡ true = ground arith in
    let entries : (12 * length rs) / 12 ≡ length rs = omega arith in
    let enough : leb (length rs) (length (keys rs)) ≡ true =
      ground (arith, length-map rs (λ r. r.0)) in
    ap (λ t. read size t (length body)) (from_bytes-push 4 transaction_id tx)
    ∙ ap (read size transaction_id) count
    ∙ (rw (long, ours, whole, entries, enough) (ap ok (read_entries-entry_bytes [] rs new words)))
  where
    -- The parse in terms of the numbers read.
    read : ℕ → ℕ → ℕ → Result Results
    read size received n =
        (do
          guard (leb 8 size) tracker_protocol_error
          guard (received == transaction_id) tracker_protocol_error
          guard true tracker_protocol_error
          guard (leb 8 size) tracker_protocol_error
          ok 2)
        >>= λ action.
            guard (action == 2) tracker_protocol_error
            >> (guard (n % 12 == 0) tracker_protocol_error
                >> (guard (leb (n / 12) (length (keys rs))) tracker_protocol_error
                    >> ok
                        (read_entries (n / 12) (keys rs) (join (map entry_bytes (values rs))) [])))
