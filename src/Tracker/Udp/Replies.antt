-- ===== src/Tracker/Udp/Replies.antt =====
-- The replies of a tracker.
use peer_stream.Prelude.{
  ℕ, zero, suc, ◌-◌, ◌*◌, ◌/◌, ◌%◌, ◌^◌, ◌<◌, ◌≡◌, refl, sym, ap, subst, ◌∙◌, String, Bool,
  Bool-cases, inl, inr, true, false, not, List, [], ◌∷◌, ◌++◌, map, filter, length, take, All, leb,
  ◌==◌, if◌then◌else◌, arith, Bytes, push_bytes, from_bytes, Result, ok, ◌>>=◌, ◌>>◌, guard,
  tracker_protocol_error,
}
use text.Mathlib.Text.{◌==◌ as ◌same_text◌}
use peer_stream.Tracker.Udp.{
  PeerAddress, AnnounceResponse, take_peer, read_peers, parse_udp_peers, parse_announce_response,
  join, action_announce,
}
use peer_stream.Dht.Contact.{min_port, max_port}
use peer_stream.Tracker.Udp.Requests.{from_bytes-push}

-- A compact record: four bytes of address and a port.
pub record Compact : Type 0 where
  pub a : ℕ
  pub b : ℕ
  pub c : ℕ
  pub d : ℕ
  pub port : ℕ

abbrev pub compact : Compact → Bytes
compact r = r.a ∷ r.b ∷ r.c ∷ r.d ∷ push_bytes 2 r.port []

abbrev pub is_listening : Compact → Bool
is_listening r = not (r.port == 0)

abbrev pub peer_of : (Bytes → String) → Compact → PeerAddress
peer_of ntoa r = record { host = ntoa (r.a ∷ r.b ∷ r.c ∷ r.d ∷ []); port = r.port }

abbrev pub listening : (Bytes → String) → List Compact → List PeerAddress
listening ntoa rs = map (peer_of ntoa) (filter is_listening rs)

abbrev pub HasPort : Compact → Type 0
HasPort r = r.port < 2 ^ 16

abbrev pub announce_reply : ℕ → ℕ → ℕ → ℕ → List Compact → Bytes
announce_reply transaction_id interval leechers seeders rs =
    push_bytes 4 action_announce []
    ++ push_bytes 4 transaction_id []
    ++ push_bytes 4 interval []
    ++ push_bytes 4 leechers []
    ++ push_bytes 4 seeders []
    ++ join (map compact rs)

length-compacts : (rs : List Compact) → length (join (map compact rs)) ≡ 6 * length rs
length-compacts [] = refl
length-compacts (r ∷ rs) = omega (arith, length-compacts rs)

take_peer-listening :
    (max_peers count : ℕ) (p : PeerAddress) (peers : List PeerAddress)
    (more : Result (List PeerAddress))
    → count < max_peers
    → (p.host same_text "") ≡ false
    → (p.port == 0) ≡ false
    → p.port < 2 ^ 16
    → (suc count < max_peers → more ≡ ok (take (max_peers - suc count) peers))
    → take_peer max_peers count p more ≡ ok (take (max_peers - count) (p ∷ peers))
take_peer-listening max_peers count p peers more room named some_port fits next =
    let low : leb min_port p.port ≡ true = ground arith in
    let high : leb p.port max_port ≡ true = ground arith in
    elim (Bool-cases (leb max_peers (suc count))) [
      | inl last ↦
          let one : max_peers - count ≡ 1 = ground arith in
          rw (some_port, named, low, high, last, one) refl
      | inr again ↦
          let left : max_peers - count ≡ suc (max_peers - suc count) = ground arith in
          let rest = next (ground arith) in rw (some_port, named, low, high, again, left, rest) refl
    ]

module _ (ntoa : Bytes → String)
    (named : (host : Bytes) → length host ≡ 4 → (ntoa host same_text "") ≡ false) where
  read_peers-compacts :
      (max_peers count : ℕ) (rs : List Compact)
      → count < max_peers
      → All HasPort rs
      → read_peers ntoa max_peers count (length rs) (join (map compact rs))
        ≡ ok (take (max_peers - count) (listening ntoa rs))
  unfolding read_peers
  read_peers-compacts max_peers count [] room ports = ap ok (sym (take-nil (max_peers - count)))
    where
      take-nil : (n : ℕ) → take {A = PeerAddress} n [] ≡ []
      take-nil zero = refl
      take-nil (suc n) = refl
  read_peers-compacts max_peers count (r ∷ rs) room (fits, ports) =
      ap
        (λ port.
          take_peer max_peers count record { host = (peer_of ntoa r).host; port = port }
            (read_peers ntoa max_peers (if port == 0 then count else suc count) (length rs)
              (join (map compact rs))))
        (from_bytes-push 2 r.port fits)
      ∙ elim (Bool-cases (r.port == 0)) [
        | inl silent ↦ rw silent (read_peers-compacts max_peers count rs room ports)
        | inr open_port ↦
            ap
              (λ b. take_peer max_peers count (peer_of ntoa r) (
                read_peers ntoa max_peers (if b then count else suc count) (length rs)
                  (join (map compact rs))))
              open_port
            ∙ take_peer-listening max_peers count (peer_of ntoa r) (listening ntoa rs)
                (read_peers ntoa max_peers (suc count) (length rs) (join (map compact rs))) room
                (named _ refl) open_port fits
                (λ more_room. read_peers-compacts max_peers (suc count) rs more_room ports)
            ∙ ap
                (λ b. ok (
                  take (max_peers - count) (
                    map (peer_of ntoa)
                      (if not b then r ∷ filter is_listening rs else filter is_listening rs))))
                (sym open_port)
      ]

  parse_udp_peers-compacts :
      (max_peers : ℕ) (rs : List Compact)
      → 0 < max_peers
      → All HasPort rs
      → parse_udp_peers ntoa max_peers (join (map compact rs))
        ≡ ok (take max_peers (listening ntoa rs))
  unfolding parse_udp_peers
  parse_udp_peers-compacts max_peers rs some_room ports =
      let whole : ((6 * length rs) % 6 == 0) ≡ true = ground arith in
      let same : max_peers - 0 ≡ max_peers = omega arith in
      let records : (6 * length rs) / 6 ≡ length rs = omega arith in
      ap
        (λ n.
          guard (n % 6 == 0) tracker_protocol_error
          >> read_peers ntoa max_peers 0 (n / 6) (join (map compact rs)))
        (length-compacts rs)
      ∙ (rw (whole, records)
          (subst
            (λ n.
              read_peers ntoa max_peers 0 (length rs) (join (map compact rs))
              ≡ ok (take n (listening ntoa rs)))
            same (read_peers-compacts max_peers 0 rs some_room ports)))

  -- The parse in terms of the numbers read.
  abbrev read : ℕ → ℕ → ℕ → List Compact → ℕ → ℕ → ℕ → ℕ → ℕ → Result AnnounceResponse
  read max_peers default_interval transaction_id rs size received interval leechers seeders =
      (do
        guard (leb 8 size) tracker_protocol_error
        guard (received == transaction_id) tracker_protocol_error
        guard true tracker_protocol_error
        guard (leb 20 size) tracker_protocol_error
        ok 1)
      >>= λ action.
          guard (action == 1) tracker_protocol_error
          >> (parse_udp_peers ntoa max_peers (join (map compact rs)) >>= λ peers. ok record {
            interval = if interval == 0 then default_interval else interval;
            peers = peers;
            complete = seeders;
            incomplete = leechers;
          })

  -- A reply to an announce, laid out by the protocol, is read back: the counters as they were sent, the
  -- default in place of an interval of 0, and the peers with a port other than 0, up to the maximum.
  -- This holds for fields within their sizes, a maximum of 1 at least, and addresses with a text.
  pub parse_announce_response-announce_reply :
      (max_peers default_interval transaction_id interval leechers seeders : ℕ) (rs : List Compact)
      → 0 < max_peers
      → transaction_id < 2 ^ 32
      → interval < 2 ^ 32
      → leechers < 2 ^ 32
      → seeders < 2 ^ 32
      → All HasPort rs
      → parse_announce_response ntoa max_peers default_interval
          (announce_reply transaction_id interval leechers seeders rs)
          transaction_id
        ≡ ok record {
          interval = if interval == 0 then default_interval else interval;
          peers = take max_peers (listening ntoa rs);
          complete = seeders;
          incomplete = leechers;
        }
  unfolding parse_announce_response parse_udp_peers
  parse_announce_response-announce_reply max_peers default_interval transaction_id interval leechers
        seeders rs some_room tx iv le se ports =
      let read_here = read max_peers default_interval transaction_id rs in
      let size = length (announce_reply transaction_id interval leechers seeders rs) in
      let long : leb 20 size ≡ true = ground arith in
      let header_there : leb 8 size ≡ true = ground arith in
      let ours : (transaction_id == transaction_id) ≡ true = ground arith in
      ap
        (λ t.
          read_here size t (from_bytes (push_bytes 4 interval []))
            (from_bytes (push_bytes 4 leechers [])) (from_bytes (push_bytes 4 seeders [])))
        (from_bytes-push 4 transaction_id tx)
      ∙ ap
          (λ i.
            read_here size transaction_id i (from_bytes (push_bytes 4 leechers []))
              (from_bytes (push_bytes 4 seeders [])))
          (from_bytes-push 4 interval iv)
      ∙ ap (λ l. read_here size transaction_id interval l (from_bytes (push_bytes 4 seeders [])))
          (from_bytes-push 4 leechers le)
      ∙ ap (λ s. read_here size transaction_id interval leechers s) (from_bytes-push 4 seeders se)
      ∙ (rw (header_there, ours, long, parse_udp_peers-compacts max_peers rs some_room ports) refl)
