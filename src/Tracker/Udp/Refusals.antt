-- ===== src/Tracker/Udp/Refusals.antt =====
-- The replies that are refused.
use peer_stream.Prelude.{
  ℕ, zero, suc, ◌-◌, ◌*◌, ◌/◌, ◌%◌, ◌≤◌, ◌≡◌, refl, sym, ap, ◌∙◌, String, Bool-cases, inl, inr,
  true, false, not, List, [], ◌∷◌, length, take, drop, length-take, length-drop, leb, leb→le, ◌==◌,
  ==_iff, if◌then◌else◌, arith, Bytes, IsBytes, from_bytes, Result, ok, err, Error,
  tracker_protocol_error, Ensures, holds, Ensures-ok, Ensures-err, Ensures-bind, Ensures-guard,
  Ensures-map, Ensures-if,
}
use text.Mathlib.Text.{◌==◌ as ◌same_text◌}
use peer_stream.Dht.Contact.{min_port, max_port}
use peer_stream.Tracker.Udp.{
  PeerAddress, AnnounceResponse, take_peer, read_peers, parse_udp_peers, parse_announce_response,
  header, header_size, action_error, announce_response_header_size, compact_ipv4_record_size,
}
use peer_stream.Tracker.Udp.Requests.{word_at}

abbrev IsTrackerError : Error → Type 0
IsTrackerError e = e ≡ tracker_protocol_error

abbrev Anything {ℓ} : {A : Type ℓ} → A → Type 0
Anything a = Unit

IsBytes-drop : (n : ℕ) (raw : Bytes) → IsBytes raw → IsBytes (drop n raw)
IsBytes-drop zero raw h = h
IsBytes-drop (suc n) [] h = tt
IsBytes-drop (suc n) (b ∷ raw) h = IsBytes-drop n raw h.1

-- Two bytes are no more than a port may be.
port-le : (raw : Bytes) → IsBytes raw → from_bytes (take 2 raw) ≤ max_port
port-le [] h = omega arith
port-le (a ∷ []) h = omega arith
port-le (a ∷ b ∷ raw) h = omega arith

take_peer-Ensures :
    (max_peers count : ℕ) (p : PeerAddress) (more : Result (List PeerAddress))
    → (p.host same_text "") ≡ false
    → p.port ≤ max_port
    → Ensures Anything IsTrackerError more
    → Ensures Anything IsTrackerError (take_peer max_peers count p more)
take_peer-Ensures max_peers count p more named high rest = elim (Bool-cases (p.port == 0)) [
  | inl silent ↦ rw silent rest
  | inr some_port ↦
      let e : leb min_port p.port ≡ true = ground arith in
      let e₁ : leb p.port max_port ≡ true = ground arith in
      rw (some_port, named, e, e₁)
        (Ensures-if (leb max_peers (suc count)) (λ last. holds tt)
          (λ again. Ensures-bind rest λ peers h. holds tt))
]

header-Ensures :
    (raw : Bytes) (transaction_id minimum : ℕ)
    → Ensures
        (λ action.
          (action ≡ word_at 4 0 raw) × (word_at 4 4 raw ≡ transaction_id) × (minimum ≤ length raw))
        IsTrackerError
        (header raw transaction_id minimum)
header-Ensures raw transaction_id minimum =
    Ensures-guard (leb header_size (length raw)) tracker_protocol_error refl λ there.
      Ensures-guard (word_at 4 4 raw == transaction_id) tracker_protocol_error refl λ ours.
        Ensures-guard (not (word_at 4 0 raw == action_error)) tracker_protocol_error refl
          λ accepted.
            Ensures-guard (leb minimum (length raw)) tracker_protocol_error refl
              λ long. holds (refl, (==_iff _ _).0 ours, leb→le _ _ long)

module _ (ntoa : Bytes → String)
    (named : (host : Bytes) → length host ≡ 4 → (ntoa host same_text "") ≡ false) where
  read_peers-Ensures :
      (max_peers count records : ℕ) (blob : Bytes)
      → 6 * records ≤ length blob
      → IsBytes blob
      → Ensures Anything IsTrackerError (read_peers ntoa max_peers count records blob)
  unfolding read_peers
  read_peers-Ensures max_peers count zero blob long h = holds tt
  read_peers-Ensures max_peers count (suc records) blob long h =
      let port = from_bytes (take 2 (drop 4 blob)) in
      take_peer-Ensures max_peers count (record { host = ntoa (take 4 blob); port = port }) _
        (named (take 4 blob) (omega (arith, length-take 4 blob)))
        (port-le (drop 4 blob) (IsBytes-drop 4 blob h))
        (read_peers-Ensures max_peers (if port == 0 then count else suc count) records
          (drop compact_ipv4_record_size blob) (omega (arith, length-drop 6 blob))
          (IsBytes-drop 6 blob h))

  parse_udp_peers-Ensures :
      (max_peers : ℕ) (blob : Bytes)
      → IsBytes blob
      → Ensures (λ peers. length blob % 6 ≡ 0) IsTrackerError (parse_udp_peers ntoa max_peers blob)
  unfolding parse_udp_peers
  parse_udp_peers-Ensures max_peers blob h =
      Ensures-guard (length blob % 6 == 0) tracker_protocol_error refl λ whole.
        Ensures-map (λ peers u. (==_iff _ _).0 whole) (λ e q. q)
          (read_peers-Ensures max_peers 0 (length blob / 6) blob (omega arith) h)

  -- For bytes, and addresses with a text: a reply that is taken for an announce has a whole header, our
  -- transaction, the action of an announce and whole peer records, and any other raises
  -- `TrackerProtocolError`.
  pub parse_announce_response-refuses :
      (max_peers default_interval transaction_id : ℕ) (raw : Bytes)
      → IsBytes raw
      → ((response : AnnounceResponse)
          → parse_announce_response ntoa max_peers default_interval raw transaction_id ≡ ok response
          → (20 ≤ length raw)
            × (word_at 4 4 raw ≡ transaction_id)
            × (word_at 4 0 raw ≡ 1)
            × ((length raw - 20) % 6 ≡ 0))
        × ((e : Error)
            → parse_announce_response ntoa max_peers default_interval raw transaction_id ≡ err e
            → e ≡ tracker_protocol_error)
  unfolding parse_announce_response
  parse_announce_response-refuses max_peers default_interval transaction_id raw h =
      (λ response done. Ensures-ok parsed done, λ e raised. Ensures-err parsed raised)
    where
      parsed :
          Ensures
            (λ response.
              (20 ≤ length raw)
              × (word_at 4 4 raw ≡ transaction_id)
              × (word_at 4 0 raw ≡ 1)
              × ((length raw - 20) % 6 ≡ 0))
            IsTrackerError
            (parse_announce_response ntoa max_peers default_interval raw transaction_id)
      parsed =
          Ensures-bind (header-Ensures raw transaction_id announce_response_header_size)
            λ action (is, ours, long).
              Ensures-guard (action == 1) tracker_protocol_error refl λ announce.
                Ensures-bind
                  (parse_udp_peers-Ensures max_peers (drop 20 raw) (IsBytes-drop 20 raw h))
                  λ peers whole. holds (
                    long,
                    ours,
                    sym is ∙ (==_iff _ _).0 announce,
                    ap (λ n. n % 6) (sym (length-drop 20 raw)) ∙ whole,
                  )
