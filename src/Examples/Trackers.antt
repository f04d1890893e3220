-- ===== src/Examples/Trackers.antt =====
-- Packets of a UDP tracker: an announce, its reply with two peers, and a scrape.
use peer_stream.Prelude.{
  ◌-◌, ◌%◌, ◌≤◌, ◌≡◌, refl, String, false, some, List, [], ◌∷◌, length, take, replicate, ◌==◌,
  if◌then◌else◌, leb→le, ltb→lt, Bytes, Error, ok, err, tracker_protocol_error,
}
use text.Mathlib.Text.{◌==◌ as ◌same_text◌}
use peer_stream.Tracker.Udp.{
  AnnounceRequest, AnnounceResponse, started, build_announce_request, parse_announce_response,
  parse_scrape_response,
}
use peer_stream.Tracker.Udp.Requests.{
  IsAnnounce, IsPackable, word_at, build_announce_request-IsAnnounce,
}
use peer_stream.Tracker.Udp.Replies.{
  Compact, announce_reply, listening, parse_announce_response-announce_reply,
}
use peer_stream.Tracker.Udp.Refusals.{parse_announce_response-refuses}
use peer_stream.Tracker.Udp.Scrapes.{
  Results, keys, values, scrape_reply, parse_scrape_response-scrape_reply,
}

abbrev request : AnnounceRequest
request = record {
  info_hash = replicate 20 7;
  peer_id = replicate 20 9;
  port = 6881;
  uploaded = 0;
  downloaded = 1000;
  left = 5000;
  event = some started;
  num_want = 50;
}

request-IsPackable : IsPackable request 0
request-IsPackable = record {
  info_hash = refl;
  peer_id = refl;
  downloaded = ltb→lt _ _ refl;
  left = ltb→lt _ _ refl;
  uploaded = ltb→lt _ _ refl;
  address = ltb→lt _ _ refl;
  num_want = ltb→lt _ _ refl;
  port = ltb→lt _ _ refl;
}

build_announce_request-IsAnnounce_example :
    (raw : Bytes) × (build_announce_request 77 5 request 3 0 ≡ ok raw)
    × IsAnnounce 77 5 request 3 0 raw
build_announce_request-IsAnnounce_example =
    build_announce_request-IsAnnounce 77 5 request 3 0 request-IsPackable

abbrev one_host : Bytes → String
one_host host = "192.0.2.1"

one_host-named : (host : Bytes) → length host ≡ 4 → (one_host host same_text "") ≡ false
one_host-named host size = refl

abbrev two_records : List Compact
two_records =
    record { a = 192; b = 0; c = 2; d = 1; port = 0 }
    ∷ record { a = 192; b = 0; c = 2; d = 2; port = 6881 }
    ∷ []

parse_announce_response-announce_reply_example :
    parse_announce_response one_host 50 1800 (announce_reply 5 0 3 4 two_records) 5
    ≡ ok record {
      interval = if 0 == 0 then 1800 else 0;
      peers = take 50 (listening one_host two_records);
      complete = 4;
      incomplete = 3;
    }
parse_announce_response-announce_reply_example =
    parse_announce_response-announce_reply one_host one_host-named 50 1800 5 0 3 4 two_records
      (leb→le 1 50 refl) (ltb→lt 5 _ refl) (ltb→lt 0 _ refl) (ltb→lt 3 _ refl) (ltb→lt 4 _ refl)
      (ltb→lt 0 _ refl, (ltb→lt 6881 _ refl, tt))

abbrev refusal : Bytes
refusal = 0 ∷ 0 ∷ 0 ∷ 3 ∷ 0 ∷ 0 ∷ 0 ∷ 5 ∷ b'n' ∷ b'o' ∷ []

parse_announce_response-refuses_example :
    ((response : AnnounceResponse)
      → parse_announce_response one_host 50 1800 refusal 5 ≡ ok response
      → (20 ≤ length refusal)
        × (word_at 4 4 refusal ≡ 5)
        × (word_at 4 0 refusal ≡ 1)
        × ((length refusal - 20) % 6 ≡ 0))
    × ((e : Error)
        → parse_announce_response one_host 50 1800 refusal 5 ≡ err e
        → e ≡ tracker_protocol_error)
parse_announce_response-refuses_example =
    parse_announce_response-refuses one_host one_host-named 50 1800 5 refusal (
      ltb→lt 0 256 refl,
      (
        ltb→lt 0 256 refl,
        (
          ltb→lt 0 256 refl,
          (
            ltb→lt 3 256 refl,
            (
              ltb→lt 0 256 refl,
              (
                ltb→lt 0 256 refl,
                (
                  ltb→lt 0 256 refl,
                  (ltb→lt 5 256 refl, (ltb→lt b'n' 256 refl, (ltb→lt b'o' 256 refl, tt))),
                ),
              ),
            ),
          ),
        ),
      ),
    )

abbrev two_torrents : Results
two_torrents =
    (replicate 20 7, record { complete = 1; incomplete = 2; downloaded = 3 })
    ∷ (replicate 20 8, record { complete = 0; incomplete = 300; downloaded = 70000 })
    ∷ []

parse_scrape_response-scrape_reply_example :
    parse_scrape_response (scrape_reply 5 (values two_torrents)) 5 (keys two_torrents)
    ≡ ok two_torrents
parse_scrape_response-scrape_reply_example =
    parse_scrape_response-scrape_reply 5 two_torrents (ltb→lt 5 _ refl) (refl, (refl, tt))
      (
        (ltb→lt 1 _ refl, ltb→lt 2 _ refl, ltb→lt 3 _ refl),
        ((ltb→lt 0 _ refl, ltb→lt 300 _ refl, ltb→lt 70000 _ refl), tt),
      )
