-- ===== src/Examples/Uploads.antt =====
-- Two interested peers and one that is not, for one slot.
use peer_stream.Prelude.{String, true, false, none, some, List, [], ◌∷◌}
use peer_stream.Upload.Choke.{UploadConfig, PeerAccounting, ChokePolicy, evaluate}
use peer_stream.Upload.Choke.Slots.{IsFair, evaluate-IsFair}

abbrev one_slot : UploadConfig
one_slot = record {
  slots = 1;
  optimistic_unchoke = true;
  optimistic_interval = 30;
  snub_seconds = 60;
}

abbrev three_peers : List (String × PeerAccounting)
three_peers =
    (
      "a:1",
      record {
        key = "a:1";
        interested = true;
        choking_us = false;
        bytes_up = 5;
        bytes_down = 10;
        last_download_at = some 90;
      },
    )
    ∷ (
      "b:2",
      record {
        key = "b:2";
        interested = true;
        choking_us = true;
        bytes_up = 0;
        bytes_down = 0;
        last_download_at = none;
      },
    )
    ∷ (
      "c:3",
      record {
        key = "c:3";
        interested = false;
        choking_us = false;
        bytes_up = 0;
        bytes_down = 20;
        last_download_at = some 95;
      },
    )
    ∷ []

abbrev fresh_policy : ChokePolicy
fresh_policy = record { optimistic = none; since = none; rounds = [] }

evaluate-IsFair_example :
    IsFair one_slot three_peers (evaluate one_slot 100 three_peers fresh_policy).0
evaluate-IsFair_example = evaluate-IsFair one_slot 100 three_peers fresh_policy
