-- ===== src/Examples/Schedules.antt =====
-- A torrent of one piece with two blocks, and two peers.
use peer_stream.Prelude.{
  ℕ, suc, All, Bool-cases, ◌≡◌, ◌≢◌, ◌⊎◌, inl, inr, refl, String, true, false, none, some, List, [],
  ◌∷◌, replicate, Bytes, Result, ok, err, out_of_rounds, Ensures,
}
use peer_stream.Prelude.Dicts.{get}
use peer_stream.Prelude.Sets.{contains, insert}
use text.Mathlib.TextEquality.{eq_iff}
use peer_stream.Download.Selector.Members.{IsWanted, select-IsWanted}
use peer_stream.Download.Scheduler.Lost.{drop_peer-is_offered}
use peer_stream.Prelude.Int.{pos}
use peer_stream.Peer.Messages.{request, construct, validate_block}
use peer_stream.Peer.Availability.{candidates_from, rarest}
use peer_stream.Peer.Bitfield
use peer_stream.Download.Block.{BlockState, make_block, plan_from, plan_blocks}
use peer_stream.Download.Piece.{
  is_offered, Piece, PieceState, Slot, fresh_slot, find_slot, add_block, new_piece, make_piece,
  build_from, build_pieces, finished, unclaimed_blocks, in_progress, received_blocks,
  requestable_block, block_state, mark_requested,
}
use peer_stream.Download.Endgame.{
  same_key, fetchers, make_tracker, active, requesters, note_request,
}
use peer_stream.Download.Endgame.Fetching.{requests, arrives, gives_up, view}
use peer_stream.Download.Endgame.Refinement.{run, Behaves, no_races, run-Behaves}
use peer_stream.Download.Selector.{random, rarest_first, in_sequence, by_rarity, select}
use peer_stream.Download.Pipeline.{clear, PeerView, can_request, add}
use peer_stream.Download.Scheduler.{
  has_key, slot_of, in_flight_for, same_name, same_index, with_piece, DownloadConfig, Scheduler,
  make_scheduler, register, prune_asked, mark_asked, claim, stale, wanted, sum_unclaimed,
  unclaimed_count,
}
use peer_stream.Download.Scheduler.Accounting.{IsAccounted}
use peer_stream.Download.Scheduler.Recall.{note_orphaned, note_received, drop_peer}
use peer_stream.Download.Scheduler.Orphans.{IsWithheld, note_orphaned-IsWithheld}
use peer_stream.Download.Scheduler.Accounting.Initial.{make_scheduler-IsAccounted}
use peer_stream.Download.Scheduler.Planning.{
  Readings, Assignment, usable, candidates, offer, first_block, next_block, assign, round, fill,
  serve, serve_all, plan,
}
use peer_stream.Download.Scheduler.Planning.Pipelines.{Grown, plan-Grown}
use peer_stream.Download.Scheduler.Planning.Asked.{IsDue}
use peer_stream.Download.Scheduler.Planning.Requests.{plan-IsDue}
use peer_stream.Download.Scheduler.Histories.{Reach, here, next, plans, Reach-unclaimed_count}
use peer_stream.Download.Scheduler.Late.{late_block-unclaimed_count}

run-Behaves_example :
    Behaves
      (requests (0, 0) "a:1"
        ∷ requests (0, 0) "b:2"
        ∷ arrives (0, 0) "b:2"
        ∷ gives_up (0, 0) "a:1"
        ∷ [])
      no_races
      (run
        (requests (0, 0) "a:1"
          ∷ requests (0, 0) "b:2"
          ∷ arrives (0, 0) "b:2"
          ∷ gives_up (0, 0) "a:1"
          ∷ [])
        (make_tracker true 20)).0
      (view
        (run
          (requests (0, 0) "a:1"
            ∷ requests (0, 0) "b:2"
            ∷ arrives (0, 0) "b:2"
            ∷ gives_up (0, 0) "a:1"
            ∷ [])
          (make_tracker true 20)).1)
run-Behaves_example = run-Behaves true 20 (
    requests (0, 0) "a:1"
    ∷ requests (0, 0) "b:2"
    ∷ arrives (0, 0) "b:2"
    ∷ gives_up (0, 0) "a:1"
    ∷ [])

abbrev settings : DownloadConfig
settings = record {
  piece_strategy = rarest_first;
  max_outstanding_requests = 2;
  block_timeout = 30;
  endgame_enabled = true;
  endgame_threshold = 0;
  endgame_delay = 5;
}

abbrev piece_hash : Bytes
piece_hash = replicate 20 7

abbrev one_piece : List Piece
one_piece =
    new_piece 0 8 piece_hash 4
      (record { index = 0; offset = 0; size = 4 } ∷ record { index = 0; offset = 4; size = 4 } ∷ [])
    ∷ []

one_piece-built : build_pieces 4 (λ i. false) (8 ∷ []) (piece_hash ∷ []) ≡ ok one_piece
unfolding build_pieces build_from make_piece plan_blocks plan_from make_block
one_piece-built = refl

abbrev seed : PeerView
seed = record {
  key = "a:1";
  bitfield = some record { piece_count = 1; bits = 0x80 ∷ [] };
  choked = false;
  connected = true;
}

abbrev still : Readings
still = record { clock = λ n. 100; shuffle = λ n is. is }

abbrev idle : Scheduler
idle = make_scheduler one_piece settings

plan-Grown_example :
    Ensures
      (λ (assignments, after). Grown 2 idle after assignments)
      (λ e. e ≢ out_of_rounds)
      (plan still 100 (seed ∷ []) none none idle)
unfolding make_scheduler
plan-Grown_example = plan-Grown still 100 (seed ∷ []) none none idle

-- What the pass gives.
abbrev value_of : Result (List Assignment × Scheduler) → List Assignment × Scheduler
value_of (ok r) = r
value_of (err e) = ([], idle)

abbrev planned : List Assignment × Scheduler
planned = value_of (plan still 100 (seed ∷ []) none none idle)

two_requests :
    planned.0
    ≡ record { peer = seed; message = request 0 0 4 }
      ∷ record { peer = seed; message = request 0 4 4 }
      ∷ []
unfolding plan serve_all serve fill round next_block first_block offer candidates assign usable
    claim mark_asked prune_asked register make_scheduler stale wanted can_request add requesters
    note_request active select in_sequence by_rarity candidates_from rarest Bitfield.has
    Bitfield.put Bitfield.holds Bitfield.empty_field in_progress received_blocks requestable_block
    finished block_state mark_requested unclaimed_blocks construct validate_block insert
two_requests = refl

planned-ok : plan still 100 (seed ∷ []) none none idle ≡ ok planned
unfolding plan serve_all serve fill round next_block first_block offer candidates assign usable
    claim mark_asked prune_asked register make_scheduler stale wanted can_request add requesters
    note_request active select in_sequence by_rarity candidates_from rarest Bitfield.has
    Bitfield.put Bitfield.holds Bitfield.empty_field in_progress received_blocks requestable_block
    finished block_state mark_requested unclaimed_blocks construct validate_block insert
planned-ok = refl

idle-IsAccounted : IsAccounted idle
idle-IsAccounted =
    make_scheduler-IsAccounted 4 (λ i. false) (8 ∷ []) (piece_hash ∷ []) one_piece settings
      one_piece-built

plan-IsDue_example : All (IsDue idle) planned.0 × IsAccounted planned.1
plan-IsDue_example =
    plan-IsDue still 100 (seed ∷ []) none none idle planned.0 planned.1 idle-IsAccounted planned-ok

planned-Reach : Reach idle planned.1
planned-Reach = next here (plans still 100 (seed ∷ []) none none planned.0 planned-ok)

Reach-unclaimed_count_example : unclaimed_count planned.1 ≡ pos (sum_unclaimed planned.1.pieces)
Reach-unclaimed_count_example =
    Reach-unclaimed_count 4 (λ i. false) (8 ∷ []) (piece_hash ∷ []) one_piece settings planned.1
      one_piece-built planned-Reach

abbrev first_slot : Slot
first_slot = fresh_slot (record { index = 0; offset = 0; size = 4 })

abbrev the_piece : Piece
the_piece =
    new_piece 0 8 piece_hash 4
      (record { index = 0; offset = 0; size = 4 } ∷ record { index = 0; offset = 4; size = 4 } ∷ [])

only_seed : (q : String) → contains q ("a:1" ∷ []) ≡ true → q ≡ "a:1"
only_seed q h = elim (Bool-cases (same_name q "a:1")) [
  | inl e ↦ (eq_iff q "a:1").0 e
  | inr e ↦ cc (h, e)
]

-- After the pass the seed has both blocks to send.
abbrev sent_slot : ℕ → Slot
sent_slot offset = record (fresh_slot (record { index = 0; offset = offset; size = 4 })) {
  state = BlockState.requested;
  requesters = "a:1" ∷ [];
}

abbrev sent_piece : Piece
sent_piece = record the_piece {
  slots = sent_slot 0 ∷ sent_slot 4 ∷ [];
  state = PieceState.requested;
}

planned-sent :
    (planned.1.unclaimed ≡ some (pos 0))
    × (get same_key (0, 0) planned.1.endgame.fetching ≡ some ("a:1" ∷ []))
    × (get same_index 0 planned.1.pieces ≡ some sent_piece)
    × (finished sent_piece ≡ false)
unfolding plan serve_all serve fill round next_block first_block offer candidates assign usable
    claim mark_asked prune_asked register make_scheduler stale wanted can_request add requesters
    note_request active select in_sequence by_rarity candidates_from rarest Bitfield.has
    Bitfield.put Bitfield.holds Bitfield.empty_field in_progress received_blocks requestable_block
    finished block_state mark_requested unclaimed_blocks construct validate_block insert
planned-sent = (refl, refl, refl, refl)

planned-IsAccounted : IsAccounted planned.1
planned-IsAccounted =
    (plan-IsDue still 100 (seed ∷ []) none none idle planned.0 planned.1 idle-IsAccounted
      planned-ok).1

late_block-unclaimed_count_example :
    let given_up = (note_orphaned "a:1" (0, 0) planned.1).1 in
    (unclaimed_count given_up ≡ pos (sum_unclaimed given_up.pieces))
    × (q : Piece) × (get same_index 0 given_up.pieces ≡ some q)
    × ((add_block 0 (1 ∷ 2 ∷ 3 ∷ 4 ∷ []) (some "a:1") q).0 ≡ true)
    × (let after =
          (note_received "a:1"
            (0, 0)
            (with_piece 0 (add_block 0 (1 ∷ 2 ∷ 3 ∷ 4 ∷ []) (some "a:1") q).1 given_up)).1 in
        unclaimed_count after ≡ pos (suc (sum_unclaimed after.pieces)))
late_block-unclaimed_count_example =
    late_block-unclaimed_count planned.1 (0, 0) "a:1" ("a:1" ∷ []) sent_piece (sent_slot 0)
      (1 ∷ 2 ∷ 3 ∷ 4 ∷ []) (pos 0) planned-IsAccounted planned-sent.0 planned-sent.1 only_seed
      planned-sent.2 planned-sent.3 refl refl only_seed refl

-- Two peers race for the first block.
abbrev raced_slot : Slot
raced_slot = record first_slot { state = BlockState.requested; requesters = "b:2" ∷ "a:1" ∷ [] }

abbrev raced_piece : Piece
raced_piece = record the_piece { slots = raced_slot ∷ [] }

abbrev raced : Scheduler
raced = record idle {
  pieces = (0, raced_piece) ∷ [];
  endgame = record (make_tracker true 20) { fetching = ((0, 0), "b:2" ∷ "a:1" ∷ []) ∷ [] };
}

two_racers : (q : String) → contains q ("b:2" ∷ "a:1" ∷ []) ≡ true → (q ≡ "a:1") ⊎ (q ≡ "b:2")
two_racers q h = elim (Bool-cases (same_name q "b:2")) [
  | inl e ↦ inr ((eq_iff q "b:2").0 e)
  | inr e ↦ elim (Bool-cases (same_name q "a:1")) [
    | inl f ↦ inl ((eq_iff q "a:1").0 f)
    | inr f ↦ cc (h, e, f)
  ]
]

a_ne_b : ◌≢◌ {A = String} "a:1" "b:2"
a_ne_b h = cc ((eq_iff "a:1" "b:2").1 h)

note_orphaned-IsWithheld_example :
    let after = (note_orphaned "b:2" (0, 0) (note_orphaned "a:1" (0, 0) raced).1).1 in
    (fetchers (0, 0) after.endgame ≡ [])
    × (q : Piece) × (get same_index 0 after.pieces ≡ some q)
    × (left : Slot) × (find_slot 0 q.slots ≡ some left)
    × IsWithheld "a:1" left
note_orphaned-IsWithheld_example =
    note_orphaned-IsWithheld raced (0, 0) "a:1" "b:2" ("b:2" ∷ "a:1" ∷ []) raced_piece raced_slot
      a_ne_b refl refl two_racers refl refl refl refl

-- The seed alone was asked for the first block.
abbrev owed_slot : Slot
owed_slot = record first_slot { state = BlockState.requested; requesters = "a:1" ∷ [] }

abbrev owed_piece : Piece
owed_piece = record the_piece { slots = owed_slot ∷ [] }

abbrev owing : Scheduler
owing = record idle {
  pieces = (0, owed_piece) ∷ [];
  slots = ("a:1", record { key = "a:1"; outstanding = ((0, 0), 100) ∷ [] }) ∷ [];
}

owing-clear : has_key (0, 0) (clear (slot_of "a:1" owing)).0 ≡ true
unfolding clear
owing-clear = refl

drop_peer-is_offered_example :
    let after = (drop_peer "a:1" owing).1 in
    (in_flight_for "a:1" after ≡ 0)
    × (q : Piece) × (get same_index 0 after.pieces ≡ some q)
    × (left : Slot) × (find_slot 0 q.slots ≡ some left)
    × ((other : String) → is_offered other false left ≡ true)
drop_peer-is_offered_example =
    drop_peer-is_offered owing "a:1" (0, 0) owed_piece owed_slot owing-clear refl refl refl
      only_seed

select-IsWanted_example :
    IsWanted
      (record { piece_count = 1; bits = 0x80 ∷ [] })
      (select
        (λ is. is)
        (record { piece_count = 1; bits = 0x80 ∷ [] })
        none
        none
        (record { piece_count = 1; strategy = random }))
select-IsWanted_example =
    select-IsWanted (λ is. is) (record { piece_count = 1; bits = 0x80 ∷ [] }) none
      (record { piece_count = 1; strategy = random }) (λ is i. refl) tt refl
