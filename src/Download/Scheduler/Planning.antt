-- ===== src/Download/Scheduler/Planning.antt =====
-- `plan` of app/download/scheduler.py. Each search for a block reads the clock and may shuffle; what
-- it gets is a function of the number of searches before it.
pub mod Regular
pub mod Offers
pub mod Asked
pub mod Due
pub mod Requests
pub mod Rounds
pub mod Pipelines
use peer_stream.Prelude.{
  ℕ, zero, suc, ◌+◌, Bool, true, false, not, ◌&&◌, ◌||◌, Option, none, some, List, [], ◌∷◌, ◌++◌,
  map, filter, ltb, ◌==◌, if◌then◌else◌, Error, Result, ok, err, ◌>>=◌, ◌>>◌, out_of_rounds,
}
use peer_stream.Prelude.Int.{ℤ}
use peer_stream.Prelude.Dicts.{get}
use peer_stream.Prelude.Sorting.{sort_by}
use peer_stream.Peer.Bitfield.{Bitfield}
use peer_stream.Peer.Bitfield
use peer_stream.Peer.Availability.{PieceAvailability}
use peer_stream.Peer.Messages.{Message, request, construct}
use peer_stream.Download.Block.{Block}
use peer_stream.Download.Piece.{
  Piece, PieceState, missing, is_nil, in_progress, received_blocks, requestable_block,
}
use peer_stream.Download.Endgame.{BlockKey, active, requesters, note_request}
use peer_stream.Download.Selector.{select}
use peer_stream.Download.Pipeline.{PeerView, PeerSlot, pipeline, can_request, add, is_some}
use peer_stream.Download.Scheduler.{
  Scheduler, same_index, slot_of, with_slot, open_slot, register, unclaimed_count,
  remember_unclaimed, mark_asked, prune_asked, stale, claim, wanted,
}

-- What the searches read: the clock, and the shuffles of the random generator.
pub record Readings : Type 0 where
  pub clock : ℕ → ℕ
  pub shuffle : ℕ → List ℕ → List ℕ

pub record Assignment : Type 0 where
  pub peer : PeerView
  pub message : Message

-- The scheduler in the middle of a pass, the assignments so far, and the searches so far.
pub record Pass : Type 0 where
  pub scheduler : Scheduler
  pub assignments : List Assignment
  pub searches : ℕ

unfoldable pub usable : PeerView → Bool
usable peer = peer.connected && (not peer.choked && is_some peer.bitfield)

abbrev pub is_missing_piece : PieceState → Bool
is_missing_piece missing = true
is_missing_piece _ = false

abbrev pub is_started : Piece → Bool
is_started p = in_progress p || (is_missing_piece p.state && ltb 0 (received_blocks p))

-- `(-received_blocks, index)`
abbrev pub is_fuller : Piece → Piece → Bool
is_fuller p q =
    ltb (received_blocks q) (received_blocks p)
    || ((received_blocks p == received_blocks q) && ltb p.index q.index)

abbrev pub pieces_of : Scheduler → List Piece
pieces_of s = map (λ entry. entry.1) s.pieces

abbrev pub fresh_of : Option Piece → List Piece
fresh_of none = []
fresh_of (some p) = if in_progress p then [] else p ∷ []

abbrev pub fresh_pieces : List ℕ → Scheduler → List Piece
fresh_pieces [] s = []
fresh_pieces (index ∷ indices) s =
    fresh_of (get same_index index s.pieces) ++ fresh_pieces indices s

unfoldable pub candidates :
    (List ℕ → List ℕ) → Option PieceAvailability → Scheduler → Result (List Piece)
candidates shuffle availability s = do
  field ← wanted s
  indices ← select shuffle field availability none s.selector
  ok (sort_by is_fuller (filter is_started (pieces_of s)) ++ fresh_pieces indices s)

-- `bitfield is not None and not bitfield.has(index)`, negated
abbrev pub may_hold : Option Bitfield → ℕ → Result Bool
may_hold none index = ok true
may_hold (some field) index = Bitfield.has field index

abbrev pub key_of : Block → BlockKey
key_of block = (block.index, block.offset)

-- Somebody fetches the block and has barely had time to answer.
abbrev pub is_too_early : ℕ → Scheduler → Block → Bool
is_too_early now s block =
    not (is_nil (requesters (key_of block) s.endgame)) && not (stale (key_of block) now s)

-- What a candidate has for the peer.
unfoldable pub offer : ℕ → PeerView → Bool → Scheduler → Piece → Result (Option Block)
offer now peer racing s p = do
  held ← may_hold peer.bitfield p.index
  ok (
      if held
      then elim (requestable_block peer.key racing p) [
        | none ↦ none
        | some block ↦ if is_too_early now s block then none else some block
      ]
      else none)

-- The loop of `_next_block`
unfoldable pub first_block : ℕ → PeerView → Bool → Scheduler → List Piece → Result (Option Block)
first_block now peer racing s [] = ok none
first_block now peer racing s (p ∷ ps) = offer now peer racing s p >>= λ found. elim found [
  | none ↦ first_block now peer racing s ps
  | some block ↦ ok (some block)
]

unfoldable pub next_block :
    ℕ
    → (List ℕ → List ℕ)
    → PeerView
    → Option PieceAvailability
    → ℤ
    → Scheduler
    → Result (Option Block)
next_block now shuffle peer availability outstanding s = do
  ps ← candidates shuffle availability s
  first_block now peer (active outstanding s.endgame) s ps

-- What follows the test that the block is not pending.
unfoldable pub assign : PeerView → Block → Pass → Result Pass
assign peer block pass = do
  claimed ← claim block.index block.offset peer.key pass.scheduler
  message ← construct (request block.index block.offset block.size)
  ok (record pass {
    scheduler =
        mark_asked peer.key (key_of block)
          (record claimed { endgame = note_request (key_of block) peer.key claimed.endgame });
    assignments = pass.assignments ++ record { peer = peer; message = message } ∷ [];
  })

-- The rest of a round, given what was found: whether the loop goes on, and the pass.
abbrev pub take_block : ℕ → PeerView → Option Block → Pass → Result (Bool × Pass)
take_block now peer none pass = ok (false, pass)
take_block now peer (some block) pass =
    let (added, slot) = add (key_of block) now (slot_of peer.key pass.scheduler) in
    let after : Pass = record pass { scheduler = with_slot peer.key slot pass.scheduler } in
    if added then (assign peer block after >>= λ done. ok (true, done)) else ok (false, after)

-- A round of `while slot.can_request(capacity)`
unfoldable pub round :
    Readings → ℕ → Option PieceAvailability → PeerView → Pass → Result (Bool × Pass)
round readings now availability peer pass =
    let s = remember_unclaimed pass.scheduler in
    next_block (readings.clock pass.searches) (readings.shuffle pass.searches) peer availability
      (unclaimed_count pass.scheduler) s
    >>= λ found.
        take_block now peer found (record pass { scheduler = s; searches = pass.searches + 1 })

unfoldable pub fill :
    ℕ → Readings → ℕ → Option PieceAvailability → ℕ → PeerView → Pass → Result Pass
fill zero readings now availability capacity peer pass = err out_of_rounds
fill (suc rounds) readings now availability capacity peer pass =
    elim (can_request capacity (slot_of peer.key pass.scheduler)) [
      | false ↦ ok pass
      | true ↦ round readings now availability peer pass >>= λ (more, next). elim more [
        | false ↦ ok next
        | true ↦ fill rounds readings now availability capacity peer next
      ]
    ]

-- A round adds a request, so the capacity bounds the rounds.
unfoldable pub serve : Readings → ℕ → Option PieceAvailability → ℕ → PeerView → Pass → Result Pass
serve readings now availability capacity peer pass =
    if usable peer
    then fill (suc capacity) readings now availability capacity peer
        (record pass { scheduler = register peer pass.scheduler })
    else ok pass

unfoldable pub serve_all :
    Readings → ℕ → Option PieceAvailability → ℕ → List PeerView → Pass → Result Pass
serve_all readings now availability capacity [] pass = ok pass
serve_all readings now availability capacity (peer ∷ peers) pass =
    serve readings now availability capacity peer pass >>= λ next.
    serve_all readings now availability capacity peers next

abbrev pub open_slots : List PeerView → Scheduler → Scheduler
open_slots [] s = s
open_slots (peer ∷ peers) s = open_slots peers (open_slot peer.key s)

abbrev pub is_emptier : Scheduler → PeerView → PeerView → Bool
is_emptier s p q = ltb (pipeline (slot_of p.key s)) (pipeline (slot_of q.key s))

abbrev pub or_default : Option ℕ → ℕ → ℕ
or_default none capacity = capacity
or_default (some limit) capacity = limit

unfoldable pub plan :
    Readings
    → ℕ
    → List PeerView
    → Option PieceAvailability
    → Option ℕ
    → Scheduler
    → Result (List Assignment × Scheduler)
plan readings now peers availability limit s =
    let opened = open_slots peers (prune_asked s) in
    serve_all readings now availability (or_default limit s.config.max_outstanding_requests)
      (sort_by (is_emptier opened) peers)
      (record { scheduler = opened; assignments = []; searches = 0 })
    >>= λ pass. ok (pass.assignments, pass.scheduler)
