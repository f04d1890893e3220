-- ===== src/Download/Scheduler.antt =====
-- app/download/scheduler.py: which peer is asked for which block, and what becomes of a request.
-- The scheduler holds the pieces, so a call that changes a piece changes them here.
pub mod Planning
pub mod Recall
pub mod Accounting
pub mod Histories
pub mod Orphans
pub mod Lost
pub mod Late
use peer_stream.Prelude.{
  ℕ, zero, suc, ◌+◌, String, Bool, true, false, not, ◌&&◌, ◌||◌, Option, none, some, List, [], ◌∷◌,
  ◌++◌, map, length, filter, ltb, leb, min, ◌==◌, if◌then◌else◌, Result, ok, err, ◌>>=◌, ◌>>◌,
  key_error,
}
use peer_stream.Prelude.Int.{ℤ, pos}
use peer_stream.Prelude.Dicts.{get, put, remove}
use peer_stream.Peer.Bitfield.{Bitfield, empty_field}
use peer_stream.Peer.Bitfield
use peer_stream.Peer.Availability.{increase, decrease}
use peer_stream.Download.Piece.{
  Piece, PieceState, verifying, is_missing, finished, in_progress, missing_blocks, unclaimed_blocks,
  block_state, mark_requested, mark_orphaned,
}
use peer_stream.Download.Pipeline.{PeerView, PeerSlot, new_slot, pipeline, stamp}
use peer_stream.Download.Endgame.{BlockKey, same_key, EndgameTracker, make_tracker}
use peer_stream.Download.Selector.{PieceSelector, PieceStrategy}
use text.Mathlib.Text.{◌==◌ as ◌same_text◌}

abbrev pub same_name : String → String → Bool
same_name a b = a same_text b

abbrev pub same_index : ℕ → ℕ → Bool
same_index i j = i == j

pub record DownloadConfig : Type 0 where
  pub piece_strategy : PieceStrategy
  pub max_outstanding_requests : ℕ
  pub block_timeout : ℕ
  pub endgame_enabled : Bool
  pub endgame_threshold : ℕ
  pub endgame_delay : ℕ

pub record Scheduler : Type 0 where
  pub pieces : List (ℕ × Piece)
  pub config : DownloadConfig
  pub selector : PieceSelector
  pub endgame : EndgameTracker
  pub slots : List (String × PeerSlot)
  pub asked : List (String × List BlockKey)
  pub peers : List (String × PeerView)
  pub unclaimed : Option ℤ

-- `{piece.index: piece for piece in pieces}`
abbrev pub index_pieces : List Piece → List (ℕ × Piece) → List (ℕ × Piece)
index_pieces [] known = known
index_pieces (p ∷ ps) known = index_pieces ps (put same_index p.index p known)

unfoldable pub make_scheduler : List Piece → DownloadConfig → Scheduler
make_scheduler pieces config = record {
  pieces = index_pieces pieces [];
  config = config;
  selector = record { piece_count = length pieces; strategy = config.piece_strategy };
  endgame = make_tracker config.endgame_enabled config.endgame_threshold;
  slots = [];
  asked = [];
  peers = [];
  unclaimed = none;
}

abbrev pub or_new : String → Option PeerSlot → PeerSlot
or_new key none = new_slot key
or_new key (some slot) = slot

-- `slot(peer)`: the slot, and the scheduler in which it is.
abbrev pub slot_of : String → Scheduler → PeerSlot
slot_of key s = or_new key (get same_name key s.slots)

abbrev pub with_slot : String → PeerSlot → Scheduler → Scheduler
with_slot key slot s = record s { slots = put same_name key slot s.slots }

abbrev pub open_slot : String → Scheduler → Scheduler
open_slot key s = with_slot key (slot_of key s) s

-- `peer_for`
abbrev pub peer_for : String → Scheduler → Option PeerView
peer_for key s = get same_name key s.peers

abbrev pub size_of : Option PeerSlot → ℕ
size_of none = 0
size_of (some slot) = pipeline slot

abbrev pub in_flight_for : String → Scheduler → ℕ
in_flight_for key s = size_of (get same_name key s.slots)

unfoldable pub register : PeerView → Scheduler → Scheduler
register peer s = open_slot peer.key (record s { peers = put same_name peer.key peer s.peers })

unfoldable pub forget : String → Scheduler → Scheduler
forget key s = record s {
  peers = remove same_name key s.peers;
  slots = remove same_name key s.slots;
  asked = remove same_name key s.asked;
}

abbrev pub sum_missing : List (ℕ × Piece) → ℕ
sum_missing [] = 0
sum_missing (entry ∷ pieces) =
    (if in_progress entry.1 then missing_blocks entry.1 else 0) + sum_missing pieces

abbrev pub outstanding_blocks : Scheduler → ℕ
outstanding_blocks s = sum_missing s.pieces

abbrev pub sum_unclaimed : List (ℕ × Piece) → ℕ
sum_unclaimed [] = 0
sum_unclaimed (entry ∷ pieces) =
    (if finished entry.1 then 0 else unclaimed_blocks entry.1) + sum_unclaimed pieces

abbrev pub counted : Option ℤ → List (ℕ × Piece) → ℤ
counted none pieces = pos (sum_unclaimed pieces)
counted (some n) pieces = n

-- `unclaimed_blocks()`: the count, and the scheduler that remembers it.
abbrev pub unclaimed_count : Scheduler → ℤ
unclaimed_count s = counted s.unclaimed s.pieces

abbrev pub remember_unclaimed : Scheduler → Scheduler
remember_unclaimed s = record s { unclaimed = some (unclaimed_count s) }

abbrev pub has_key : BlockKey → List BlockKey → Bool
has_key key [] = false
has_key key (k ∷ keys) = same_key key k || has_key key keys

abbrev pub keys_or_empty : Option (List BlockKey) → List BlockKey
keys_or_empty none = []
keys_or_empty (some keys) = keys

abbrev pub asked_by : String → Scheduler → List BlockKey
asked_by peer s = keys_or_empty (get same_name peer s.asked)

abbrev pub add_key : BlockKey → List BlockKey → List BlockKey
add_key key keys = if has_key key keys then keys else key ∷ keys

unfoldable pub mark_asked : String → BlockKey → Scheduler → Scheduler
mark_asked peer key s = record s {
  asked = put same_name peer (add_key key (asked_by peer s)) s.asked;
}

unfoldable pub has_asked : String → BlockKey → Scheduler → Bool
has_asked peer key s = has_key key (asked_by peer s)

abbrev pub keep_asked : (BlockKey → Bool) → Scheduler → Scheduler
keep_asked test s = record s { asked = map (λ entry. (entry.0, filter test entry.1)) s.asked }

unfoldable pub forget_piece : ℕ → Scheduler → Scheduler
forget_piece index s = keep_asked (λ key. not (key.0 == index)) s

abbrev pub is_finished : Option Piece → Bool
is_finished none = false
is_finished (some p) = finished p

unfoldable pub prune_asked : Scheduler → Scheduler
prune_asked s = keep_asked (λ key. not (is_finished (get same_index key.0 s.pieces))) s

-- The least stamp of a request for the block.
abbrev pub earlier : Option ℕ → Option ℕ → Option ℕ
earlier none m = m
earlier (some n) none = some n
earlier (some n) (some m) = some (min n m)

abbrev pub first_stamp : BlockKey → List (String × PeerSlot) → Option ℕ
first_stamp key [] = none
first_stamp key (entry ∷ slots) = earlier (stamp key entry.1) (first_stamp key slots)

abbrev pub is_overdue : ℕ → ℕ → Option ℕ → Bool
is_overdue delay now none = true
is_overdue delay now (some at) = leb (at + delay) now

unfoldable pub stale : BlockKey → ℕ → Scheduler → Bool
stale key now s = is_overdue s.config.endgame_delay now (first_stamp key s.slots)

unfoldable pub note_piece_reset : ℕ → Scheduler → Scheduler
unfolding forget_piece
note_piece_reset index s = forget_piece index (record s { unclaimed = none })

abbrev pub piece_at : ℕ → Scheduler → Result Piece
piece_at index s = elim (get same_index index s.pieces) [ none ↦ err key_error | some p ↦ ok p ]

abbrev pub with_piece : ℕ → Piece → Scheduler → Scheduler
with_piece index p s = record s { pieces = put same_index index p s.pieces }

-- `self._unclaimed is not None and piece.block_state(offset) is BlockState.MISSING`
abbrev pub is_new_claim : Option ℤ → ℕ → Piece → Result Bool
is_new_claim none offset p = ok false
is_new_claim (some n) offset p = block_state offset p >>= λ state. ok (is_missing state)

abbrev pub adjust : (ℤ → ℤ) → Bool → Option ℤ → Option ℤ
adjust change true (some n) = some (change n)
adjust change true none = none
adjust change false count = count

unfoldable pub claim : ℕ → ℕ → String → Scheduler → Result Scheduler
claim index offset peer s = do
  p ← piece_at index s
  is_new ← is_new_claim s.unclaimed offset p
  marked ← mark_requested offset peer p
  ok (record (with_piece index marked s) { unclaimed = adjust decrease is_new s.unclaimed })

-- `_unclaim`, for a piece of the scheduler; a piece that is not there is passed over.
abbrev pub unclaim_of : Option Piece → ℕ → ℕ → String → Scheduler → Scheduler
unclaim_of none index offset peer s = s
unclaim_of (some p) index offset peer s =
    let (free, orphaned) = mark_orphaned offset peer p in
    record (with_piece index orphaned s) { unclaimed = adjust increase free s.unclaimed }

unfoldable pub unclaim : ℕ → ℕ → String → Scheduler → Scheduler
unclaim index offset peer s = unclaim_of (get same_index index s.pieces) index offset peer s

abbrev pub is_verifying : PieceState → Bool
is_verifying verifying = true
is_verifying _ = false

abbrev pub is_wanted : Piece → Bool
is_wanted p = not (finished p) && not (is_verifying p.state)

abbrev pub set_wanted : List (ℕ × Piece) → Bitfield → Result Bitfield
set_wanted [] field = ok field
set_wanted (entry ∷ pieces) field = do
  next ← (if is_wanted entry.1 then Bitfield.put field entry.0 true else ok field)
  set_wanted pieces next

unfoldable pub wanted : Scheduler → Result Bitfield
wanted s = set_wanted s.pieces (empty_field (length s.pieces))

-- `in_flight`
abbrev pub blocks_in_flight : List (String × PeerSlot) → List BlockKey
blocks_in_flight [] = []
blocks_in_flight (entry ∷ slots) = map (λ e. e.0) entry.1.outstanding ++ blocks_in_flight slots
