-- ===== src/Download/Piece.antt =====
-- app/download/piece.py: one piece being downloaded. The dictionaries `_states` and `_requesters`
-- have a key for each block from `__post_init__` on, so a block, its state and its requesters stand
-- together in a slot. The fraction `progress` and the views for display are not modelled.
mod Buffer
pub mod Slots
pub mod Assembly
pub mod Arrival
pub mod Kept
pub mod Histories
use peer_stream.Prelude.{
  ℕ, zero, suc, ◌+◌, ◌-◌, String, Bool, true, false, not, ◌&&◌, ◌||◌, Option, none, some, List, [],
  ◌∷◌, ◌++◌, map, length, take, drop, replicate, filter, ltb, ◌==◌, if◌then◌else◌, Bytes, Result,
  ok, err, ◌>>=◌, ◌>>◌, guard, value_error, key_error,
}
use peer_stream.Prelude.Sets.{contains, insert, discard}
use peer_stream.Peer.Handshake.{info_hash_size}
use peer_stream.Download.Block.{Block, BlockState, received, plan_blocks}

pub data PieceState : Type 0 where
  missing requested downloading downloaded verifying verified failed : PieceState

pub record Slot : Type 0 where
  pub block : Block
  pub state : BlockState
  pub requesters : List String

pub record Piece : Type 0 where
  pub index : ℕ
  pub size : ℕ
  pub expected_hash : Bytes
  pub block_size : ℕ
  pub state : PieceState
  pub failures : ℕ
  pub sources : List String
  pub slots : List Slot
  pub buffer : Option Bytes

abbrev pub fresh_slot : Block → Slot
fresh_slot block = record { block = block; state = BlockState.missing; requesters = [] }

abbrev pub new_piece : ℕ → ℕ → Bytes → ℕ → List Block → Piece
new_piece index size expected_hash block_size blocks = record {
  index = index;
  size = size;
  expected_hash = expected_hash;
  block_size = block_size;
  state = missing;
  failures = 0;
  sources = [];
  slots = map fresh_slot blocks;
  buffer = none;
}

-- `Piece(...)` with `__post_init__`
unfoldable pub make_piece : ℕ → ℕ → Bytes → ℕ → Result Piece
make_piece index size expected_hash block_size = do
  guard (length expected_hash == info_hash_size) value_error
  blocks ← plan_blocks index size block_size
  ok (new_piece index size expected_hash block_size blocks)

abbrev pub is_received : BlockState → Bool
is_received received = true
is_received _ = false

abbrev pub is_requested : BlockState → Bool
is_requested BlockState.requested = true
is_requested _ = false

abbrev pub is_missing : BlockState → Bool
is_missing BlockState.missing = true
is_missing _ = false

abbrev pub is_nil : List String → Bool
is_nil [] = true
is_nil (x ∷ xs) = false

unfoldable pub block_count : Piece → ℕ
block_count p = length p.slots

unfoldable pub received_blocks : Piece → ℕ
received_blocks p = length (filter (λ s. is_received s.state) p.slots)

unfoldable pub unclaimed_blocks : Piece → ℕ
unclaimed_blocks p = length (filter (λ s. is_missing s.state) p.slots)

unfoldable pub requested_blocks : Piece → ℕ
requested_blocks p = length (filter (λ s. not (is_nil s.requesters)) p.slots)

unfoldable pub missing_blocks : Piece → ℕ
unfolding block_count received_blocks
missing_blocks p = block_count p - received_blocks p

abbrev pub sum_received : List Slot → ℕ
sum_received [] = 0
sum_received (s ∷ slots) = (if is_received s.state then s.block.size else 0) + sum_received slots

unfoldable pub received_bytes : Piece → ℕ
received_bytes p = sum_received p.slots

abbrev pub all_received : List Slot → Bool
all_received [] = true
all_received (s ∷ slots) = is_received s.state && all_received slots

unfoldable pub complete : Piece → Bool
complete p = all_received p.slots

abbrev pub is_in_progress : PieceState → Bool
is_in_progress requested = true
is_in_progress downloading = true
is_in_progress downloaded = true
is_in_progress verifying = true
is_in_progress _ = false

unfoldable pub in_progress : Piece → Bool
in_progress p = is_in_progress p.state

abbrev pub is_verified : PieceState → Bool
is_verified verified = true
is_verified _ = false

unfoldable pub finished : Piece → Bool
finished p = is_verified p.state

-- `state in {VERIFIED, VERIFYING, DOWNLOADED}`
abbrev pub needs_no_block : PieceState → Bool
needs_no_block verified = true
needs_no_block verifying = true
needs_no_block downloaded = true
needs_no_block _ = false

-- The `continue` tests of the loop of `requestable_block`, negated.
abbrev pub is_offered : String → Bool → Slot → Bool
is_offered peer allow_duplicates s =
    not (is_received s.state)
    && (not (contains peer s.requesters) && (is_nil s.requesters || allow_duplicates))

abbrev pub first_offered : String → Bool → List Slot → Option Block
first_offered peer allow_duplicates [] = none
first_offered peer allow_duplicates (s ∷ slots) =
    if is_offered peer allow_duplicates s
    then some s.block
    else first_offered peer allow_duplicates slots

unfoldable pub requestable_block : String → Bool → Piece → Option Block
requestable_block peer allow_duplicates p =
    if needs_no_block p.state then none else first_offered peer allow_duplicates p.slots

abbrev pub asked_of : Option String → Slot → Bool
asked_of none s = true
asked_of (some peer) s = contains peer s.requesters

unfoldable pub outstanding_requests : Option String → Piece → List Block
outstanding_requests peer p =
    map (λ s. s.block) (filter (λ s. is_requested s.state && asked_of peer s) p.slots)

-- `dict.get(offset)`
abbrev pub find_slot : ℕ → List Slot → Option Slot
find_slot offset [] = none
find_slot offset (s ∷ slots) = if s.block.offset == offset then some s else find_slot offset slots

-- `dict[offset] = ...`, for a key that is there
abbrev pub change_slot : ℕ → (Slot → Slot) → List Slot → List Slot
change_slot offset change [] = []
change_slot offset change (s ∷ slots) =
    let rest = change_slot offset change slots in
    if s.block.offset == offset then change s ∷ slots else s ∷ rest

unfoldable pub block_state : ℕ → Piece → Result BlockState
block_state offset p = elim (find_slot offset p.slots) [
  | none ↦ err value_error
  | some s ↦ ok s.state
]

abbrev pub request_slot : String → Slot → Slot
request_slot peer s = record s {
  requesters = insert peer s.requesters;
  state = if is_missing s.state then BlockState.requested else s.state;
}

abbrev pub after_request : PieceState → PieceState
after_request missing = requested
after_request state = state

-- The rest of `mark_requested`, given what `self._requesters[offset]` gave.
abbrev pub asked_for : Option Slot → ℕ → String → Piece → Result Piece
asked_for none offset peer p = err key_error
asked_for (some s) offset peer p = ok (record p {
  slots = change_slot offset (request_slot peer) p.slots;
  state = after_request p.state;
})

unfoldable pub mark_requested : ℕ → String → Piece → Result Piece
mark_requested offset peer p = asked_for (find_slot offset p.slots) offset peer p

-- Whether the last request for a block that has not arrived is gone.
abbrev pub is_orphan : List String → BlockState → Bool
is_orphan requesters state = is_nil requesters && is_requested state

abbrev pub orphan_slot : String → Slot → Slot
orphan_slot peer s = record s {
  requesters = discard peer s.requesters;
  state = if is_orphan (discard peer s.requesters) s.state then BlockState.missing else s.state;
}

-- The rest of `mark_orphaned`, given what `self._requesters.get(offset)` gave.
abbrev pub orphaned : Option Slot → ℕ → String → Piece → Bool × Piece
orphaned none offset peer p = (false, p)
orphaned (some s) offset peer p = (
  is_orphan (discard peer s.requesters) s.state,
  record p { slots = change_slot offset (orphan_slot peer) p.slots },
)

unfoldable pub mark_orphaned : ℕ → String → Piece → Bool × Piece
mark_orphaned offset peer p = orphaned (find_slot offset p.slots) offset peer p

-- `buffer[offset : offset + len(block)] = block`
abbrev pub splice : ℕ → Bytes → Bytes → Bytes
splice offset block buffer = take offset buffer ++ (block ++ drop (offset + length block) buffer)

abbrev pub receive_slot : Slot → Slot
receive_slot s = record s { state = received; requesters = [] }

-- `if source is not None and source not in self.sources`
abbrev pub note_source : Option String → List String → List String
note_source none sources = sources
note_source (some source) sources =
    if contains source sources then sources else sources ++ source ∷ []

-- `bytearray(self.size)`, where there is no buffer yet
abbrev pub buffer_or_new : ℕ → Option Bytes → Bytes
buffer_or_new size none = replicate size 0
buffer_or_new size (some buffer) = buffer

abbrev pub after_block : Bool → PieceState → PieceState
after_block true state = downloaded
after_block false missing = downloading
after_block false requested = downloading
after_block false state = state

abbrev pub store_block : ℕ → Bytes → Option String → Piece → Piece
store_block offset block source p =
    let slots = change_slot offset receive_slot p.slots in
    record p {
      slots = slots;
      buffer = some (splice offset block (buffer_or_new p.size p.buffer));
      sources = note_source source p.sources;
      state = after_block (all_received slots) p.state;
    }

-- Whether `add_block` takes the bytes for the block that starts at their offset.
abbrev pub is_accepted : Option Slot → Bytes → Bool
is_accepted none block = false
is_accepted (some s) block = length block == s.block.size && not (is_received s.state)

unfoldable pub add_block : ℕ → Bytes → Option String → Piece → Bool × Piece
add_block offset block source p =
    if is_accepted (find_slot offset p.slots) block
    then (true, store_block offset block source p)
    else (false, p)

-- `data`
unfoldable pub assembled : Piece → Option Bytes
assembled p = if all_received p.slots then p.buffer else none

unfoldable pub release : Piece → Piece
release p = record p { buffer = none }

unfoldable pub mark_verifying : Piece → Piece
mark_verifying p = record p { state = verifying }

unfoldable pub mark_verified : Piece → Piece
mark_verified p = record p { state = verified; buffer = none }

abbrev pub clear_slot : Slot → Slot
clear_slot s = record s { state = BlockState.missing; requesters = [] }

unfoldable pub clear : Piece → Piece
clear p = record p { buffer = none; slots = map clear_slot p.slots }

unfoldable pub mark_failed : Piece → Piece
unfolding clear
mark_failed p = record (clear p) { failures = p.failures + 1; state = failed }

unfoldable pub reset : Piece → Piece
unfolding clear
reset p = record (clear p) { state = missing }

-- `build_pieces`, from piece `index` on; `zip(strict=True)` raises `ValueError`
unfoldable pub build_from : ℕ → ℕ → (ℕ → Bool) → List ℕ → List Bytes → Result (List Piece)
unfolding make_piece mark_verified
build_from index block_size is_done [] [] = ok []
build_from index block_size is_done (size ∷ sizes) (piece_hash ∷ hashes) = do
  p ← make_piece index size piece_hash block_size
  rest ← build_from (index + 1) block_size is_done sizes hashes
  ok ((if is_done index then mark_verified p else p) ∷ rest)
build_from index block_size is_done _ _ = err value_error

unfoldable pub build_pieces : ℕ → (ℕ → Bool) → List ℕ → List Bytes → Result (List Piece)
unfolding build_from
build_pieces = build_from 0
