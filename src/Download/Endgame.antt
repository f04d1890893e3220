-- ===== src/Download/Endgame.antt =====
-- app/download/endgame.py: who is fetching which block, and when a block may be raced.
pub mod Fetching
pub mod Tables
pub mod Refinement
use peer_stream.Prelude.{
  ℕ, zero, suc, ◌+◌, ◌≡◌, String, Bool, true, false, not, ◌&&◌, ◌||◌, Option, none, some, List, [],
  ◌∷◌, length, leb, ◌==◌, if◌then◌else◌,
}
use peer_stream.Prelude.Int.{ℤ, pos, negsuc}
use peer_stream.Prelude.Dicts.{get, put, remove}
use peer_stream.Prelude.Sets.{contains, insert, discard}
use peer_stream.Prelude.Sorting.{sort_by}
use peer_stream.Download.Piece.{is_nil}
use Prim.Native.String.{compare}
use text.Mathlib.Text.{is_lt}

-- The index of a piece, and the offset of the block in it.
abbrev pub BlockKey : Type 0
BlockKey = ℕ × ℕ

abbrev pub same_key : BlockKey → BlockKey → Bool
same_key j k = (j.0 == k.0) && (j.1 == k.1)

pub record EndgameTracker : Type 0 where
  pub enabled : Bool
  pub threshold : ℕ
  pub fetching : List (BlockKey × List String)
  pub duplicates : ℕ

abbrev pub make_tracker : Bool → ℕ → EndgameTracker
make_tracker enabled threshold = record {
  enabled = enabled;
  threshold = threshold;
  fetching = [];
  duplicates = 0;
}

-- `in_flight`
abbrev pub tracked_blocks : EndgameTracker → ℕ
tracked_blocks t = length t.fetching

abbrev pub is_within : ℤ → ℕ → Bool
is_within (pos n) threshold = leb n threshold
is_within (negsuc n) threshold = true

unfoldable pub active : ℤ → EndgameTracker → Bool
active outstanding_blocks t = t.enabled && is_within outstanding_blocks t.threshold

-- `self._requesters.get(key, set())`
abbrev pub or_empty : Option (List String) → List String
or_empty none = []
or_empty (some peers) = peers

abbrev pub fetchers : BlockKey → EndgameTracker → List String
fetchers key t = or_empty (get same_key key t.fetching)

abbrev pub comes_first : String → String → Bool
comes_first p q = is_lt (compare p q)

unfoldable pub requesters : BlockKey → EndgameTracker → List String
requesters key t = sort_by comes_first (fetchers key t)

unfoldable pub allows : BlockKey → String → ℤ → EndgameTracker → Bool
unfolding active
allows key peer outstanding_blocks t =
    if contains peer (fetchers key t)
    then false
    else is_nil (fetchers key t) || active outstanding_blocks t

abbrev pub with_fetchers : List (BlockKey × List String) → EndgameTracker → EndgameTracker
with_fetchers fetching t = record t { fetching = fetching }

unfoldable pub note_request : BlockKey → String → EndgameTracker → EndgameTracker
note_request key peer t = record t {
  fetching = put same_key key (insert peer (fetchers key t)) t.fetching;
  duplicates =
      if not (is_nil (fetchers key t)) && not (contains peer (fetchers key t))
      then t.duplicates + 1
      else t.duplicates;
}

unfoldable pub note_received : BlockKey → String → EndgameTracker → List String × EndgameTracker
note_received key winner t = (
  sort_by comes_first (discard winner (fetchers key t)),
  with_fetchers (remove same_key key t.fetching) t,
)

-- `note_lost`, given what `self._requesters.get(key)` gave
abbrev pub lost : Option (List String) → BlockKey → String → EndgameTracker → Bool × EndgameTracker
lost none key peer t = (false, t)
lost (some peers) key peer t =
    if is_nil (discard peer peers)
    then (true, with_fetchers (remove same_key key t.fetching) t)
    else (false, with_fetchers (put same_key key (discard peer peers) t.fetching) t)

unfoldable pub note_lost : BlockKey → String → EndgameTracker → Bool × EndgameTracker
note_lost key peer t = lost (get same_key key t.fetching) key peer t

unfoldable pub forget : BlockKey → EndgameTracker → EndgameTracker
forget key t = with_fetchers (remove same_key key t.fetching) t

unfoldable pub clear : EndgameTracker → EndgameTracker
clear t = with_fetchers [] t
