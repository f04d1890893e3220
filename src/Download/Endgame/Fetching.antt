-- ===== src/Download/Endgame/Fetching.antt =====
-- What the tracker stands for: which peer is fetching which block.
use peer_stream.Prelude.{
  ℕ, ◌+◌, ◌≡◌, ◌≢◌, ◌↔◌, ap, String, Bool, true, false, not, ◌&&◌, ◌||◌, some, List, [], arith,
}
use peer_stream.Prelude.Dicts.{IsEquality, get}
use peer_stream.Prelude.Sets.{contains}
use peer_stream.Download.Endgame.{
  BlockKey, same_key, EndgameTracker, fetchers, note_request, note_received, note_lost, forget,
  clear,
}
use text.Mathlib.Text.{◌==◌ as ◌same_text◌}

pub same_key-IsEquality : IsEquality same_key
same_key-IsEquality (i, o) (j, p) = (
  λ h. ground arith,
  λ h. ground (arith, ap (λ (k : BlockKey). k.0) h, ap (λ (k : BlockKey). k.1) h),
)

-- A call of the tracker.
pub data Call : Type 0 where
  requests arrives gives_up : BlockKey → String → Call
  forgets : BlockKey → Call
  clears : Call

-- What a call gives back.
pub data Answer : Type 0 where
  nothing : Answer
  others : List String → Answer
  is_free : Bool → Answer

unfoldable pub step : Call → EndgameTracker → Answer × EndgameTracker
step (requests key peer) t = (nothing, note_request key peer t)
step (arrives key winner) t = let (rest, u) = note_received key winner t in (others rest, u)
step (gives_up key peer) t = let (free, u) = note_lost key peer t in (is_free free, u)
step (forgets key) t = (nothing, forget key t)
step clears t = (nothing, clear t)

-- Which peer is fetching which block, and how many requests joined a race.
pub record Races : Type 0 where
  pub fetches : BlockKey → String → Bool
  pub joined : ℕ

-- Nobody is fetching the block.
abbrev pub IsFree : (String → Bool) → Type 0
IsFree fetches = (q : String) → fetches q ≡ false

-- What a call is to do.
abbrev pub Becomes : Call → Races → Races → Type 0
Becomes (requests key peer) r s =
    ((k : BlockKey) (q : String)
      → s.fetches k q ≡ ((same_key k key && q same_text peer) || r.fetches k q))
    × (IsFree (r.fetches key) → s.joined ≡ r.joined)
    × (r.fetches key peer ≡ true → s.joined ≡ r.joined)
    × ((q : String) → r.fetches key q ≡ true → r.fetches key peer ≡ false → s.joined ≡ r.joined + 1)
Becomes (arrives key winner) r s =
    ((k : BlockKey) (q : String) → s.fetches k q ≡ (not (same_key k key) && r.fetches k q))
    × (s.joined ≡ r.joined)
Becomes (gives_up key peer) r s =
    ((k : BlockKey) (q : String)
      → s.fetches k q ≡ (not (same_key k key && q same_text peer) && r.fetches k q))
    × (s.joined ≡ r.joined)
Becomes (forgets key) r s =
    ((k : BlockKey) (q : String) → s.fetches k q ≡ (not (same_key k key) && r.fetches k q))
    × (s.joined ≡ r.joined)
Becomes clears r s = ((k : BlockKey) (q : String) → s.fetches k q ≡ false) × (s.joined ≡ r.joined)

-- What a call is to give back: the other peers that fetch the block, or whether the loss of the
-- peer leaves a block free that was not.
abbrev pub Answers : Call → Races → Answer → Type 0
Answers (requests key peer) r a = a ≡ nothing
Answers (arrives key winner) r a =
    (peers : List String) × (a ≡ others peers)
    × ((q : String) → contains q peers ≡ (r.fetches key q && not (q same_text winner)))
Answers (gives_up key peer) r a =
    (free : Bool) × (a ≡ is_free free)
    × ((free ≡ true)
        ↔ ((¬ IsFree (r.fetches key)) × ((q : String) → r.fetches key q ≡ true → q ≡ peer)))
Answers (forgets key) r a = a ≡ nothing
Answers clears r a = a ≡ nothing

-- No block is kept without a peer that fetches it.
abbrev pub IsTracker : EndgameTracker → Type 0
IsTracker t = (k : BlockKey) → get same_key k t.fetching ≢ some []

abbrev pub view : EndgameTracker → Races
view t = record { fetches = λ k q. contains q (fetchers k t); joined = t.duplicates }
