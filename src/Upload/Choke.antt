-- ===== src/Upload/Choke.antt =====
-- app/upload/choke.py. A time is a number of ticks, and so are the spans of the settings.
pub mod Interested
pub mod Slots
use peer_stream.Prelude.{
  ℕ, zero, suc, ◌+◌, String, Bool, true, false, not, ◌&&◌, ◌||◌, Option, none, some, List, [], ◌∷◌,
  ◌++◌, map, length, take, filter, ltb, leb, ◌==◌, if◌then◌else◌,
}
use peer_stream.Prelude.Sorting.{sort_by}
use peer_stream.Prelude.Sets.{contains}
use Prim.Native.String.{compare}
use text.Mathlib.Text.{is_lt, ◌==◌ as ◌same_text◌}

pub record UploadConfig : Type 0 where
  pub slots : ℕ
  pub optimistic_unchoke : Bool
  pub optimistic_interval : ℕ
  pub snub_seconds : ℕ

pub record PeerAccounting : Type 0 where
  pub key : String
  pub interested : Bool
  pub choking_us : Bool
  pub bytes_up : ℕ
  pub bytes_down : ℕ
  pub last_download_at : Option ℕ

abbrev pub is_past : ℕ → ℕ → Option ℕ → Bool
is_past now span none = true
is_past now span (some at) = leb (at + span) now

abbrev pub snubbed : ℕ → ℕ → PeerAccounting → Bool
snubbed now snub_seconds p = p.choking_us && is_past now snub_seconds p.last_download_at

pub record ChokeDecision : Type 0 where
  pub unchoked : List String
  pub optimistic : Option String

abbrev pub with_optimistic : List String → Option String → List String
with_optimistic unchoked none = unchoked
with_optimistic unchoked (some k) = if contains k unchoked then unchoked else unchoked ++ (k ∷ [])

abbrev pub allowed : ChokeDecision → List String
allowed d = with_optimistic d.unchoked d.optimistic

abbrev pub is_unchoked : String → ChokeDecision → Bool
is_unchoked k d = contains k (allowed d)

-- The mutable part of `ChokePolicy`; `_rounds` is a list of its pairs.
pub record ChokePolicy : Type 0 where
  pub optimistic : Option String
  pub since : Option ℕ
  pub rounds : List (String × ℕ)

abbrev pub rounds_of : String → List (String × ℕ) → ℕ
rounds_of k [] = 0
rounds_of k ((j, n) ∷ rounds) = if k same_text j then n else rounds_of k rounds

abbrev pub put_rounds : String → ℕ → List (String × ℕ) → List (String × ℕ)
put_rounds k n [] = (k, n) ∷ []
put_rounds k n ((j, m) ∷ rounds) =
    let rest = put_rounds k n rounds in if k same_text j then (j, n) ∷ rounds else (j, m) ∷ rest

abbrev pub is_holder : String → Option String → Bool
is_holder k none = false
is_holder k (some j) = k same_text j

unfoldable pub forget : String → ChokePolicy → ChokePolicy
forget k policy = record {
  optimistic = if is_holder k policy.optimistic then none else policy.optimistic;
  since = if is_holder k policy.optimistic then none else policy.since;
  rounds = filter (λ r. not (k same_text r.0)) policy.rounds;
}

-- Tuples compare by their first difference.
abbrev pub first_of : Bool → Bool → Bool → Bool
first_of less same rest = less || (same && rest)

-- `_rank`
abbrev pub ranks_before : ℕ → ℕ → PeerAccounting → PeerAccounting → Bool
ranks_before now snub_seconds p q =
    let bad = snubbed now snub_seconds p in
    let worse = snubbed now snub_seconds q in
    first_of (not bad && worse) ((bad && worse) || (not bad && not worse)) (
      first_of (ltb q.bytes_down p.bytes_down) (q.bytes_down == p.bytes_down) (
        first_of (ltb p.bytes_up q.bytes_up) (p.bytes_up == q.bytes_up)
          (is_lt (compare p.key q.key))))

-- The order of `_rotate`
abbrev pub turns_before : List (String × ℕ) → PeerAccounting → PeerAccounting → Bool
turns_before rounds p q =
    first_of (ltb (rounds_of p.key rounds) (rounds_of q.key rounds))
      (rounds_of p.key rounds == rounds_of q.key rounds)
      (first_of (ltb p.bytes_up q.bytes_up) (p.bytes_up == q.bytes_up)
        (is_lt (compare p.key q.key)))

abbrev pub keys_of : List PeerAccounting → List String
keys_of ps = map (λ p. p.key) ps

-- Without wanted peers or slots the list is empty all the same.
unfoldable pub regular_slots : UploadConfig → ℕ → List PeerAccounting → List String
regular_slots config now wanted =
    keys_of (take config.slots (sort_by (ranks_before now config.snub_seconds) wanted))

abbrev pub no_holder : ChokePolicy → Option String × ChokePolicy
no_holder policy = (none, record policy { optimistic = none; since = none })

abbrev pub first_or : PeerAccounting → List PeerAccounting → PeerAccounting
first_or p [] = p
first_or p (q ∷ qs) = q

-- The candidates are a first one and the others.
abbrev pub rotate : ℕ → PeerAccounting → List PeerAccounting → ChokePolicy → ChokePolicy
rotate now p ps policy =
    let chosen = first_or p (sort_by (turns_before policy.rounds) (p ∷ ps)) in
    record {
      optimistic = some chosen.key;
      since = some now;
      rounds = put_rounds chosen.key (suc (rounds_of chosen.key policy.rounds)) policy.rounds;
    }

abbrev pub holds_slot : Option String → List PeerAccounting → Bool
holds_slot none candidates = false
holds_slot (some k) candidates = contains k (keys_of candidates)

-- The end of `_optimistic_slot`
abbrev pub keep_rounds : ChokePolicy → Option String → Option String × ChokePolicy
keep_rounds policy none = (none, policy)
keep_rounds policy (some k) =
    (some k, record policy { rounds = put_rounds k (rounds_of k policy.rounds) policy.rounds })

abbrev pub turn : UploadConfig → ℕ → List PeerAccounting → ChokePolicy → Option String × ChokePolicy
turn config now [] policy = no_holder policy
turn config now (p ∷ ps) policy =
    let after =
      if not (holds_slot policy.optimistic (p ∷ ps))
        || is_past now config.optimistic_interval policy.since
      then rotate now p ps policy
      else policy in
    keep_rounds after after.optimistic

unfoldable pub optimistic_slot :
    UploadConfig → ℕ → List PeerAccounting → List String → ChokePolicy → Option String × ChokePolicy
optimistic_slot config now wanted regular policy =
    if not config.optimistic_unchoke || (config.slots == 0)
    then no_holder policy
    else turn config now (filter (λ p. not (contains p.key regular)) wanted) policy

abbrev pub wanted_of : List (String × PeerAccounting) → List PeerAccounting
wanted_of peers = filter (λ p. p.interested) (map (λ entry. entry.1) peers)

unfoldable pub evaluate :
    UploadConfig → ℕ → List (String × PeerAccounting) → ChokePolicy → ChokeDecision × ChokePolicy
evaluate config now peers policy =
    let alive = map (λ entry. entry.0) peers in
    let pruned : ChokePolicy = record policy {
      rounds = filter (λ r. contains r.0 alive) policy.rounds;
    } in
    let wanted = wanted_of peers in
    let regular = regular_slots config now wanted in
    let (optimistic, after) = optimistic_slot config now wanted regular pruned in
    (record { unchoked = regular; optimistic = optimistic }, after)
