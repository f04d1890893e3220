-- ===== src/Upload/Choke/Slots.antt =====
-- Who gets a slot.
use peer_stream.Prelude.{
  ℕ, ◌<◌, ◌≡◌, refl, sym, ap, subst, ◌∙◌, min, String, Bool, Bool-cases, inl, inr, true, false, not,
  ◌||◌, Option, none, some, List, [], ◌∷◌, length, take, filter, length-map, length-take, All, ◌==◌,
  if◌then◌else◌, arith,
}
use peer_stream.Prelude.Sets.{contains}
use text.Mathlib.Text.{◌==◌ as ◌same_text◌}
use text.Mathlib.TextEquality.{eq_iff}
use peer_stream.Prelude.Sorting.{sort_by, All-sort_by, length-sort_by, All-take, All-filter}
use peer_stream.Upload.Choke.Interested.{
  IsInterested, count_interested, length-wanted_of, wanted_of-IsInterested,
}
use peer_stream.Upload.Choke.{
  UploadConfig, PeerAccounting, ChokeDecision, ChokePolicy, keys_of, regular_slots, optimistic_slot,
  first_or, rotate, turn, holds_slot, keep_rounds, is_past, turns_before, ranks_before, wanted_of,
  evaluate,
}

-- A key among those of some peers is of one of them.
contains-keys_of :
    (Q : String → Type 0) (k : String) (ps : List PeerAccounting)
    → All (λ p. Q p.key) ps
    → contains k (keys_of ps) ≡ true
    → Q k
contains-keys_of Q k [] hs inside = cc
contains-keys_of Q k (p ∷ ps) (h, hs) inside = elim (Bool-cases (k same_text p.key)) [
  | inl same ↦ subst Q (sym ((eq_iff k p.key).0 same)) h
  | inr other ↦ contains-keys_of Q k ps hs (ground arith)
]

abbrev Among : List PeerAccounting → PeerAccounting → Type 0
Among ps p = contains p.key (keys_of ps) ≡ true

All-Among : (ps : List PeerAccounting) → All (Among ps) ps
All-Among [] = tt
All-Among (p ∷ ps) =
    ((let e = (eq_iff p.key p.key).1 refl in ground arith), weaken ps (All-Among ps))
  where
    weaken : (qs : List PeerAccounting) → All (Among ps) qs → All (Among (p ∷ ps)) qs
    weaken [] hs = tt
    weaken (q ∷ qs) (h, hs) = (ground arith, weaken qs hs)

first_or-All :
    (P : PeerAccounting → Type 0) (p : PeerAccounting) (qs : List PeerAccounting)
    → P p
    → All P qs
    → P (first_or p qs)
first_or-All P p [] h hs = h
first_or-All P p (q ∷ qs) h (g, hs) = g

abbrev IsCandidate : List PeerAccounting → Option String → Type 0
IsCandidate ps none = ⊥
IsCandidate ps (some k) = contains k (keys_of ps) ≡ true

holds_slot-IsCandidate :
    (o : Option String) (ps : List PeerAccounting) → holds_slot o ps ≡ true → IsCandidate ps o
holds_slot-IsCandidate none ps h = cc
holds_slot-IsCandidate (some k) ps h = h

keep_rounds-IsCandidate :
    (policy : ChokePolicy) (o : Option String) (ps : List PeerAccounting)
    → IsCandidate ps o
    → IsCandidate ps (keep_rounds policy o).0
keep_rounds-IsCandidate policy none ps h = h
keep_rounds-IsCandidate policy (some k) ps h = h

either-false : (a b : Bool) → not a || b ≡ false → a ≡ true
either-false true b h = refl
either-false false b h = cc

turn-IsCandidate :
    (config : UploadConfig) (now : ℕ) (p : PeerAccounting) (ps : List PeerAccounting)
    (policy : ChokePolicy)
    → IsCandidate (p ∷ ps) (turn config now (p ∷ ps) policy).0
turn-IsCandidate config now p ps policy =
    go
      (not (holds_slot policy.optimistic (p ∷ ps))
        || is_past now config.optimistic_interval policy.since)
      refl
  where
    first_first : Among (p ∷ ps) (first_or p (sort_by (turns_before policy.rounds) (p ∷ ps)))
    first_first =
        first_or-All (Among (p ∷ ps)) p (sort_by (turns_before policy.rounds) (p ∷ ps))
          ((All-Among (p ∷ ps)).0)
          (All-sort_by (turns_before policy.rounds) (Among (p ∷ ps)) (p ∷ ps) (All-Among (p ∷ ps)))

    go :
        (rotates : Bool)
        → not (holds_slot policy.optimistic (p ∷ ps))
            || is_past now config.optimistic_interval policy.since
          ≡ rotates
        → IsCandidate
            (p ∷ ps)
            (keep_rounds
              (if rotates then rotate now p ps policy else policy)
              (if rotates then rotate now p ps policy else policy).optimistic).0
    go true e = first_first
    go false e =
        keep_rounds-IsCandidate policy policy.optimistic (p ∷ ps)
          (holds_slot-IsCandidate policy.optimistic (p ∷ ps) (either-false _ _ e))

-- Who is let in by a decision.
pub record IsFair (config : UploadConfig) (peers : List (String × PeerAccounting))
    (d : ChokeDecision) : Type 0 where
  pub count : length d.unchoked ≡ min config.slots (count_interested peers)
  pub earned : (k : String) → contains k d.unchoked ≡ true → IsInterested peers k
  pub given :
      (k : String)
      → d.optimistic ≡ some k
      → IsInterested peers k
        × (contains k d.unchoked ≡ false)
        × (0 < config.slots)
        × (config.optimistic_unchoke ≡ true)

Given : UploadConfig → List PeerAccounting → List String → Option String → Type 0
Given config wanted regular o =
    (k : String)
    → o ≡ some k
    → (contains k (keys_of wanted) ≡ true)
      × (contains k regular ≡ false)
      × (0 < config.slots)
      × (config.optimistic_unchoke ≡ true)

optimistic_slot-Given :
    (config : UploadConfig) (now : ℕ) (wanted : List PeerAccounting) (regular : List String)
    (policy : ChokePolicy)
    → Given config wanted regular (optimistic_slot config now wanted regular policy).0
unfolding optimistic_slot Given
optimistic_slot-Given config now wanted regular policy k =
    elim (Bool-cases (not config.optimistic_unchoke || (config.slots == 0))) [
      | inl off ↦ rw off (λ e. cc)
      | inr on ↦ rw on (turned on (filter (λ p. not (contains p.key regular)) wanted) candidates)
    ]
  where
    candidates :
        All
          (λ p. Among wanted p × (not (contains p.key regular) ≡ true))
          (filter (λ p. not (contains p.key regular)) wanted)
    candidates =
        All-filter (Among wanted) (λ p. not (contains p.key regular)) wanted (All-Among wanted)

    turned :
        not config.optimistic_unchoke || (config.slots == 0) ≡ false
        → (ps : List PeerAccounting)
        → All (λ p. Among wanted p × (not (contains p.key regular) ≡ true)) ps
        → (turn config now ps policy).0 ≡ some k
        → (contains k (keys_of wanted) ≡ true)
          × (contains k regular ≡ false)
          × (0 < config.slots)
          × (config.optimistic_unchoke ≡ true)
    turned on [] hs e = cc
    turned on (p ∷ ps) hs e =
        let inside : contains k (keys_of (p ∷ ps)) ≡ true =
          subst (IsCandidate (p ∷ ps)) e (turn-IsCandidate config now p ps policy) in
        let (wanted_too, free) =
          contains-keys_of
            (λ j. (contains j (keys_of wanted) ≡ true) × (not (contains j regular) ≡ true)) k
            (p ∷ ps) hs inside in
        (
          wanted_too,
          ground arith,
          ground arith,
          either-false config.optimistic_unchoke (config.slots == 0) on,
        )

-- Whatever the peers, the settings and what went before: as many keys get a regular slot as there are
-- slots, or as there are interested peers where these are fewer; each of them is the key of an
-- interested peer; and the optimistic slot goes to the key of an interested peer that has no
-- regular slot, and only where optimistic unchoking is on and there are slots, so that with no
-- slots nobody is let in.
pub evaluate-IsFair :
    (config : UploadConfig) (now : ℕ) (peers : List (String × PeerAccounting))
    (policy : ChokePolicy)
    → IsFair config peers (evaluate config now peers policy).0
unfolding evaluate regular_slots Given
evaluate-IsFair config now peers policy =
    let wanted = wanted_of peers in
    let before = ranks_before now config.snub_seconds in
    record {
      count =
          length-map (take config.slots (sort_by before wanted)) (λ p. p.key)
          ∙ length-take config.slots (sort_by before wanted)
          ∙ ap (min config.slots) (length-sort_by before wanted ∙ length-wanted_of peers);
      earned = λ k inside. wanted_of-IsInterested peers k (
          contains-keys_of (λ j. contains j (keys_of wanted) ≡ true) k
            (take config.slots (sort_by before wanted))
            (All-take (Among wanted) config.slots (sort_by before wanted)
              (All-sort_by before (Among wanted) wanted (All-Among wanted)))
            inside);
      given = λ k chosen.
          let (keen, free, slots, on) =
            optimistic_slot-Given config now wanted (regular_slots config now wanted) _ k chosen in
          (wanted_of-IsInterested peers k keen, free, slots, on);
    }
