-- ===== src/Download/Endgame/Refinement.antt =====
-- The tracker does what is said of the races.
use peer_stream.Prelude.{
  ℕ, ◌≡◌, ◌≢◌, inl, inr, refl, ap, ◌∙◌, String, Bool, Bool-cases, Option-cases, true, false, not,
  some, List, [], ◌∷◌, arith, and_false,
}
use peer_stream.Prelude.Dicts.{get}
use peer_stream.Prelude.Sets.{contains, insert, discard, contains-insert, contains-discard}
use peer_stream.Prelude.Sorting.{sort_by}
use peer_stream.Download.Piece.{is_nil}
use peer_stream.Download.Endgame.{
  BlockKey, same_key, EndgameTracker, fetchers, comes_first, make_tracker, note_request,
  note_received, note_lost, forget, clear,
}
use peer_stream.Download.Endgame.Fetching.{
  same_key-IsEquality, Call, requests, arrives, gives_up, forgets, clears, Answer, step, Races,
  Becomes, Answers, IsTracker, view,
}
use text.Mathlib.TextEquality.{eq_iff}
use peer_stream.Download.Endgame.Tables.{
  contains-sort_by, is_nil-contains, contains-is_nil, contains-fetchers, insert-ne, fetchers-put,
  fetchers-remove, put-IsTracker, remove-IsTracker, discard-IsFree,
}

abbrev Refines : Call → EndgameTracker → Type 0
Refines c t =
    IsTracker (step c t).1
    × Answers c (view t) (step c t).0
    × Becomes c (view t) (view (step c t).1)

requests-Refines :
    (key : BlockKey) (peer : String) (t : EndgameTracker)
    → IsTracker t
    → Refines (requests key peer) t
unfolding step note_request
requests-Refines key peer t valid = (
  put-IsTracker key (insert peer (fetchers key t)) t.fetching (insert-ne peer (fetchers key t))
      valid,
  refl,
  (
    λ k q. ground (
      arith,
      fetchers-put key k (insert peer (fetchers key t)) t.fetching q,
      contains-insert peer q (fetchers key t),
      same_key-IsEquality k key,
      ap (λ j. contains q (fetchers j t)) {x = k} {y = key},
    ),
    λ free. rw (contains-is_nil (fetchers key t) free) refl,
    λ known. rw (known, and_false (not (is_nil (fetchers key t)))) refl,
    λ q busy new. ground (arith, is_nil-contains (fetchers key t), busy, new),
  ),
)

arrives-Refines :
    (key : BlockKey) (winner : String) (t : EndgameTracker)
    → IsTracker t
    → Refines (arrives key winner) t
unfolding step note_received
arrives-Refines key winner t valid = (
  remove-IsTracker key t.fetching valid,
  (
    sort_by comes_first (discard winner (fetchers key t)),
    refl,
    λ q.
        contains-sort_by comes_first q (discard winner (fetchers key t))
        ∙ ground
            (arith, contains-discard winner q (fetchers key t), eq_iff winner q, eq_iff q winner),
  ),
  (λ k q. fetchers-remove key k t.fetching q, refl),
)

gives_up-Refines :
    (key : BlockKey) (peer : String) (t : EndgameTracker)
    → IsTracker t
    → Refines (gives_up key peer) t
unfolding step note_lost
gives_up-Refines key peer t valid = elim (Option-cases (get same_key key t.fetching)) [
  | inl unknown ↦ rw unknown (
    valid,
    (false, refl, (λ h. cc, λ (busy, only). absurd (busy (λ q. refl)))),
    (
      λ k q. ground (
        arith,
        unknown,
        contains-fetchers key t valid unknown q,
        same_key-IsEquality k key,
        ap (λ j. contains q (fetchers j t)) {x = k} {y = key},
      ),
      refl,
    ),
  )
  | inr (peers, known) ↦
      let full : peers ≢ [] = λ e. valid key (known ∙ ap some e) in
      elim (Bool-cases (is_nil (discard peer peers))) [
        | inl last ↦
            rw (known, last)
              (
                remove-IsTracker key t.fetching valid,
                (true, refl, (λ h. (discard-IsFree peer peers full).0 last, λ h. refl)),
                (
                  λ k q. ground (
                    arith,
                    known,
                    fetchers-remove key k t.fetching q,
                    contains-discard peer q peers,
                    is_nil-contains (discard peer peers) last q,
                    same_key-IsEquality k key,
                    eq_iff peer q,
                    eq_iff q peer,
                    ap (λ j. contains q (fetchers j t)) {x = k} {y = key},
                  ),
                  refl,
                ),
              )
        | inr more ↦
            rw (known, more)
              (
                put-IsTracker key (discard peer peers) t.fetching (λ e. cc (ap is_nil e)) valid,
                (false, refl, (λ h. cc, λ h. absurd (cc ((discard-IsFree peer peers full).1 h)))),
                (
                  λ k q. ground (
                    arith,
                    known,
                    fetchers-put key k (discard peer peers) t.fetching q,
                    contains-discard peer q peers,
                    same_key-IsEquality k key,
                    eq_iff peer q,
                    eq_iff q peer,
                    ap (λ j. contains q (fetchers j t)) {x = k} {y = key},
                  ),
                  refl,
                ),
              )
      ]
]

step-Refines : (c : Call) (t : EndgameTracker) → IsTracker t → Refines c t
unfolding step forget clear
step-Refines (requests key peer) t valid = requests-Refines key peer t valid
step-Refines (arrives key winner) t valid = arrives-Refines key winner t valid
step-Refines (gives_up key peer) t valid = gives_up-Refines key peer t valid
step-Refines (forgets key) t valid =
    (remove-IsTracker key t.fetching valid, refl, (λ k q. fetchers-remove key k t.fetching q, refl))
step-Refines clears t valid = (λ k h. cc, refl, (λ k q. refl, refl))

-- Calls one after the other, with what they give back.
unfoldable pub run : List Call → EndgameTracker → List Answer × EndgameTracker
run [] t = ([], t)
run (c ∷ cs) t = let (answer, u) = step c t in let (answers, v) = run cs u in (answer ∷ answers, v)

-- A history of the races in which each call does and gives back what it is to.
abbrev pub Behaves : List Call → Races → List Answer → Races → Type 0
Behaves [] r answers s = (answers ≡ []) × (r ≡ s)
Behaves (c ∷ cs) r answers s =
    (a : Answer) × (rest : List Answer) × (m : Races) × (answers ≡ a ∷ rest)
    × Answers c r a
    × Becomes c r m
    × Behaves cs m rest s

run-Behaves_from :
    (cs : List Call) (t : EndgameTracker)
    → IsTracker t
    → Behaves cs (view t) (run cs t).0 (view (run cs t).1)
unfolding run
run-Behaves_from [] t valid = (refl, refl)
run-Behaves_from (c ∷ cs) t valid =
    let (kept, answers, becomes) = step-Refines c t valid in
    (
      (step c t).0,
      (run cs (step c t).1).0,
      view (step c t).1,
      refl,
      answers,
      becomes,
      run-Behaves_from cs (step c t).1 kept,
    )

-- Nobody fetches anything.
abbrev pub no_races : Races
no_races = record { fetches = λ k q. false; joined = 0 }

-- A tracker with any settings behaves, from its creation on and whatever the calls are, as the
-- races that it stands for, which know no more than who is fetching which block: each call changes
-- these for its block and its peer alone, an arrival names exactly the others that fetch the block,
-- and giving up says whether it left free a block that was not.
pub run-Behaves :
    (enabled : Bool) (threshold : ℕ) (cs : List Call)
    → Behaves cs no_races
        (run cs (make_tracker enabled threshold)).0
        (view (run cs (make_tracker enabled threshold)).1)
run-Behaves enabled threshold cs = run-Behaves_from cs (make_tracker enabled threshold) (λ k h. cc)
