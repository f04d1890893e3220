-- ===== src/Download/Scheduler/Planning/Pipelines.antt =====
-- A pass ends, and the pipelines grow by its assignments, within the capacity.
use peer_stream.Prelude.{
  ℕ, zero, suc, ◌+◌, ◌-◌, ◌≤◌, ◌<◌, ◌≡◌, ◌≢◌, refl, sym, ap, subst, ◌∙◌, max, String, Bool,
  Bool-cases, inl, inr, true, false, Option, none, some, List, [], ◌∷◌, ◌++◌, append_assoc,
  append-nil, ltb→lt, if◌then◌else◌, ok, arith, Ensures, holds, Ensures-if, Ensures-bind,
  out_of_rounds,
}
use peer_stream.Prelude.Dicts.{get}
use peer_stream.Prelude.Sorting.{sort_by}
use peer_stream.Peer.Availability.{PieceAvailability}
use peer_stream.Peer.Messages.{request}
use peer_stream.Download.Block.{Block}
use peer_stream.Download.Endgame.{BlockKey}
use peer_stream.Download.Pipeline.{PeerView, PeerSlot, pipeline, can_request, add}
use peer_stream.Download.Scheduler.{
  Scheduler, same_name, slot_of, or_new, with_slot, register, mark_asked, prune_asked,
  remember_unclaimed,
}
use peer_stream.Download.Scheduler.Planning.{
  Readings, Assignment, Pass, usable, key_of, assign, take_block, round, fill, serve, serve_all,
  open_slots, or_default, plan, is_emptier,
}
use peer_stream.Download.Scheduler.Planning.Regular.{
  Regular, next_block-IsRegular, claim-slots, construct-request,
}
use peer_stream.Download.Scheduler.Planning.Rounds.{
  keys_in, requests_to, Once, slot_of-with_slot, slot_of-open_slot, slot_of-open_slots,
  requests_to-append, Once-append, IsGain, add-IsGain, add-refused,
}
use text.Mathlib.TextEquality.{eq_iff}

assign-slots :
    (peer : PeerView) (block : Block) (pass : Pass)
    → Ensures
        (λ next.
          (next.scheduler.slots ≡ pass.scheduler.slots)
          × (next.assignments
              ≡ pass.assignments
                ++ record { peer = peer; message = request block.index block.offset block.size }
                  ∷ []))
        Regular
        (assign peer block pass)
unfolding assign mark_asked
assign-slots peer block pass =
    Ensures-bind (claim-slots block.index block.offset peer.key pass.scheduler) (λ claimed same.
      Ensures-bind (construct-request block.index block.offset block.size) (λ m built.
        holds (same, ap (λ x. pass.assignments ++ record { peer = peer; message = x } ∷ []) built)))

module _ (capacity : ℕ) (s : Scheduler) where
  -- What a pass did to the pipeline of a peer: the requests that were assigned to it were added,
  -- none of them was there, and the pipeline is within the capacity if it grew.
  abbrev pub Grows : String → Scheduler → List Assignment → Type 0
  Grows name after assignments =
      (keys_in (slot_of name after) ≡ keys_in (slot_of name s) ++ requests_to name assignments)
      × (Once (keys_in (slot_of name s)) → Once (keys_in (slot_of name after)))
      × (pipeline (slot_of name after) ≤ max (pipeline (slot_of name s)) capacity)

  abbrev pub Grown : Scheduler → List Assignment → Type 0
  Grown after assignments = (name : String) → Grows name after assignments

  -- A slot in place of another one, and no request to its peer.
  Grows-same :
      (before after : Scheduler) (assignments more : List Assignment) (name : String)
      → slot_of name after ≡ slot_of name before
      → requests_to name more ≡ []
      → Grows name before assignments
      → Grows name after (assignments ++ more)
  Grows-same before after assignments more name same nothing (keys, once, bound) = (
    ap keys_in same
        ∙ keys
        ∙ ap (λ r. keys_in (slot_of name s) ++ r)
            (sym (
              requests_to-append name assignments more
              ∙ ap (λ r. requests_to name assignments ++ r) nothing
              ∙ append-nil (requests_to name assignments))),
    λ h. subst (λ slot. Once (keys_in slot)) (sym same) (once h),
    subst (λ slot. pipeline slot ≤ max (pipeline (slot_of name s)) capacity) (sym same) bound,
  )

  Grows-gain :
      (before after : Scheduler) (assignments more : List Assignment) (name : String)
      (key : BlockKey) (slot : PeerSlot)
      → IsGain key (slot_of name before) slot
      → pipeline (slot_of name before) < capacity
      → slot_of name after ≡ slot
      → requests_to name more ≡ key ∷ []
      → Grows name before assignments
      → Grows name after (assignments ++ more)
  Grows-gain before after assignments more name key slot gain room same asked (keys, once, bound) =
      (
        ap keys_in same
            ∙ gain.appended
            ∙ ap (λ r. r ++ key ∷ []) keys
            ∙ append_assoc (keys_in (slot_of name s)) (requests_to name assignments) (key ∷ [])
            ∙ ap (λ r. keys_in (slot_of name s) ++ r)
                (sym (
                  requests_to-append name assignments more
                  ∙ ap (λ r. requests_to name assignments ++ r) asked)),
        λ h.
            subst Once (sym (ap keys_in same ∙ gain.appended))
              (Once-append key (keys_in (slot_of name before)) gain.was_absent (once h)),
        subst (λ x. pipeline x ≤ max (pipeline (slot_of name s)) capacity) (sym same)
            (omega (arith, gain.longer)),
      )

  Grown-gain :
      (before after : Scheduler) (assignments : List Assignment) (peer : PeerView) (key : BlockKey)
      (slot : PeerSlot) (size : ℕ)
      → IsGain key (slot_of peer.key before) slot
      → pipeline (slot_of peer.key before) < capacity
      → after.slots ≡ (with_slot peer.key slot before).slots
      → Grown before assignments
      → Grown after (assignments ++ record { peer = peer; message = request key.0 key.1 size } ∷ [])
  Grown-gain before after assignments peer key slot size gain room slots grown name =
      let more : List Assignment =
        record { peer = peer; message = request key.0 key.1 size } ∷ [] in
      let at : (n : String)
          → slot_of n after ≡ (if same_name n peer.key then slot else slot_of n before) =
        λ n.
          ap (λ d. or_new n (get same_name n d)) slots ∙ slot_of-with_slot peer.key n slot before in
      let itself : same_name peer.key peer.key ≡ true = (eq_iff peer.key peer.key).1 refl in
      elim (Bool-cases (same_name name peer.key)) [
        | inl e ↦
            subst (λ n. Grows n after (assignments ++ more)) (sym ((eq_iff name peer.key).0 e))
              (Grows-gain before after assignments more peer.key key slot gain room
                (at peer.key ∙ (rw itself refl)) (rw itself refl) (grown peer.key))
        | inr e ↦
            Grows-same before after assignments more name (at name ∙ (rw e refl)) (rw e refl)
              (grown name)
      ]

  Grown-same :
      (before after : Scheduler) (assignments : List Assignment)
      → ((name : String) → slot_of name after ≡ slot_of name before)
      → Grown before assignments
      → Grown after assignments
  Grown-same before after assignments same grown name =
      subst (Grows name after) (append-nil assignments)
        (Grows-same before after assignments [] name (same name) refl (grown name))

  -- A round that goes on has made the pipeline longer.
  abbrev Progress : PeerView → Pass → Bool × Pass → Type 0
  Progress peer pass (more, next) =
      Grown next.scheduler next.assignments
      × (more ≡ true
          → pipeline (slot_of peer.key next.scheduler)
            ≡ suc (pipeline (slot_of peer.key pass.scheduler)))

  take_block-Progress :
      (now : ℕ) (peer : PeerView) (found : Option Block) (pass : Pass)
      → Grown pass.scheduler pass.assignments
      → pipeline (slot_of peer.key pass.scheduler) < capacity
      → Ensures (Progress peer pass) Regular (take_block now peer found pass)
  take_block-Progress now peer none pass grown room = holds (grown, λ h. cc)
  take_block-Progress now peer (some block) pass grown room =
      let before = slot_of peer.key pass.scheduler in
      let slot = (add (key_of block) now before).1 in
      let after : Pass = record pass { scheduler = with_slot peer.key slot pass.scheduler } in
      Ensures-if (add (key_of block) now before).0
        (λ added.
          let gain = add-IsGain (key_of block) now before added in
          Ensures-bind (assign-slots peer block after) (λ next (slots, assigned). holds (
            subst (Grown next.scheduler) (sym assigned) (
                Grown-gain pass.scheduler next.scheduler pass.assignments peer (key_of block) slot
                  block.size gain room slots grown),
            λ _.
                ap (λ d. pipeline (or_new peer.key (get same_name peer.key d))) slots
                ∙ ap pipeline {y = slot} (
                    slot_of-with_slot peer.key peer.key slot pass.scheduler
                    ∙ (rw ((eq_iff peer.key peer.key).1 refl) refl))
                ∙ gain.longer,
          )))
        (λ refused. holds (
          Grown-same pass.scheduler after.scheduler pass.assignments
              (λ name.
                ap (λ x. slot_of name (with_slot peer.key x pass.scheduler))
                  (add-refused (key_of block) now before refused)
                ∙ slot_of-open_slot peer.key name pass.scheduler)
              grown,
          λ h. cc,
        ))

  module _ (readings : Readings) (now : ℕ) (availability : Option PieceAvailability) where
    round-Progress :
        (peer : PeerView) (pass : Pass)
        → Grown pass.scheduler pass.assignments
        → pipeline (slot_of peer.key pass.scheduler) < capacity
        → Ensures (Progress peer pass) Regular (round readings now availability peer pass)
    unfolding round
    round-Progress peer pass grown room =
        Ensures-bind (next_block-IsRegular _ _ peer availability _ _) (λ found _.
          take_block-Progress now peer found
            (record pass {
              scheduler = remember_unclaimed pass.scheduler;
              searches = pass.searches + 1;
            })
            grown room)

    fill-Grown :
        (rounds : ℕ) (peer : PeerView) (pass : Pass)
        → capacity - pipeline (slot_of peer.key pass.scheduler) < rounds
        → Grown pass.scheduler pass.assignments
        → Ensures
            (λ next. Grown next.scheduler next.assignments)
            Regular
            (fill rounds readings now availability capacity peer pass)
    unfolding fill can_request
    fill-Grown zero peer pass enough grown = absurd (omega arith)
    fill-Grown (suc rounds) peer pass enough grown =
        elim (Bool-cases (can_request capacity (slot_of peer.key pass.scheduler))) [
          | inr full ↦ rw (full, fill) (holds grown)
          | inl room ↦
              let below : pipeline (slot_of peer.key pass.scheduler) < capacity = ltb→lt _ _ room in
              rw (room, fill)
                (Ensures-bind (round-Progress peer pass grown below) (λ (more, next) (kept, longer).
                  go_on more next kept longer
                    (λ longer'. fill-Grown rounds peer next (omega (arith, below, longer')) kept)))
        ]
      where
        go_on :
            (more : Bool) (next : Pass)
            → Grown next.scheduler next.assignments
            → (more ≡ true
                → pipeline (slot_of peer.key next.scheduler)
                  ≡ suc (pipeline (slot_of peer.key pass.scheduler)))
            → (pipeline (slot_of peer.key next.scheduler)
                  ≡ suc (pipeline (slot_of peer.key pass.scheduler))
                → Ensures
                    (λ next. Grown next.scheduler next.assignments)
                    Regular
                    (fill rounds readings now availability capacity peer next))
            → Ensures
                (λ next. Grown next.scheduler next.assignments)
                Regular
                (elim more [
                  | false ↦ ok next
                  | true ↦ fill rounds readings now availability capacity peer next
                ])
        go_on true next kept longer rest = rest (longer refl)
        go_on false next kept longer rest = holds kept

    serve-Grown :
        (peer : PeerView) (pass : Pass)
        → Grown pass.scheduler pass.assignments
        → Ensures
            (λ next. Grown next.scheduler next.assignments)
            Regular
            (serve readings now availability capacity peer pass)
    unfolding serve register
    serve-Grown peer pass grown =
        Ensures-if (usable peer)
          (λ _.
            fill-Grown (suc capacity) peer
              (record pass { scheduler = register peer pass.scheduler }) (omega arith)
              (Grown-same pass.scheduler (register peer pass.scheduler) pass.assignments
                (λ name. slot_of-open_slot peer.key name pass.scheduler) grown))
          (λ _. holds grown)

    serve_all-Grown :
        (peers : List PeerView) (pass : Pass)
        → Grown pass.scheduler pass.assignments
        → Ensures
            (λ next. Grown next.scheduler next.assignments)
            Regular
            (serve_all readings now availability capacity peers pass)
    unfolding serve_all
    serve_all-Grown [] pass grown = holds grown
    serve_all-Grown (peer ∷ peers) pass grown =
        Ensures-bind (serve-Grown peer pass grown) (λ next kept. serve_all-Grown peers next kept)

-- A pass ends: it returns, or raises an exception of the program, and never runs out of rounds.
-- Where it returns, whatever the peers, the clock and the shuffles: the pipeline of each peer has
-- grown by exactly the blocks assigned to the peer, in their order; no block stands in it twice, if
-- none did before; and it is no longer than the capacity, unless it was before and has not grown.
pub plan-Grown :
    (readings : Readings) (now : ℕ) (peers : List PeerView)
    (availability : Option PieceAvailability) (limit : Option ℕ) (s : Scheduler)
    → Ensures
        (λ (assignments, after).
          Grown (or_default limit s.config.max_outstanding_requests) s after assignments)
        (λ e. e ≢ out_of_rounds)
        (plan readings now peers availability limit s)
unfolding plan prune_asked
plan-Grown readings now peers availability limit s =
    let capacity = or_default limit s.config.max_outstanding_requests in
    let opened = open_slots peers (prune_asked s) in
    Ensures-bind
      (serve_all-Grown capacity s readings now availability (sort_by (is_emptier opened) peers)
        (record { scheduler = opened; assignments = []; searches = 0 })
        (Grown-same capacity s s opened [] (λ name. slot_of-open_slots name peers (prune_asked s))
          (λ name. (sym (append-nil (keys_in (slot_of name s))), λ once. once, omega arith))))
      (λ pass grown. holds grown)
