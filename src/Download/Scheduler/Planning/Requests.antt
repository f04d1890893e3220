-- ===== src/Download/Scheduler/Planning/Requests.antt =====
-- A pass keeps the count exact, and asks only for what is due.
use peer_stream.Prelude.{
  ℕ, zero, suc, ◌+◌, ◌≡◌, refl, sym, ap, subst, ◌∙◌, String, Bool, Bool-cases, inl, inr, true,
  false, Option, none, some, List, [], ◌∷◌, All, ok, Ensures, holds, raises, Ensures-if,
  Ensures-bind, Ensures-map, Ensures_self, Ensures-and, Ensures-ok,
}
use peer_stream.Prelude.Sorting.{sort_by, All-append}
use peer_stream.Peer.Availability.{PieceAvailability}
use peer_stream.Download.Block.{Block}
use peer_stream.Download.Piece.{Piece, finished, mark_requested}
use peer_stream.Download.Pipeline.{PeerView, can_request, add}
use peer_stream.Download.Scheduler.{
  Scheduler, slot_of, with_slot, register, claim, piece_at, is_new_claim, remember_unclaimed,
  unclaimed_count, mark_asked, prune_asked, open_slot,
}
use peer_stream.Download.Scheduler.Accounting.{
  IsAccounted, IsAccounted-same, remember_unclaimed-IsAccounted,
}
use peer_stream.Download.Scheduler.Accounting.Claims.{claim-IsAccounted, piece_at-get}
use peer_stream.Download.Scheduler.Planning.{
  Readings, Assignment, Pass, usable, key_of, assign, take_block, round, fill, serve, serve_all,
  open_slots, or_default, is_emptier, plan,
}
use peer_stream.Download.Scheduler.Planning.Regular.{construct-request}
use peer_stream.Download.Scheduler.Planning.Offers.{IsOffer, next_block-IsOffer}
use peer_stream.Download.Scheduler.Planning.Asked.{IsDue, IsOffer-IsDue}
use peer_stream.Download.Scheduler.Planning.Due.{
  Follows, Follows-refl, Follows-trans, put-Follows, mark_requested-IsLaterPiece, IsOffer-earlier,
}

claim-Follows :
    (index offset : ℕ) (peer : String) (s : Scheduler)
    → Ensures (λ after. Follows s.pieces after.pieces) (λ e. Unit {0}) (claim index offset peer s)
unfolding claim
claim-Follows index offset peer s =
    Ensures-bind (Ensures-map (λ p h. h) (λ e h. tt) (Ensures_self (piece_at index s))) (λ p found.
      Ensures-bind
        (Ensures-map (λ b h. h) (λ e h. tt) (Ensures_self (is_new_claim s.unclaimed offset p)))
        (λ is_new new.
          Ensures-bind
            (Ensures-map (λ q h. h) (λ e h. tt) (Ensures_self (mark_requested offset peer p)))
            (λ q marked. holds (
              put-Follows index p q s.pieces (piece_at-get index s p found)
                (mark_requested-IsLaterPiece offset peer p q marked)))))

module _ (s : Scheduler) where
  -- What holds all through a pass that starts from the scheduler.
  record IsKept (after : Scheduler) (assignments : List Assignment) : Type 0 where
    accounted : IsAccounted after
    follows : Follows s.pieces after.pieces
    due : All (IsDue s) assignments

  -- The pieces and the count are as they were.
  IsKept-same :
      (before after : Scheduler) (assignments : List Assignment)
      → after.pieces ≡ before.pieces
      → after.unclaimed ≡ before.unclaimed
      → IsKept before assignments
      → IsKept after assignments
  IsKept-same before after assignments same count k = record {
    accounted = IsAccounted-same before after same count k.accounted;
    follows = subst (Follows s.pieces) (sym same) k.follows;
    due = k.due;
  }

  assign-IsKept :
      (peer : PeerView) (block : Block) (pass : Pass)
      → usable peer ≡ true
      → IsOffer pass.scheduler peer block
      → IsKept pass.scheduler pass.assignments
      → Ensures
          (λ next. IsKept next.scheduler next.assignments)
          (λ e. Unit {0})
          (assign peer block pass)
  unfolding assign mark_asked
  assign-IsKept peer block pass use' offer k =
      Ensures-bind
        (Ensures-and
          (claim-IsAccounted block.index block.offset peer.key pass.scheduler k.accounted
            (λ p found.
              subst (λ (q : Piece). finished q ≡ false)
                (ap (λ (o : Option Piece). elim o [ none ↦ p | some q ↦ q ])
                  (sym offer.known ∙ found))
                offer.undone))
          (claim-Follows block.index block.offset peer.key pass.scheduler))
        (λ claimed (a, f).
          Ensures-bind
            (Ensures-map (λ m h. h) (λ e h. tt)
              (construct-request block.index block.offset block.size))
            (λ m built. holds (record {
              accounted = record { sound = a.sound; distinct = a.distinct; exact = a.exact };
              follows = Follows-trans s.pieces pass.scheduler.pieces claimed.pieces k.follows f;
              due =
                  All-append (IsDue s) pass.assignments (record { peer = peer; message = m } ∷ [])
                    k.due
                    (
                      subst (λ m. IsDue s (record { peer = peer; message = m })) (sym built)
                          (IsOffer-IsDue s peer block use'
                            (IsOffer-earlier s pass.scheduler peer block k.follows offer)),
                      tt,
                    );
            })))

  take_block-IsKept :
      (now : ℕ) (peer : PeerView) (found : Option Block) (pass : Pass)
      → usable peer ≡ true
      → ((block : Block) → found ≡ some block → IsOffer pass.scheduler peer block)
      → IsKept pass.scheduler pass.assignments
      → Ensures
          (λ (more, next). IsKept next.scheduler next.assignments)
          (λ e. Unit {0})
          (take_block now peer found pass)
  take_block-IsKept now peer none pass use' offers k = holds k
  take_block-IsKept now peer (some block) pass use' offers k =
      let (added, slot) = add (key_of block) now (slot_of peer.key pass.scheduler) in
      let after : Pass = record pass { scheduler = with_slot peer.key slot pass.scheduler } in
      let kept = IsKept-same pass.scheduler after.scheduler pass.assignments refl refl k in
      let offer = offers block refl in
      Ensures-if added
        (λ _.
          Ensures-bind
            (assign-IsKept peer block after use'
              (IsOffer-earlier after.scheduler pass.scheduler peer block
                (Follows-refl pass.scheduler.pieces) offer)
              kept)
            (λ next k'. holds k'))
        (λ _. holds kept)

  module _ (readings : Readings) (now : ℕ) (availability : Option PieceAvailability) where
    round-IsKept :
        (peer : PeerView) (pass : Pass)
        → usable peer ≡ true
        → IsKept pass.scheduler pass.assignments
        → Ensures
            (λ (more, next). IsKept next.scheduler next.assignments)
            (λ e. Unit {0})
            (round readings now availability peer pass)
    unfolding round
    round-IsKept peer pass use' k =
        let s' = remember_unclaimed pass.scheduler in
        let a = remember_unclaimed-IsAccounted pass.scheduler k.accounted in
        Ensures-bind
          (next_block-IsOffer (readings.clock pass.searches) (readings.shuffle pass.searches) peer
            availability (unclaimed_count pass.scheduler) s' a)
          (λ found offers.
            take_block-IsKept now peer found
              (record pass { scheduler = s'; searches = pass.searches + 1 }) use' offers
              (record { accounted = a; follows = k.follows; due = k.due }))

    fill-IsKept :
        (rounds capacity : ℕ) (peer : PeerView) (pass : Pass)
        → usable peer ≡ true
        → IsKept pass.scheduler pass.assignments
        → Ensures
            (λ next. IsKept next.scheduler next.assignments)
            (λ e. Unit {0})
            (fill rounds readings now availability capacity peer pass)
    unfolding fill
    fill-IsKept zero capacity peer pass use' k = raises tt
    fill-IsKept (suc rounds) capacity peer pass use' k =
        elim (Bool-cases (can_request capacity (slot_of peer.key pass.scheduler))) [
          | inr full ↦ rw (full, fill) (holds k)
          | inl room ↦
              rw (room, fill)
                (Ensures-bind (round-IsKept peer pass use' k) (λ (more, next) kept.
                  go_on more next kept (fill-IsKept rounds capacity peer next use' kept)))
        ]
      where
        go_on :
            (more : Bool) (next : Pass)
            → IsKept next.scheduler next.assignments
            → Ensures
                (λ next. IsKept next.scheduler next.assignments)
                (λ e. Unit {0})
                (fill rounds readings now availability capacity peer next)
            → Ensures
                (λ next. IsKept next.scheduler next.assignments)
                (λ e. Unit {0})
                (elim more [
                  | false ↦ ok next
                  | true ↦ fill rounds readings now availability capacity peer next
                ])
        go_on true next kept rest = rest
        go_on false next kept rest = holds kept

    serve-IsKept :
        (capacity : ℕ) (peer : PeerView) (pass : Pass)
        → IsKept pass.scheduler pass.assignments
        → Ensures
            (λ next. IsKept next.scheduler next.assignments)
            (λ e. Unit {0})
            (serve readings now availability capacity peer pass)
    unfolding serve register
    serve-IsKept capacity peer pass k =
        Ensures-if (usable peer)
          (λ use'.
            fill-IsKept (suc capacity) capacity peer
              (record pass { scheduler = register peer pass.scheduler }) use'
              (IsKept-same pass.scheduler (register peer pass.scheduler) pass.assignments refl refl
                k))
          (λ _. holds k)

    serve_all-IsKept :
        (capacity : ℕ) (peers : List PeerView) (pass : Pass)
        → IsKept pass.scheduler pass.assignments
        → Ensures
            (λ next. IsKept next.scheduler next.assignments)
            (λ e. Unit {0})
            (serve_all readings now availability capacity peers pass)
    unfolding serve_all
    serve_all-IsKept capacity [] pass k = holds k
    serve_all-IsKept capacity (peer ∷ peers) pass k =
        Ensures-bind (serve-IsKept capacity peer pass k)
          (λ next kept. serve_all-IsKept capacity peers next kept)

open_slots-same :
    (peers : List PeerView) (s : Scheduler)
    → ((open_slots peers s).pieces ≡ s.pieces) × ((open_slots peers s).unclaimed ≡ s.unclaimed)
open_slots-same [] s = (refl, refl)
open_slots-same (peer ∷ peers) s = open_slots-same peers (open_slot peer.key s)

-- A pass over an accounted scheduler that returns leaves an accounted one, and asks only for what is
-- due: each request goes to a peer that is connected, does not choke us and has sent a field, for a
-- block of one of the pieces, whose bit is set in that field; when the pass began, the piece was not
-- verified, the block had not arrived, and the peer was not among those asked for it.
pub plan-IsDue :
    (readings : Readings) (now : ℕ) (peers : List PeerView)
    (availability : Option PieceAvailability) (limit : Option ℕ) (s : Scheduler)
    (assignments : List Assignment) (after : Scheduler)
    → IsAccounted s
    → plan readings now peers availability limit s ≡ ok (assignments, after)
    → All (IsDue s) assignments × IsAccounted after
unfolding plan prune_asked
plan-IsDue readings now peers availability limit s assignments after a planned =
    let opened = open_slots peers (prune_asked s) in
    let (same, count) = open_slots-same peers (prune_asked s) in
    Ensures-ok {P = λ (r : List Assignment × Scheduler). All (IsDue s) r.0 × IsAccounted r.1}
      (Ensures-bind
        (serve_all-IsKept s readings now availability
          (or_default limit s.config.max_outstanding_requests) (sort_by (is_emptier opened) peers)
          (record { scheduler = opened; assignments = []; searches = 0 })
          (IsKept-same s s opened [] same count
            (record { accounted = a; follows = Follows-refl s.pieces; due = tt })))
        (λ pass k. holds (k.due, k.accounted)))
      planned
