-- ===== src/Download/Scheduler/Planning/Offers.antt =====
-- What a search for a block finds.
use peer_stream.Prelude.{
  ℕ, ◌≡◌, ◌≢◌, refl, sym, ap, ◌∙◌, String, Bool, Bool-cases, Option-cases, inl, inr, true, false,
  Option, none, some, List, [], ◌∷◌, map, filter, All, ◌==◌, ==_iff, if◌then◌else◌, ok, arith,
  Ensures, holds, Ensures-bind, Ensures-map, Ensures_self,
}
use peer_stream.Prelude.Int.{ℤ}
use peer_stream.Prelude.Dicts.{get}
use peer_stream.Prelude.Sets.{contains}
use peer_stream.Prelude.Sorting.{In, sort_by, All-sort_by, All-append, All-filter, All-map}
use peer_stream.Peer.Availability.{PieceAvailability}
use peer_stream.Download.Block.{Block}
use peer_stream.Download.Piece.{
  Piece, PieceState, Slot, is_received, is_verified, finished, in_progress, needs_no_block,
  is_offered, first_offered, requestable_block,
}
use peer_stream.Download.Selector.{select}
use peer_stream.Download.Endgame.{active}
use peer_stream.Download.Pipeline.{PeerView}
use peer_stream.Download.Scheduler.{Scheduler, same_index, wanted}
use peer_stream.Download.Scheduler.Accounting.{AllSound, AreDistinct, AllSound-get, IsAccounted}
use peer_stream.Download.Scheduler.Planning.{
  candidates, is_started, is_fuller, pieces_of, fresh_of, fresh_pieces, may_hold, is_too_early,
  offer, first_block, next_block,
}

-- The piece is that of the scheduler under its index.
abbrev IsKnown : Scheduler → Piece → Type 0
IsKnown s p = get same_index p.index s.pieces ≡ some p

-- The block is one that the peer holds, that has not arrived, and that the peer is not asked for.
pub record IsOffer (s : Scheduler) (peer : PeerView) (block : Block) : Type 0 where
  pub piece : Piece
  pub slot : Slot
  pub known : get same_index block.index s.pieces ≡ some piece
  pub undone : finished piece ≡ false
  pub held : may_hold peer.bitfield block.index ≡ ok true
  pub inside : In slot piece.slots
  pub itself : slot.block ≡ block
  pub unreceived : is_received slot.state ≡ false
  pub unasked : contains peer.key slot.requesters ≡ false

none_ne_some : {block : Block} → none ≢ some block
none_ne_some h = cc

pieces-IsKnown :
    (pieces rest : List (ℕ × Piece)) (s : Scheduler)
    → AllSound rest
    → AreDistinct rest
    → ((i : ℕ) (p : Piece) → get same_index i rest ≡ some p → get same_index i s.pieces ≡ some p)
    → All (IsKnown s) (map (λ entry. entry.1) rest)
pieces-IsKnown pieces [] s sound distinct within = tt
pieces-IsKnown pieces ((i, p) ∷ rest) s (h, sound) (new, distinct) within = (
  within p.index p (rw ((==_iff p.index i).1 h.indexed) refl),
  pieces-IsKnown pieces rest s sound distinct (λ j q found. within j q (elim (Bool-cases (j == i)) [
    | inl e ↦ cc (sym (ap (λ k. get same_index k rest) ((==_iff j i).0 e)) ∙ found, new)
    | inr e ↦ rw e found
  ])),
)

fresh-IsKnown :
    (s : Scheduler) (indices : List ℕ) → IsAccounted s → All (IsKnown s) (fresh_pieces indices s)
fresh-IsKnown s [] a = tt
fresh-IsKnown s (index ∷ indices) a =
    All-append (IsKnown s) (fresh_of (get same_index index s.pieces)) (fresh_pieces indices s)
      (elim (Option-cases (get same_index index s.pieces)) [
        | inl absent ↦ rw absent tt
        | inr (p, found) ↦
            let same = (AllSound-get index p s.pieces found a.sound).indexed in
            rw found (elim (in_progress p) as (λ b. All (IsKnown s) (if b then [] else p ∷ [])) [
              | true ↦ tt
              | false ↦ (ap (λ j. get same_index j s.pieces) same ∙ found, tt)
            ])
      ])
      (fresh-IsKnown s indices a)

candidates-IsKnown :
    (shuffle : List ℕ → List ℕ) (availability : Option PieceAvailability) (s : Scheduler)
    → IsAccounted s
    → Ensures (All (IsKnown s)) (λ e. Unit {0}) (candidates shuffle availability s)
unfolding candidates
candidates-IsKnown shuffle availability s a =
    Ensures-bind (Ensures-map (λ f h. h) (λ e h. tt) (Ensures_self (wanted s))) (λ field _.
      Ensures-bind
        (Ensures-map (λ f h. h) (λ e h. tt)
          (Ensures_self (select shuffle field availability none s.selector)))
        (λ indices _. holds (
          All-append (IsKnown s) (sort_by is_fuller (filter is_started (pieces_of s)))
            (fresh_pieces indices s)
            (All-sort_by is_fuller (IsKnown s) (filter is_started (pieces_of s)) (
              All-map (λ p. IsKnown s p × (is_started p ≡ true)) (IsKnown s)
                (filter is_started (pieces_of s)) (λ p (h, _). h)
                (All-filter (IsKnown s) is_started (pieces_of s)
                  (pieces-IsKnown s.pieces s.pieces s a.sound a.distinct (λ i p found. found)))))
            (fresh-IsKnown s indices a))))

-- What `first_offered` finds.
first_offered-In :
    (peer : String) (racing : Bool) (slots : List Slot) (block : Block)
    → first_offered peer racing slots ≡ some block
    → (slot : Slot) × In slot slots × (slot.block ≡ block) × (is_offered peer racing slot ≡ true)
first_offered-In peer racing [] block h = cc
first_offered-In peer racing (x ∷ slots) block h = elim (Bool-cases (is_offered peer racing x)) [
  | inl e ↦ (
    x,
    inl refl,
    ap (λ (o : Option Block). elim o [ none ↦ x.block | some y ↦ y ]) (rw e at h),
    e,
  )
  | inr e ↦
      let (slot, inside, same, offered) = first_offered-In peer racing slots block (rw e at h) in
      (slot, inr inside, same, offered)
]

needs_no_block-finished : (p : Piece) → needs_no_block p.state ≡ false → finished p ≡ false
unfolding finished
needs_no_block-finished p h = go p.state h
  where
    go : (state : PieceState) → needs_no_block state ≡ false → is_verified state ≡ false
    go PieceState.missing h = refl
    go PieceState.requested h = refl
    go PieceState.downloading h = refl
    go PieceState.downloaded h = refl
    go PieceState.verifying h = refl
    go PieceState.verified h = cc
    go PieceState.failed h = refl

All-In_block :
    (index : ℕ) (slots : List Slot) (s : Slot)
    → All (λ x. x.block.index ≡ index) slots
    → In s slots
    → s.block.index ≡ index
All-In_block index [] s hs inside = absurd inside
All-In_block index (x ∷ slots) s (h, hs) (inl same) = ap (λ (y : Slot). y.block.index) same ∙ h
All-In_block index (x ∷ slots) s (h, hs) (inr inside) = All-In_block index slots s hs inside

requestable_block-In :
    (peer : String) (racing : Bool) (p : Piece) (block : Block)
    → requestable_block peer racing p ≡ some block
    → (finished p ≡ false)
      × (slot : Slot) × In slot p.slots
      × (slot.block ≡ block)
      × (is_offered peer racing slot ≡ true)
unfolding requestable_block
requestable_block-In peer racing p block h = elim (Bool-cases (needs_no_block p.state)) [
  | inl e ↦ absurd (none_ne_some (rw e at h))
  | inr e ↦
      let (slot, inside, same, offered) = first_offered-In peer racing p.slots block (rw e at h) in
      (needs_no_block-finished p e, slot, inside, same, offered)
]

-- A block that is taken was found at a piece that the peer holds.
taken :
    (now : ℕ) (s : Scheduler) (held : Bool) (found : Option Block) (block : Block)
    → (if held
        then elim found [ none ↦ none | some b ↦ if is_too_early now s b then none else some b ]
        else none)
      ≡ some block
    → (held ≡ true) × (found ≡ some block)
taken now s false found block h = cc
taken now s true none block h = cc
taken now s true (some b) block h = (refl, ground (arith, h))

is_offered-parts :
    (peer : String) (racing : Bool) (slot : Slot)
    → is_offered peer racing slot ≡ true
    → (is_received slot.state ≡ false) × (contains peer slot.requesters ≡ false)
is_offered-parts peer racing slot h = ground arith

offer-IsOffer :
    (now : ℕ) (peer : PeerView) (racing : Bool) (s : Scheduler) (p : Piece)
    → IsAccounted s
    → IsKnown s p
    → Ensures
        (λ found. (block : Block) → found ≡ some block → IsOffer s peer block)
        (λ e. Unit {0})
        (offer now peer racing s p)
unfolding offer
offer-IsOffer now peer racing s p a known =
    Ensures-bind
      (Ensures-map (λ b h. h) (λ e h. tt) (Ensures_self (may_hold peer.bitfield p.index)))
      (λ held has. holds (λ block h.
        let (yes', found) = taken now s held (requestable_block peer.key racing p) block h in
        let (undone, slot, inside, same, offered) =
          requestable_block-In peer.key racing p block found in
        let sound = AllSound-get p.index p s.pieces known a.sound in
        let index : block.index ≡ p.index =
          ap (λ (b : Block). b.index) (sym same)
          ∙ All-In_block p.index p.slots slot sound.blocks inside in
        let (unreceived, unasked) = is_offered-parts peer.key racing slot offered in
        record {
          piece = p;
          slot = slot;
          known = ap (λ i. get same_index i s.pieces) index ∙ known;
          undone = undone;
          held = ap (may_hold peer.bitfield) index ∙ has ∙ ap ok yes';
          inside = inside;
          itself = same;
          unreceived = unreceived;
          unasked = unasked;
        }))

first_block-IsOffer :
    (now : ℕ) (peer : PeerView) (racing : Bool) (s : Scheduler) (ps : List Piece)
    → IsAccounted s
    → All (IsKnown s) ps
    → Ensures
        (λ found. (block : Block) → found ≡ some block → IsOffer s peer block)
        (λ e. Unit {0})
        (first_block now peer racing s ps)
unfolding first_block
first_block-IsOffer now peer racing s [] a known = holds (λ block h. absurd (none_ne_some h))
first_block-IsOffer now peer racing s (p ∷ ps) a (here, known) =
    Ensures-bind (offer-IsOffer now peer racing s p a here)
      (λ found offered. go found offered (first_block-IsOffer now peer racing s ps a known))
  where
    go :
        (found : Option Block)
        → ((block : Block) → found ≡ some block → IsOffer s peer block)
        → Ensures
            (λ found. (block : Block) → found ≡ some block → IsOffer s peer block)
            (λ e. Unit {0})
            (first_block now peer racing s ps)
        → Ensures
            (λ found. (block : Block) → found ≡ some block → IsOffer s peer block)
            (λ e. Unit {0})
            (elim found [ none ↦ first_block now peer racing s ps | some block ↦ ok (some block) ])
    go none offered rest = rest
    go (some block) offered rest = holds offered

-- A search in an accounted scheduler gives a block of a piece that is not finished, which the peer
-- holds and is not asked for.
pub next_block-IsOffer :
    (now : ℕ) (shuffle : List ℕ → List ℕ) (peer : PeerView)
    (availability : Option PieceAvailability) (outstanding : ℤ) (s : Scheduler)
    → IsAccounted s
    → Ensures
        (λ found. (block : Block) → found ≡ some block → IsOffer s peer block)
        (λ e. Unit {0})
        (next_block now shuffle peer availability outstanding s)
unfolding next_block
next_block-IsOffer now shuffle peer availability outstanding s a =
    Ensures-bind (candidates-IsKnown shuffle availability s a)
      (λ ps known. first_block-IsOffer now peer (active outstanding s.endgame) s ps a known)
