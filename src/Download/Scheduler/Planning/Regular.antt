-- ===== src/Download/Scheduler/Planning/Regular.antt =====
-- What a search for a block and a claim raise is an exception of the program.
use peer_stream.Prelude.{
  ℕ, zero, suc, ◌≡◌, ◌≢◌, refl, Bool, Option-cases, inl, inr, true, Option, none, some, List, [],
  ◌∷◌, ◌==◌, ltb, leb, ◌&&◌, String, length, Error, Result, ok, out_of_rounds, Ensures, holds,
  raises, Ensures-if, Ensures-bind, Ensures-guard,
}
use peer_stream.Prelude.Int.{ℤ}
use peer_stream.Prelude.Dicts.{get}
use peer_stream.Peer.Bitfield.{Bitfield}
use peer_stream.Peer.Bitfield
use peer_stream.Peer.Availability.{PieceAvailability, candidates_from, rarest}
use peer_stream.Peer.Messages.{request, construct, validate_block, max_block_size}
use peer_stream.Download.Block.{Block}
use peer_stream.Download.Piece.{Piece, find_slot, block_state, mark_requested}
use peer_stream.Download.Selector.{
  PieceSelector, PieceStrategy, select, ordered, in_sequence, by_rarity,
}
use peer_stream.Download.Pipeline.{PeerView}
use peer_stream.Download.Scheduler.{
  Scheduler, same_index, piece_at, is_new_claim, claim, set_wanted, wanted, is_wanted,
}
use peer_stream.Download.Scheduler.Planning.{candidates, may_hold, offer, first_block, next_block}

abbrev pub Regular : Error → Type 0
Regular e = e ≢ out_of_rounds

abbrev pub IsRegular {ℓ} : {A : Type ℓ} → Result A → Type ℓ
IsRegular r = Ensures (λ a. Unit {0}) Regular r

has-IsRegular : (field : Bitfield) (index : ℕ) → IsRegular (Bitfield.has field index)
unfolding Bitfield.has
has-IsRegular field index = Ensures-guard (ltb index field.piece_count) _ (λ e. cc) (λ _. holds tt)

put-IsRegular :
    (field : Bitfield) (index : ℕ) (value : Bool) → IsRegular (Bitfield.put field index value)
unfolding Bitfield.put
put-IsRegular field index value =
    Ensures-guard (ltb index field.piece_count) _ (λ e. cc) (λ _. holds tt)

candidates_from-IsRegular :
    (field : Bitfield) (index more : ℕ) → IsRegular (candidates_from field index more)
unfolding candidates_from
candidates_from-IsRegular field index zero = holds tt
candidates_from-IsRegular field index (suc more) =
    Ensures-bind (has-IsRegular field index) (λ held _.
      Ensures-bind (candidates_from-IsRegular field (suc index) more) (λ rest _. holds tt))

by_rarity-IsRegular :
    (field : Bitfield) (availability : Option PieceAvailability) (selector : PieceSelector)
    → IsRegular (by_rarity field availability selector)
unfolding by_rarity in_sequence rarest
by_rarity-IsRegular field none selector = candidates_from-IsRegular field 0 selector.piece_count
by_rarity-IsRegular field (some a) selector =
    Ensures-bind (candidates_from-IsRegular field 0 (length a.counts)) (λ is _. holds tt)

ordered-IsRegular :
    (strategy : PieceStrategy) (shuffle : List ℕ → List ℕ) (field : Bitfield)
    (availability : Option PieceAvailability) (selector : PieceSelector)
    → IsRegular (ordered strategy shuffle field availability selector)
unfolding in_sequence
ordered-IsRegular PieceStrategy.rarest_first shuffle field availability selector =
    by_rarity-IsRegular field availability selector
ordered-IsRegular PieceStrategy.sequential shuffle field availability selector =
    candidates_from-IsRegular field 0 selector.piece_count
ordered-IsRegular PieceStrategy.random shuffle field availability selector =
    Ensures-bind (candidates_from-IsRegular field 0 selector.piece_count) (λ is _. holds tt)

set_wanted-IsRegular :
    (pieces : List (ℕ × Piece)) (field : Bitfield) → IsRegular (set_wanted pieces field)
set_wanted-IsRegular [] field = holds tt
set_wanted-IsRegular (entry ∷ pieces) field =
    Ensures-bind
      (Ensures-if (is_wanted entry.1) (λ _. put-IsRegular field entry.0 true) (λ _. holds tt))
      (λ next _. set_wanted-IsRegular pieces next)

select-IsRegular :
    (shuffle : List ℕ → List ℕ) (field : Bitfield) (availability : Option PieceAvailability)
    (selector : PieceSelector)
    → IsRegular (select shuffle field availability none selector)
unfolding select
select-IsRegular shuffle field availability selector =
    Ensures-guard (field.piece_count == selector.piece_count) _ (λ e. cc)
      (λ _.
        Ensures-bind (ordered-IsRegular selector.strategy shuffle field availability selector)
          (λ is _. holds tt))

candidates-IsRegular :
    (shuffle : List ℕ → List ℕ) (availability : Option PieceAvailability) (s : Scheduler)
    → IsRegular (candidates shuffle availability s)
unfolding candidates wanted
candidates-IsRegular shuffle availability s =
    Ensures-bind (set_wanted-IsRegular s.pieces _) (λ field _.
      Ensures-bind (select-IsRegular shuffle field availability s.selector) (λ is _. holds tt))

offer-IsRegular :
    (now : ℕ) (peer : PeerView) (racing : Bool) (s : Scheduler) (p : Piece)
    → IsRegular (offer now peer racing s p)
unfolding offer
offer-IsRegular now peer racing s p =
    Ensures-bind (may_hold-IsRegular peer.bitfield) (λ held _. holds tt)
  where
    may_hold-IsRegular : (field : Option Bitfield) → IsRegular (may_hold field p.index)
    may_hold-IsRegular none = holds tt
    may_hold-IsRegular (some field) = has-IsRegular field p.index

found_or-IsRegular :
    (found : Option Block) (rest : Result (Option Block))
    → IsRegular rest
    → IsRegular (elim found [ none ↦ rest | some block ↦ ok (some block) ])
found_or-IsRegular none rest h = h
found_or-IsRegular (some block) rest h = holds tt

first_block-IsRegular :
    (now : ℕ) (peer : PeerView) (racing : Bool) (s : Scheduler) (ps : List Piece)
    → IsRegular (first_block now peer racing s ps)
unfolding first_block
first_block-IsRegular now peer racing s [] = holds tt
first_block-IsRegular now peer racing s (p ∷ ps) =
    Ensures-bind (offer-IsRegular now peer racing s p)
      (λ found _. found_or-IsRegular found _ (first_block-IsRegular now peer racing s ps))

pub next_block-IsRegular :
    (now : ℕ) (shuffle : List ℕ → List ℕ) (peer : PeerView)
    (availability : Option PieceAvailability) (outstanding : ℤ) (s : Scheduler)
    → IsRegular (next_block now shuffle peer availability outstanding s)
unfolding next_block
next_block-IsRegular now shuffle peer availability outstanding s =
    Ensures-bind (candidates-IsRegular shuffle availability s)
      (λ ps _. first_block-IsRegular now peer _ s ps)

piece_at-IsRegular : (index : ℕ) (s : Scheduler) → IsRegular (piece_at index s)
piece_at-IsRegular index s = elim (Option-cases (get same_index index s.pieces)) [
  | inl absent ↦ rw (absent, piece_at) (raises (λ e. cc))
  | inr (p, found) ↦ rw (found, piece_at) (holds tt)
]

block_state-IsRegular : (offset : ℕ) (p : Piece) → IsRegular (block_state offset p)
unfolding block_state
block_state-IsRegular offset p = elim (Option-cases (find_slot offset p.slots)) [
  | inl absent ↦ rw (absent, block_state) (raises (λ e. cc))
  | inr (slot, found) ↦ rw (found, block_state) (holds tt)
]

is_new_claim-IsRegular :
    (count : Option ℤ) (offset : ℕ) (p : Piece) → IsRegular (is_new_claim count offset p)
is_new_claim-IsRegular none offset p = holds tt
is_new_claim-IsRegular (some n) offset p =
    Ensures-bind (block_state-IsRegular offset p) (λ state _. holds tt)

mark_requested-IsRegular :
    (offset : ℕ) (peer : String) (p : Piece) → IsRegular (mark_requested offset peer p)
unfolding mark_requested
mark_requested-IsRegular offset peer p = elim (Option-cases (find_slot offset p.slots)) [
  | inl absent ↦ rw absent (raises (λ e. cc))
  | inr (slot, found) ↦ rw found (holds tt)
]

pub claim-slots :
    (index offset : ℕ) (peer : String) (s : Scheduler)
    → Ensures (λ claimed. claimed.slots ≡ s.slots) Regular (claim index offset peer s)
unfolding claim
claim-slots index offset peer s = Ensures-bind (piece_at-IsRegular index s) (λ p _.
    Ensures-bind (is_new_claim-IsRegular s.unclaimed offset p)
      (λ is_new _. Ensures-bind (mark_requested-IsRegular offset peer p) (λ marked _. holds refl)))

pub construct-request :
    (index begin size : ℕ)
    → Ensures (λ m. m ≡ request index begin size) Regular (construct (request index begin size))
unfolding construct validate_block
construct-request index begin size =
    Ensures-guard (leb 1 size && leb size max_block_size) _ (λ e. cc) (λ _. holds refl)
