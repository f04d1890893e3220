-- ===== src/Download/Scheduler/Planning/Due.antt =====
-- A pass keeps the count exact, and asks for what is due.
use peer_stream.Prelude.{
  ℕ, ◌≡◌, refl, sym, ap, subst, ◌∙◌, String, Bool-cases, inl, inr, false, Option, none, some, List,
  [], ◌∷◌, ◌==◌, ==_iff, if◌then◌else◌, Result, ok, err, arith,
}
use peer_stream.Prelude.Dicts.{get, put, get-put}
use peer_stream.Prelude.Sets.{contains, contains-insert}
use peer_stream.Prelude.Sorting.{In}
use peer_stream.Download.Block.{Block, BlockState}
use peer_stream.Download.Piece.{
  PieceState, Piece, Slot, is_received, is_missing, is_verified, finished, change_slot,
  mark_requested, request_slot, after_request,
}
use peer_stream.Download.Pipeline.{PeerView}
use peer_stream.Download.Scheduler.{Scheduler, same_index}
use peer_stream.Download.Scheduler.Accounting.Claims.{mark_requested-find_slot}
use peer_stream.Download.Scheduler.Planning.Offers.{IsOffer}

-- A slot later on: the same block, received or not as before, and no peer less.
pub record IsLater (before after : Slot) : Type 0 where
  pub block : after.block ≡ before.block
  pub received : is_received after.state ≡ is_received before.state
  pub asked :
      (x : String) → contains x after.requesters ≡ false → contains x before.requesters ≡ false

IsLater-refl : (s : Slot) → IsLater s s
IsLater-refl s = record { block = refl; received = refl; asked = λ x h. h }

-- The slots later on.
abbrev pub AreLater : List Slot → List Slot → Type 0
AreLater before after =
    (slot : Slot) → In slot after → (old : Slot) × In old before × IsLater old slot

pub record IsLaterPiece (before after : Piece) : Type 0 where
  pub undone : finished after ≡ false → finished before ≡ false
  pub slots : AreLater before.slots after.slots

-- The pieces later on.
abbrev pub Follows : List (ℕ × Piece) → List (ℕ × Piece) → Type 0
Follows before after =
    (index : ℕ) (p : Piece)
    → get same_index index after ≡ some p
    → (old : Piece) × (get same_index index before ≡ some old) × IsLaterPiece old p

IsLaterPiece-refl : (p : Piece) → IsLaterPiece p p
IsLaterPiece-refl p = record {
  undone = λ h. h;
  slots = λ slot inside. (slot, inside, IsLater-refl slot);
}

pub Follows-refl : (pieces : List (ℕ × Piece)) → Follows pieces pieces
Follows-refl pieces index p found = (p, found, IsLaterPiece-refl p)

pub Follows-trans : (a b c : List (ℕ × Piece)) → Follows a b → Follows b c → Follows a c
Follows-trans a b c f g index p found =
    let (q, there, later) = g index p found in
    let (r, first, earlier) = f index q there in
    (
      r,
      first,
      record {
        undone = λ h. earlier.undone (later.undone h);
        slots = λ slot inside.
            let (s, in_s, step) = later.slots slot inside in
            let (t, in_t, step') = earlier.slots s in_s in
            (
              t,
              in_t,
              record {
                block = step.block ∙ step'.block;
                received = step.received ∙ step'.received;
                asked = λ x h. step'.asked x (step.asked x h);
              },
            );
      },
    )

request_slot-IsLater : (peer : String) (s : Slot) → IsLater s (request_slot peer s)
request_slot-IsLater peer s = record {
  block = refl;
  received = go s.state;
  asked = λ x h. ground (arith, contains-insert peer x s.requesters, h);
}
  where
    go :
        (state : BlockState)
        → is_received (if is_missing state then BlockState.requested else state) ≡ is_received state
    go BlockState.missing = refl
    go BlockState.requested = refl
    go BlockState.received = refl

change_slot-AreLater :
    (offset : ℕ) (peer : String) (slots : List Slot)
    → AreLater slots (change_slot offset (request_slot peer) slots)
change_slot-AreLater offset peer [] slot inside = absurd inside
change_slot-AreLater offset peer (x ∷ slots) slot inside =
    elim (Bool-cases (x.block.offset == offset)) [
      | inl e ↦ here (rw e at inside)
      | inr e ↦ there (change_slot-AreLater offset peer slots slot) (rw e at inside)
    ]
  where
    here :
        In slot (request_slot peer x ∷ slots) → (old : Slot) × In old (x ∷ slots) × IsLater old slot
    here (inl same) = (x, inl refl, subst (IsLater x) (sym same) (request_slot-IsLater peer x))
    here (inr inside') = (slot, inr inside', IsLater-refl slot)

    there :
        (In slot (change_slot offset (request_slot peer) slots)
          → (old : Slot) × In old slots × IsLater old slot)
        → In slot (x ∷ change_slot offset (request_slot peer) slots)
        → (old : Slot) × In old (x ∷ slots) × IsLater old slot
    there ih (inl same) = (slot, inl same, IsLater-refl slot)
    there ih (inr inside') = let (old, before, later) = ih inside' in (old, inr before, later)

after_request-undone :
    (state : PieceState) → is_verified (after_request state) ≡ false → is_verified state ≡ false
after_request-undone PieceState.missing h = refl
after_request-undone PieceState.requested h = refl
after_request-undone PieceState.downloading h = refl
after_request-undone PieceState.downloaded h = refl
after_request-undone PieceState.verifying h = refl
after_request-undone PieceState.verified h = cc
after_request-undone PieceState.failed h = refl

pub mark_requested-IsLaterPiece :
    (offset : ℕ) (peer : String) (p q : Piece)
    → mark_requested offset peer p ≡ ok q
    → IsLaterPiece p q
unfolding mark_requested finished
mark_requested-IsLaterPiece offset peer p q marked =
    let (s, found) = mark_requested-find_slot offset peer p q marked in
    let result : Piece = record p {
      slots = change_slot offset (request_slot peer) p.slots;
      state = after_request p.state;
    } in
    let known : mark_requested offset peer p ≡ ok result = rw found refl in
    subst (IsLaterPiece p)
      (ap (λ (r : Result Piece). elim r [ ok x ↦ x | err _ ↦ p ]) (sym known ∙ marked))
      (record {
        undone = after_request-undone p.state;
        slots = change_slot-AreLater offset peer p.slots;
      })

pub put-Follows :
    (index : ℕ) (p q : Piece) (pieces : List (ℕ × Piece))
    → get same_index index pieces ≡ some p
    → IsLaterPiece p q
    → Follows pieces (put same_index index q pieces)
put-Follows index p q pieces found later i x there = elim (Bool-cases (i == index)) [
  | inl e ↦
      let same : q ≡ x =
        ap (λ (o : Option Piece). elim o [ none ↦ q | some y ↦ y ])
          (rw (get-put same_index ==_iff index i q pieces, e) at there) in
      (
        p,
        ap (λ j. get same_index j pieces) ((==_iff i index).0 e) ∙ found,
        subst (IsLaterPiece p) same later,
      )
  | inr e ↦ Follows-refl pieces i x (rw (get-put same_index ==_iff index i q pieces, e) at there)
]

-- An offer is an offer at an earlier state of the pieces.
pub IsOffer-earlier :
    (before after : Scheduler) (peer : PeerView) (block : Block)
    → Follows before.pieces after.pieces
    → IsOffer after peer block
    → IsOffer before peer block
IsOffer-earlier before after peer block follows offer =
    let (p, known, later) = follows block.index offer.piece offer.known in
    let (slot, inside, step) = later.slots offer.slot offer.inside in
    record {
      piece = p;
      slot = slot;
      known = known;
      undone = later.undone offer.undone;
      held = offer.held;
      inside = inside;
      itself = sym step.block ∙ offer.itself;
      unreceived = sym step.received ∙ offer.unreceived;
      unasked = step.asked peer.key offer.unasked;
    }
