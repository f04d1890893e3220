-- ===== src/Download/Scheduler/Lost.antt =====
-- What becomes of the blocks that a lost peer owed.
use peer_stream.Prelude.{
  ℕ, ◌≡◌, refl, sym, ap, subst, ◌∙◌, String, Bool, Bool-cases, inl, inr, true, false, not, ◌&&◌,
  Option-cases, none, some, List, [], ◌∷◌, ◌==◌, ==_iff, if◌then◌else◌, arith,
}
use peer_stream.Prelude.Dicts.{get, get-put, get-remove}
use peer_stream.Prelude.Sets.{contains, discard, contains-discard}
use peer_stream.Download.Block.{Block, BlockState}
use peer_stream.Download.Piece.{
  Piece, Slot, is_nil, is_requested, is_offered, find_slot, change_slot, orphan_slot, mark_orphaned,
}
use peer_stream.Download.Endgame.{BlockKey, same_key}
use peer_stream.Download.Endgame.Tables.{contains-is_nil}
use peer_stream.Download.Pipeline.{clear}
use peer_stream.Download.Scheduler.{
  Scheduler, same_name, same_index, slot_of, with_slot, in_flight_for, size_of, has_key, forget,
  unclaim,
}
use peer_stream.Download.Scheduler.Orphans.{find_slot-change_slot}
use peer_stream.Download.Scheduler.Recall.{give_back, give_back_all, drop_peer}
use text.Mathlib.TextEquality.{eq_iff}

find_slot-change_slot_ne :
    (offset other : ℕ) (change : Slot → Slot) (slots : List Slot)
    → ((x : Slot) → (change x).block ≡ x.block)
    → (other == offset) ≡ false
    → find_slot offset (change_slot other change slots) ≡ find_slot offset slots
find_slot-change_slot_ne offset other change [] keeps apart = refl
find_slot-change_slot_ne offset other change (x ∷ slots) keeps apart = ground (
  arith,
  find_slot-change_slot_ne offset other change slots keeps apart,
  apart,
  ap (λ (b : Block). b.offset) (keeps x),
)

-- The block has this slot.
abbrev HasSlot : BlockKey → Scheduler → Slot → Type 0
HasSlot key s slot =
    (p : Piece) × (get same_index key.0 s.pieces ≡ some p) × (find_slot key.1 p.slots ≡ some slot)

abbrev after_orphan : Bool → String → Slot → Slot
after_orphan same peer slot = if same then orphan_slot peer slot else slot

mark_orphaned-find_slot_any :
    (offset other : ℕ) (peer : String) (p : Piece) (slot : Slot)
    → find_slot offset p.slots ≡ some slot
    → find_slot offset (mark_orphaned other peer p).1.slots
      ≡ some (after_orphan (other == offset) peer slot)
unfolding mark_orphaned
mark_orphaned-find_slot_any offset other peer p slot found = elim (Bool-cases (other == offset)) [
  | inl e ↦
      let there : find_slot other p.slots ≡ some slot =
        ap (λ o. find_slot o p.slots) ((==_iff other offset).0 e) ∙ found in
      rw (e, there)
        (ap (λ o. find_slot offset (change_slot o (orphan_slot peer) p.slots))
            ((==_iff other offset).0 e)
          ∙ find_slot-change_slot offset (orphan_slot peer) p.slots slot (λ x. refl) found)
  | inr e ↦ rw e (elim (Option-cases (find_slot other p.slots)) [
    | inl absent ↦ rw absent found
    | inr (x, there) ↦
        rw there
          (find_slot-change_slot_ne offset other (orphan_slot peer) p.slots (λ y. refl) e ∙ found)
  ])
]

give_back-HasSlot :
    (peer : String) (key other : BlockKey) (s : Scheduler) (slot : Slot)
    → HasSlot key s slot
    → HasSlot key (give_back peer other s) (after_orphan (same_key key other) peer slot)
unfolding unclaim
give_back-HasSlot peer key other s slot (p, known, found) = elim (Bool-cases (key.0 == other.0)) [
  | inl e ↦
      let there : get same_index other.0 s.pieces ≡ some p =
        ap (λ i. get same_index i s.pieces) (sym ((==_iff key.0 other.0).0 e)) ∙ known in
      let q = (mark_orphaned other.1 peer p).1 in
      let turned : (other.1 == key.1) ≡ (key.1 == other.1) = ground arith in
      rw (there, e)
        (
          q,
          get-put same_index ==_iff other.0 key.0 q s.pieces ∙ (rw e refl),
          mark_orphaned-find_slot_any key.1 other.1 peer p slot found
              ∙ ap (λ b. some (after_orphan b peer slot)) turned,
        )
  | inr e ↦ elim (Option-cases (get same_index other.0 s.pieces)) [
    | inl absent ↦ rw (absent, e) (p, known, found)
    | inr (x, there) ↦
        rw (there, e)
          (
            p,
            get-put same_index ==_iff other.0 key.0 (mark_orphaned other.1 peer x).1 s.pieces
                ∙ (rw e known),
            found,
          )
  ]
]

-- Any peer may be given the block of the slot.
abbrev pub IsOpen : Slot → Type 0
IsOpen slot = (is_nil slot.requesters ≡ true) × (slot.state ≡ BlockState.missing)

orphan_slot-IsOpen_again :
    (peer : String) (slot : Slot) → IsOpen slot → IsOpen (orphan_slot peer slot)
unfolding discard
orphan_slot-IsOpen_again peer slot (free, missing) =
    (go slot.requesters free, rw missing (stays (is_nil (discard peer slot.requesters))))
  where
    go : (peers : List String) → is_nil peers ≡ true → is_nil (discard peer peers) ≡ true
    go [] h = refl
    go (q ∷ peers) h = cc

    stays :
        (b : Bool)
        → (if b && false then BlockState.missing else BlockState.missing) ≡ BlockState.missing
    stays true = refl
    stays false = refl

pub orphan_slot-IsOpen :
    (peer : String) (slot : Slot)
    → is_nil (discard peer slot.requesters) ≡ true
    → is_requested slot.state ≡ true
    → IsOpen (orphan_slot peer slot)
orphan_slot-IsOpen peer slot last requested = (last, rw (last, requested) refl)

give_back_all-IsOpen :
    (peer : String) (key : BlockKey) (keys : List BlockKey) (s : Scheduler) (slot : Slot)
    → HasSlot key s slot
    → IsOpen slot
    → (left : Slot) × HasSlot key (give_back_all peer keys s) left × IsOpen left
give_back_all-IsOpen peer key [] s slot has open' = (slot, has, open')
give_back_all-IsOpen peer key (other ∷ keys) s slot has open' =
    give_back_all-IsOpen peer key keys (give_back peer other s)
      (after_orphan (same_key key other) peer slot) (give_back-HasSlot peer key other s slot has)
      (elim (same_key key other) as (λ b. IsOpen (after_orphan b peer slot)) [
        | true ↦ orphan_slot-IsOpen_again peer slot open'
        | false ↦ open'
      ])

give_back_all-frees :
    (peer : String) (key : BlockKey) (keys : List BlockKey) (s : Scheduler) (slot : Slot)
    → HasSlot key s slot
    → is_nil (discard peer slot.requesters) ≡ true
    → is_requested slot.state ≡ true
    → has_key key keys ≡ true
    → (left : Slot) × HasSlot key (give_back_all peer keys s) left × IsOpen left
give_back_all-frees peer key [] s slot has last requested owed = cc
give_back_all-frees peer key (other ∷ keys) s slot has last requested owed =
    let has' = give_back-HasSlot peer key other s slot has in
    elim (Bool-cases (same_key key other)) [
      | inl e ↦
          give_back_all-IsOpen peer key keys (give_back peer other s) (orphan_slot peer slot)
            (subst (λ b. HasSlot key (give_back peer other s) (after_orphan b peer slot)) e has')
            (orphan_slot-IsOpen peer slot last requested)
      | inr e ↦
          give_back_all-frees peer key keys (give_back peer other s) slot
            (subst (λ b. HasSlot key (give_back peer other s) (after_orphan b peer slot)) e has')
            last requested (ground (arith, e, owed))
    ]

IsOpen-is_offered :
    (slot : Slot) → IsOpen slot → (other : String) → is_offered other false slot ≡ true
IsOpen-is_offered slot (free, missing) other = rw (free, missing) (go slot.requesters free)
  where
    go : (peers : List String) → is_nil peers ≡ true → (not (contains other peers) && true) ≡ true
    go [] h = refl
    go (q ∷ peers) h = cc

-- When a peer is dropped, a requested block that it owed, and that no other peer was asked for, is
-- offered again, to every peer and not only in a race; and the peer has no request in flight.
pub drop_peer-is_offered :
    (s : Scheduler) (peer : String) (key : BlockKey) (p : Piece) (slot : Slot)
    → has_key key (clear (slot_of peer s)).0 ≡ true
    → get same_index key.0 s.pieces ≡ some p
    → find_slot key.1 p.slots ≡ some slot
    → is_requested slot.state ≡ true
    → ((q : String) → contains q slot.requesters ≡ true → q ≡ peer)
    → let after = (drop_peer peer s).1 in
      (in_flight_for peer after ≡ 0)
      × (q : Piece) × (get same_index key.0 after.pieces ≡ some q)
      × (left : Slot) × (find_slot key.1 q.slots ≡ some left)
      × ((other : String) → is_offered other false left ≡ true)
unfolding drop_peer forget
drop_peer-is_offered s peer key p slot owed known found requested only =
    let start = with_slot peer (clear (slot_of peer s)).1 s in
    let last = contains-is_nil (discard peer slot.requesters) (λ q. nobody q) in
    let (left, (q, known', found'), open') =
      give_back_all-frees peer key (clear (slot_of peer s)).0 start slot (p, known, found) last
        requested owed in
    (
      ap size_of {y = none} (
          get-remove same_name eq_iff peer peer
            (give_back_all peer (clear (slot_of peer s)).0 start).slots
          ∙ (rw ((eq_iff peer peer).1 refl) refl)),
      q,
      known',
      left,
      found',
      IsOpen-is_offered left open',
    )
  where
    nobody : (q : String) → contains q (discard peer slot.requesters) ≡ false
    nobody q = ground (arith, contains-discard peer q slot.requesters, only q, eq_iff peer q)
