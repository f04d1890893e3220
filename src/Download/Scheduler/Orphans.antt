-- ===== src/Download/Scheduler/Orphans.antt =====
-- What becomes of a raced block when its requests are given up one by one.
use peer_stream.Prelude.{
  ℕ, ◌≡◌, ◌≢◌, ◌⊎◌, inl, inr, refl, ap, ◌∙◌, String, Bool-cases, true, false, Option, none, some,
  List, [], ◌∷◌, ◌==◌, ==_iff, arith,
}
use peer_stream.Prelude.Dicts.{get, get-put, get-remove}
use peer_stream.Prelude.Sets.{contains, discard, contains-discard}
use peer_stream.Peer.Availability.{increase}
use peer_stream.Download.Block.{Block, BlockState}
use peer_stream.Download.Piece.{
  Piece, Slot, is_nil, is_missing, is_requested, is_offered, find_slot, change_slot, orphan_slot,
  mark_orphaned,
}
use peer_stream.Download.Endgame.{BlockKey, same_key, fetchers, or_empty, note_lost}
use peer_stream.Download.Endgame.Fetching.{same_key-IsEquality}
use peer_stream.Download.Endgame.Tables.{is_nil-contains, contains-is_nil}
use peer_stream.Download.Scheduler.{Scheduler, same_index, adjust, unclaim}
use peer_stream.Download.Scheduler.Recall.{note_orphaned}
use text.Mathlib.TextEquality.{eq_iff}

pub find_slot-change_slot :
    (offset : ℕ) (change : Slot → Slot) (slots : List Slot) (s : Slot)
    → ((x : Slot) → (change x).block ≡ x.block)
    → find_slot offset slots ≡ some s
    → find_slot offset (change_slot offset change slots) ≡ some (change s)
find_slot-change_slot offset change [] s keeps h = cc
find_slot-change_slot offset change (x ∷ slots) s keeps h =
    elim (Bool-cases (x.block.offset == offset)) [
      | inl e ↦
          let here : ((change x).block.offset == offset) ≡ true =
            ap (λ (b : Block). b.offset == offset) (keeps x) ∙ e in
          let same : x ≡ s =
            ap (λ (o : Option Slot). elim o [ none ↦ x | some y ↦ y ]) (rw e at h) in
          rw (e, here) (ap (λ y. some (change y)) same)
      | inr e ↦ rw e (rw e (find_slot-change_slot offset change slots s keeps (rw e at h)))
    ]

-- Giving up a request while another peer fetches the block leaves the pieces as they are.
raced-note_orphaned :
    (s : Scheduler) (key : BlockKey) (a : String) (peers : List String)
    → get same_key key s.endgame.fetching ≡ some peers
    → is_nil (discard a peers) ≡ false
    → ((note_orphaned a key s).1.pieces ≡ s.pieces)
      × (get same_key key (note_orphaned a key s).1.endgame.fetching ≡ some (discard a peers))
unfolding note_orphaned note_lost
raced-note_orphaned s key a peers tracked others =
    rw (tracked, others)
      (
        refl,
        get-put same_key same_key-IsEquality key key (discard a peers) s.endgame.fetching
            ∙ (rw ((same_key-IsEquality key key).1 refl) refl),
      )

-- Giving up the last request gives the block back, for the peer alone that is given up.
pub last-note_orphaned :
    (s : Scheduler) (key : BlockKey) (b : String) (peers : List String) (p : Piece)
    → get same_key key s.endgame.fetching ≡ some peers
    → is_nil (discard b peers) ≡ true
    → get same_index key.0 s.pieces ≡ some p
    → (get same_index key.0 (note_orphaned b key s).1.pieces ≡ some (mark_orphaned key.1 b p).1)
      × (fetchers key (note_orphaned b key s).1.endgame ≡ [])
      × ((note_orphaned b key s).1.unclaimed
          ≡ adjust increase (mark_orphaned key.1 b p).0 s.unclaimed)
unfolding note_orphaned note_lost unclaim
last-note_orphaned s key b peers p tracked last known =
    rw (tracked, last, known)
      (
        get-put same_index ==_iff key.0 key.0 (mark_orphaned key.1 b p).1 s.pieces
            ∙ (rw ((==_iff key.0 key.0).1 refl) refl),
        ap or_empty {y = none} (
            get-remove same_key same_key-IsEquality key key s.endgame.fetching
            ∙ (rw ((same_key-IsEquality key key).1 refl) refl)),
        refl,
      )

-- A slot of which a peer is given up, while another one stands among its requesters.
orphan_slot-kept :
    (a b : String) (s : Slot)
    → a ≢ b
    → contains a s.requesters ≡ true
    → is_requested s.state ≡ true
    → ((orphan_slot b s).state ≡ s.state) × (contains a (orphan_slot b s).requesters ≡ true)
orphan_slot-kept a b s other asked requested =
    let left : contains a (discard b s.requesters) ≡ true =
      ground (arith, contains-discard b a s.requesters, eq_iff b a, other, asked) in
    let busy : is_nil (discard b s.requesters) ≡ false =
      elim (Bool-cases (is_nil (discard b s.requesters))) [
        | inl e ↦ absurd (cc (is_nil-contains (discard b s.requesters) e a, left))
        | inr e ↦ e
      ] in
    (rw busy refl, left)

is_requested-is_missing :
    (state : BlockState) → is_requested state ≡ true → is_missing state ≡ false
is_requested-is_missing BlockState.missing h = cc
is_requested-is_missing BlockState.requested h = refl
is_requested-is_missing BlockState.received h = cc

-- No peer is offered the block of the slot but in a race, and the peer not even then.
abbrev pub IsWithheld : String → Slot → Type 0
IsWithheld a s =
    (is_missing s.state ≡ false)
    × ((q : String) → is_offered q false s ≡ false)
    × (is_offered a true s ≡ false)

requested-IsWithheld :
    (a : String) (s : Slot)
    → is_requested s.state ≡ true
    → contains a s.requesters ≡ true
    → IsWithheld a s
requested-IsWithheld a s requested asked =
    let busy : is_nil s.requesters ≡ false = elim (Bool-cases (is_nil s.requesters)) [
      | inl e ↦ absurd (cc (is_nil-contains s.requesters e a, asked))
      | inr e ↦ e
    ] in
    (is_requested-is_missing s.state requested, λ q. ground (arith, busy), ground (arith, asked))

pub mark_orphaned-find_slot :
    (offset : ℕ) (b : String) (p : Piece) (slot : Slot)
    → find_slot offset p.slots ≡ some slot
    → find_slot offset (mark_orphaned offset b p).1.slots ≡ some (orphan_slot b slot)
unfolding mark_orphaned
mark_orphaned-find_slot offset b p slot found =
    rw found (find_slot-change_slot offset (orphan_slot b) p.slots slot (λ x. refl) found)

-- A requested block that two peers race for, and no third one: when the requests of both are given
-- up, one after the other, nobody is fetching the block any more, and still it is not missing again.
-- It is offered to no peer unless in a race, and to the first of the two not even then.
pub note_orphaned-IsWithheld :
    (s : Scheduler) (key : BlockKey) (a b : String) (peers : List String) (p : Piece) (slot : Slot)
    → a ≢ b
    → get same_key key s.endgame.fetching ≡ some peers
    → contains b peers ≡ true
    → ((q : String) → contains q peers ≡ true → (q ≡ a) ⊎ (q ≡ b))
    → get same_index key.0 s.pieces ≡ some p
    → find_slot key.1 p.slots ≡ some slot
    → is_requested slot.state ≡ true
    → contains a slot.requesters ≡ true
    → let after = (note_orphaned b key (note_orphaned a key s).1).1 in
      (fetchers key after.endgame ≡ [])
      × (q : Piece) × (get same_index key.0 after.pieces ≡ some q)
      × (left : Slot) × (find_slot key.1 q.slots ≡ some left)
      × IsWithheld a left
note_orphaned-IsWithheld s key a b peers p slot other tracked second two known found requested
      asked =
    let more : is_nil (discard a peers) ≡ false = elim (Bool-cases (is_nil (discard a peers))) [
      | inl e ↦ absurd (
          ground (
            arith,
            is_nil-contains (discard a peers) e b,
            contains-discard a b peers,
            second,
            eq_iff a b,
            other,
          ))
      | inr e ↦ e
    ] in
    let (pieces, tracked') = raced-note_orphaned s key a peers tracked more in
    let last : is_nil (discard b (discard a peers)) ≡ true =
      contains-is_nil (discard b (discard a peers)) (λ q. nobody q) in
    let (known', free, _) =
      last-note_orphaned (note_orphaned a key s).1 key b (discard a peers) p tracked' last
        (ap (get same_index key.0) pieces ∙ known) in
    let (state, kept) = orphan_slot-kept a b slot other asked requested in
    (
      free,
      (mark_orphaned key.1 b p).1,
      known',
      orphan_slot b slot,
      orphaned_slot,
      requested-IsWithheld a (orphan_slot b slot) (ap is_requested state ∙ requested) kept,
    )
  where
    nobody : (q : String) → contains q (discard b (discard a peers)) ≡ false
    nobody q = ground (
      arith,
      contains-discard b q (discard a peers),
      contains-discard a q peers,
      two q,
      eq_iff b q,
      eq_iff a q,
    )

    orphaned_slot : find_slot key.1 (mark_orphaned key.1 b p).1.slots ≡ some (orphan_slot b slot)
    orphaned_slot = mark_orphaned-find_slot key.1 b p slot found
