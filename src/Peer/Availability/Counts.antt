-- ===== src/Peer/Availability/Counts.antt =====
-- What a peer's pieces do to the counts.
use peer_stream.Prelude.{
  zero-add, ℕ, zero, suc, ◌+◌, ◌≤◌, ◌<◌, ◌≡◌, refl, sym, ap, ◌∙◌, Bool, Bool-cases, inl, inr, true,
  Option, none, some, List, [], ◌∷◌, length, get_elem?, lt→ltb, ◌==◌, ==_iff, if◌then◌else◌, arith,
  ok,
}
use peer_stream.Prelude.Int.{ℤ, pos, negsuc}
use peer_stream.Peer.Bitfield.{Bitfield, has, holds, check}
use peer_stream.Peer.Availability.{
  PieceAvailability, increase, decrease, apply_from, apply_field, add_field, remove_field,
}

-- The count of a piece after a change for a field.
abbrev pub changed : Bool → (ℤ → ℤ) → Option ℤ → Option ℤ
changed held change none = none
changed held change (some c) = some (if held then change c else c)

decrease-increase : (c : ℤ) → decrease (increase c) ≡ c
decrease-increase (pos n) = refl
decrease-increase (negsuc zero) = refl
decrease-increase (negsuc (suc n)) = refl

pub has-eq-ok :
    (field : Bitfield) (index : ℕ)
    → index < field.piece_count
    → has field index ≡ ok (holds field index)
unfolding has check
has-eq-ok field index inside = (let e = lt→ltb index field.piece_count inside in rw e refl)

module _ (field : Bitfield) where
  -- The counts after a change, without the checks.
  after : (ℤ → ℤ) → ℕ → List ℤ → List ℤ
  after change index [] = []
  after change index (c ∷ counts) =
      (if holds field index then change c else c) ∷ after change (suc index) counts

  apply_from-eq-ok :
      (change : ℤ → ℤ) (index : ℕ) (counts : List ℤ)
      → index + length counts ≤ field.piece_count
      → apply_from field change index counts ≡ ok (after change index counts)
  unfolding apply_from after
  apply_from-eq-ok change index [] inside = refl
  apply_from-eq-ok change index (c ∷ counts) inside =
      rw
        (
          has-eq-ok field index (omega arith),
          apply_from-eq-ok change (suc index) counts (omega arith),
        )
        refl

  length-after :
      (change : ℤ → ℤ) (index : ℕ) (counts : List ℤ)
      → length (after change index counts) ≡ length counts
  unfolding after
  length-after change index [] = refl
  length-after change index (c ∷ counts) = ap suc (length-after change (suc index) counts)

  after-after :
      (index : ℕ) (counts : List ℤ) → after decrease index (after increase index counts) ≡ counts
  unfolding after
  after-after index [] = refl
  after-after index (c ∷ counts) = elim (Bool-cases (holds field index)) [
    | inl held ↦ rw (held, decrease-increase c, after-after (suc index) counts) refl
    | inr lacking ↦ rw (lacking, after-after (suc index) counts) refl
  ]

  get_elem?-after :
      (change : ℤ → ℤ) (index i : ℕ) (counts : List ℤ)
      → get_elem? (after change index counts) i
        ≡ changed (holds field (index + i)) change (get_elem? counts i)
  unfolding after
  get_elem?-after change index i [] = refl
  get_elem?-after change index zero (c ∷ counts) =
      let e : index ≡ index + zero = omega arith in
      ap (λ n. some (if holds field n then change c else c)) e
  get_elem?-after change index (suc i) (c ∷ counts) =
      let e : suc index + i ≡ index + suc i = omega arith in
      get_elem?-after change (suc index) i counts
      ∙ ap (λ n. changed (holds field n) change (get_elem? counts i)) e

  apply_field-eq-ok :
      (change : ℤ → ℤ) (counts : List ℤ)
      → field.piece_count ≡ length counts
      → apply_field field change record { counts = counts }
        ≡ ok record { counts = after change 0 counts }
  unfolding apply_field
  apply_field-eq-ok change counts same =
      let e : (field.piece_count == length counts) ≡ true = (==_iff _ _).1 same in
      rw (e, apply_from-eq-ok change 0 counts (omega arith)) refl

  -- Where the field is of the size of the torrent, adding a peer's pieces succeeds and raises by one the
  -- count of exactly the pieces that the peer holds, and removing them gives the counts from before.
  pub remove_field-add_field :
      (a : PieceAvailability)
      → field.piece_count ≡ length a.counts
      → (b : PieceAvailability) × (add_field field a ≡ ok b)
        × ((index : ℕ)
            → get_elem? b.counts index
              ≡ changed (holds field index) increase (get_elem? a.counts index))
        × (remove_field field b ≡ ok a)
  unfolding after
  remove_field-add_field a same = (
    record { counts = after increase 0 a.counts },
    apply_field-eq-ok increase a.counts same,
    λ index.
        get_elem?-after increase 0 index a.counts
        ∙ ap (λ n. changed (holds field n) increase (get_elem? a.counts index)) (zero-add index),
    apply_field-eq-ok decrease (after increase 0 a.counts)
          (same ∙ sym (length-after increase 0 a.counts))
        ∙ ap (λ x. ok record { counts = x }) (after-after 0 a.counts),
  )
