-- ===== src/Peer/Availability/Rarest.antt =====
-- The order of `rarest`.
use peer_stream.Prelude.{
  ℕ, zero, suc, ◌+◌, ◌≤◌, ◌≡◌, refl, ap, subst, ◌∙◌, Bool, Bool-cases, inl, inr, true, false, ◌&&◌,
  ◌||◌, none, List, [], ◌∷◌, length, get_or, ltb, leb, ◌==◌, if◌then◌else◌, arith, ok,
}
use peer_stream.Prelude.Sorting.{insert_by, sort_by}
use peer_stream.Prelude.Int.{ℤ, pos, negsuc}
use peer_stream.Peer.Bitfield.{Bitfield, holds}
use peer_stream.Peer.Availability.{PieceAvailability, candidates_from, is_less, is_rarer, rarest}
use peer_stream.Peer.Availability.Counts.{has-eq-ok}

abbrev pub is_in : ℕ → List ℕ → Bool
is_in i [] = false
is_in i (j ∷ js) = (i == j) || is_in i js

-- The order of the integers
abbrev pub IsAtMost : ℤ → ℤ → Type 0
IsAtMost (pos m) (pos n) = m ≤ n
IsAtMost (pos m) (negsuc n) = ⊥
IsAtMost (negsuc m) (pos n) = Unit
IsAtMost (negsuc m) (negsuc n) = n ≤ m

-- Each piece is held by at most as many peers as the next one, and comes first by its index where
-- they are as many.
abbrev pub InOrder : List ℤ → List ℕ → Type 0
InOrder counts [] = Unit
InOrder counts (i ∷ []) = Unit
InOrder counts (i ∷ j ∷ js) =
    IsAtMost (get_or counts i (pos 0)) (get_or counts j (pos 0))
    × (get_or counts i (pos 0) ≡ get_or counts j (pos 0) → i ≤ j)
    × InOrder counts (j ∷ js)

-- No piece is rarer than the one before it, by the test that the sort uses.
abbrev IsSorted : List ℤ → List ℕ → Type 0
IsSorted counts [] = Unit
IsSorted counts (i ∷ []) = Unit
IsSorted counts (i ∷ j ∷ js) = (is_rarer counts j i ≡ false) × IsSorted counts (j ∷ js)

is_less-IsAtMost : (a b : ℤ) (i j : ℕ) → is_less b j a i ≡ false → IsAtMost a b × (a ≡ b → i ≤ j)
is_less-IsAtMost (pos m) (pos n) i j h = (ground arith, λ e. let same : m ≡ n = cc in ground arith)
is_less-IsAtMost (pos m) (negsuc n) i j h = cc
is_less-IsAtMost (negsuc m) (pos n) i j h = (tt, λ e. cc)
is_less-IsAtMost (negsuc m) (negsuc n) i j h =
    (ground arith, λ e. let same : m ≡ n = cc in ground arith)

IsSorted-InOrder : (counts : List ℤ) (is : List ℕ) → IsSorted counts is → InOrder counts is
IsSorted-InOrder counts [] o = tt
IsSorted-InOrder counts (i ∷ []) o = tt
IsSorted-InOrder counts (i ∷ j ∷ js) (h, o) =
    let (least, first) =
      is_less-IsAtMost (get_or counts i (pos 0)) (get_or counts j (pos 0)) i j h in
    (least, first, IsSorted-InOrder counts (j ∷ js) o)

is_less-asymmetric : (a b : ℤ) (i j : ℕ) → is_less a i b j ≡ true → is_less b j a i ≡ false
is_less-asymmetric (pos m) (pos n) i j h = ground arith
is_less-asymmetric (pos m) (negsuc n) i j h = cc
is_less-asymmetric (negsuc m) (pos n) i j h = refl
is_less-asymmetric (negsuc m) (negsuc n) i j h = ground arith

module _ (counts : List ℤ) where
  insert_rarest-IsSorted :
      (i : ℕ) (js : List ℕ)
      → IsSorted counts js
      → IsSorted counts (insert_by (is_rarer counts) i js)
  insert_rarest-IsSorted i [] o = tt
  insert_rarest-IsSorted i (j ∷ []) o = elim (Bool-cases (is_rarer counts j i)) [
    | inl before ↦
        rw before
          (is_less-asymmetric (get_or counts j (pos 0)) (get_or counts i (pos 0)) j i before, tt)
    | inr behind ↦ rw behind (behind, tt)
  ]
  insert_rarest-IsSorted i (j ∷ k ∷ js) (le, o) = elim (Bool-cases (is_rarer counts j i)) [
    | inl before ↦ rw before (elim (Bool-cases (is_rarer counts k i)) [
      | inl also ↦ rw also (
        le,
        subst
            (λ b. IsSorted counts (if b then k ∷ insert_by (is_rarer counts) i js else i ∷ k ∷ js))
            also (insert_rarest-IsSorted i (k ∷ js) o),
      )
      | inr behind ↦ rw behind (
        is_less-asymmetric (get_or counts j (pos 0)) (get_or counts i (pos 0)) j i before,
        (behind, o),
      )
    ])
    | inr behind ↦ rw behind (behind, (le, o))
  ]

  is_in-insert_rarest :
      (x i : ℕ) (js : List ℕ)
      → is_in x (insert_by (is_rarer counts) i js) ≡ ((x == i) || is_in x js)
  is_in-insert_rarest x i [] = refl
  is_in-insert_rarest x i (j ∷ js) = elim (Bool-cases (is_rarer counts j i)) [
    | inl before ↦ rw before (ground (arith, is_in-insert_rarest x i js))
    | inr behind ↦ rw behind refl
  ]

  sort_rarest-IsSorted : (is : List ℕ) → IsSorted counts (sort_by (is_rarer counts) is)
  sort_rarest-IsSorted [] = tt
  sort_rarest-IsSorted (i ∷ is) =
      insert_rarest-IsSorted i (sort_by (is_rarer counts) is) (sort_rarest-IsSorted is)

  is_in-sort_rarest : (x : ℕ) (is : List ℕ) → is_in x (sort_by (is_rarer counts) is) ≡ is_in x is
  is_in-sort_rarest x [] = refl
  is_in-sort_rarest x (i ∷ is) =
      is_in-insert_rarest x i (sort_by (is_rarer counts) is)
      ∙ ap (λ b. (x == i) || b) (is_in-sort_rarest x is)

pub candidates_from-eq-ok :
    (wanted : Bitfield) (index more : ℕ)
    → index + more ≤ wanted.piece_count
    → (is : List ℕ) × (candidates_from wanted index more ≡ ok is)
      × ((x : ℕ) → is_in x is ≡ (leb index x && (ltb x (index + more) && holds wanted x)))
unfolding candidates_from
candidates_from-eq-ok wanted index zero inside = ([], refl, λ x. ground arith)
candidates_from-eq-ok wanted index (suc more) inside =
    let (is, rest, members) = candidates_from-eq-ok wanted (suc index) more (omega arith) in
    (
      if holds wanted index then index ∷ is else is,
      rw (has-eq-ok wanted index (omega arith), rest) refl,
      λ x. ground (arith, members x, ap (holds wanted) {x = x} {y = index}),
    )

-- Where the wanted pieces are a field of the size of the torrent, `rarest` without a limit succeeds: it
-- gives exactly the wanted pieces, rarest first: each is held by at most as many peers as the next
-- one, and has no larger index where they are as many.
pub rarest-InOrder :
    (wanted : Bitfield) (a : PieceAvailability)
    → wanted.piece_count ≡ length a.counts
    → (is : List ℕ) × (rarest wanted none a ≡ ok is)
      × InOrder a.counts is
      × ((index : ℕ) → is_in index is ≡ (ltb index wanted.piece_count && holds wanted index))
unfolding rarest
rarest-InOrder wanted a same =
    let (is, found, members) = candidates_from-eq-ok wanted 0 (length a.counts) (omega arith) in
    (
      sort_by (is_rarer a.counts) is,
      rw found refl,
      IsSorted-InOrder a.counts (sort_by (is_rarer a.counts) is) (sort_rarest-IsSorted a.counts is),
      λ index. is_in-sort_rarest a.counts index is ∙ members index ∙ (ground arith),
    )
