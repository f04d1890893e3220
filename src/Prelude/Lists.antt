-- ===== src/Prelude/Lists.antt =====
-- Lists measured and indexed by native numbers, under the library's names.
use Prim.Native.Nat.{ℕ, zero, suc, ◌+◌, ◌-◌, ◌≤◌, ◌<◌, min}
use mathlib.Core.Path.{◌≡◌, refl, sym, ap, ◌∙◌}
use native.Mathlib.Nat.{zero-add}
use mathlib.Core.Logic.{◌≢◌}
use mathlib.Core.Bool.{Bool, true, false}
use peer_stream.Prelude.Tests.{if◌then◌else◌, ◌==◌, Bool-cases}
use mathlib.Core.Logic.{inl, inr}
use native.Mathlib.Decide.{ℕ_discrete}
use mathlib.Core.List.{List, [], ◌∷◌, ◌++◌, map}
use mathlib.Core.Option.{Option, none, some}
use native.Mathlib.Omega.{arith}

module _ {ℓ} {A : Type ℓ} where
  abbrev pub length : List A → ℕ
  length [] = 0
  length (x ∷ xs) = suc (length xs)

  abbrev pub get_elem? : List A → ℕ → Option A
  get_elem? [] i = none
  get_elem? (x ∷ xs) zero = some x
  get_elem? (x ∷ xs) (suc i) = get_elem? xs i

  -- A write out of bounds changes nothing.
  abbrev pub set : List A → ℕ → A → List A
  set [] i v = []
  set (x ∷ xs) zero v = v ∷ xs
  set (x ∷ xs) (suc i) v = x ∷ set xs i v

  pub length-append : (xs ys : List A) → length (xs ++ ys) ≡ length xs + length ys
  length-append [] ys = omega arith
  length-append (x ∷ xs) ys = omega (arith, length-append xs ys)

module _ {ℓ} {A : Type ℓ} where
  pub length-set : (xs : List A) (i : ℕ) (v : A) → length (set xs i v) ≡ length xs
  length-set [] i v = refl
  length-set (x ∷ xs) zero v = refl
  length-set (x ∷ xs) (suc i) v = ap suc (length-set xs i v)

  pub get_elem?-set_self :
      (xs : List A) (i : ℕ) (v : A) → i < length xs → get_elem? (set xs i v) i ≡ some v
  get_elem?-set_self [] i v h = elim h [ ]
  get_elem?-set_self (x ∷ xs) zero v h = refl
  get_elem?-set_self (x ∷ xs) (suc i) v h = get_elem?-set_self xs i v (omega arith)

  pub get_elem?-set_ne :
      (xs : List A) {i j : ℕ} (v : A) → i ≢ j → get_elem? (set xs i v) j ≡ get_elem? xs j
  get_elem?-set_ne [] v h = refl
  get_elem?-set_ne (x ∷ xs) {i = zero} {j = zero} v h = absurd (h refl)
  get_elem?-set_ne (x ∷ xs) {i = zero} {j = suc j} v h = refl
  get_elem?-set_ne (x ∷ xs) {i = suc i} {j = zero} v h = refl
  get_elem?-set_ne (x ∷ xs) {i = suc i} {j = suc j} v h = get_elem?-set_ne xs v (λ e. h (ap suc e))

module _ {ℓ} {A : Type ℓ} where
  abbrev pub get_or : List A → ℕ → A → A
  get_or [] i d = d
  get_or (x ∷ xs) zero d = x
  get_or (x ∷ xs) (suc i) d = get_or xs i d

  abbrev pub take : ℕ → List A → List A
  take zero xs = []
  take (suc n) [] = []
  take (suc n) (x ∷ xs) = x ∷ take n xs

  abbrev pub drop : ℕ → List A → List A
  drop zero xs = xs
  drop (suc n) [] = []
  drop (suc n) (x ∷ xs) = drop n xs

  abbrev pub replicate : ℕ → A → List A
  replicate zero a = []
  replicate (suc n) a = a ∷ replicate n a

  pub take-append-drop : (n : ℕ) (xs : List A) → take n xs ++ drop n xs ≡ xs
  take-append-drop zero xs = refl
  take-append-drop (suc n) [] = refl
  take-append-drop (suc n) (x ∷ xs) = rw (take-append-drop n xs)

  pub length-take : (n : ℕ) (xs : List A) → length (take n xs) ≡ min n (length xs)
  length-take zero xs = omega arith
  length-take (suc n) [] = omega arith
  length-take (suc n) (x ∷ xs) = omega (arith, length-take n xs)

  pub length-drop : (n : ℕ) (xs : List A) → length (drop n xs) ≡ length xs - n
  length-drop zero xs = omega arith
  length-drop (suc n) [] = omega arith
  length-drop (suc n) (x ∷ xs) = omega (arith, length-drop n xs)

  pub length-replicate : (n : ℕ) (a : A) → length (replicate n a) ≡ n
  length-replicate zero a = refl
  length-replicate (suc n) a = ap suc (length-replicate n a)

  pub length-map {κ} : {B : Type κ} (xs : List A) (f : A → B) → length (map f xs) ≡ length xs
  length-map [] f = refl
  length-map (x ∷ xs) f = ap suc (length-map xs f)

pub nil_of_length {ℓ} : {A : Type ℓ} (xs : List A) → length xs ≡ 0 → xs ≡ []
nil_of_length [] h = refl
nil_of_length (x ∷ xs) h = absurd (omega arith)

abbrev pub All {ℓ κ} : {A : Type ℓ} → (A → Type κ) → List A → Type κ
All P [] = Unit
All P (x ∷ xs) = P x × All P xs

module _ {ℓ} {A : Type ℓ} where
  pub take_append : (xs ys : List A) (n : ℕ) → n ≡ length xs → take n (xs ++ ys) ≡ xs
  take_append [] ys zero h = refl
  take_append [] ys (suc n) h = absurd (omega arith)
  take_append (x ∷ xs) ys zero h = absurd (omega arith)
  take_append (x ∷ xs) ys (suc n) h = ap (λ r. x ∷ r) (take_append xs ys n (omega arith))

  pub drop_append : (xs ys : List A) (n : ℕ) → n ≡ length xs → drop n (xs ++ ys) ≡ ys
  drop_append [] ys zero h = refl
  drop_append [] ys (suc n) h = absurd (omega arith)
  drop_append (x ∷ xs) ys zero h = absurd (omega arith)
  drop_append (x ∷ xs) ys (suc n) h = drop_append xs ys n (omega arith)

  pub take_all : (xs : List A) (n : ℕ) → length xs ≤ n → take n xs ≡ xs
  take_all [] zero h = refl
  take_all [] (suc n) h = refl
  take_all (x ∷ xs) zero h = absurd (omega arith)
  take_all (x ∷ xs) (suc n) h = ap (λ r. x ∷ r) (take_all xs n (omega arith))

  pub drop-nil : (n : ℕ) → drop {A = A} n [] ≡ []
  drop-nil zero = refl
  drop-nil (suc n) = refl

  pub drop-drop : (m n : ℕ) (xs : List A) → drop m (drop n xs) ≡ drop (n + m) xs
  drop-drop m zero xs = rw zero-add
  drop-drop m (suc n) [] = drop-nil m ∙ sym (drop-nil (suc n + m))
  drop-drop m (suc n) (x ∷ xs) =
      let e : suc (n + m) ≡ suc n + m = omega arith in
      drop-drop m n xs ∙ ap (λ k. drop k (x ∷ xs)) e

  -- `[x for x in xs if test(x)]`
  abbrev pub filter : (A → Bool) → List A → List A
  filter test [] = []
  filter test (x ∷ xs) = let rest = filter test xs in if test x then x ∷ rest else rest

-- `range(start, start + count)`
abbrev pub range_from : ℕ → ℕ → List ℕ
range_from start zero = []
range_from start (suc count) = start ∷ range_from (start + 1) count

module _ {ℓ} {A : Type ℓ} where
  pub get_or_past : (xs : List A) (i : ℕ) (d : A) → length xs ≤ i → get_or xs i d ≡ d
  get_or_past [] i d h = refl
  get_or_past (x ∷ xs) zero d h = absurd (omega arith)
  get_or_past (x ∷ xs) (suc i) d h = get_or_past xs i d (omega arith)

  pub get_or-set :
      (xs : List A) (i j : ℕ) (v d : A)
      → i < length xs
      → get_or (set xs i v) j d ≡ (if i == j then v else get_or xs j d)
  get_or-set [] i j v d h = absurd (omega arith)
  get_or-set (x ∷ xs) zero zero v d h = refl
  get_or-set (x ∷ xs) zero (suc j) v d h = ground arith
  get_or-set (x ∷ xs) (suc i) zero v d h = ground arith
  get_or-set (x ∷ xs) (suc i) (suc j) v d h = ground (arith, get_or-set xs i j v d (omega arith))

pub get_or-take {ℓ} :
    {A : Type ℓ} (n i : ℕ) (xs : List A) (d : A) → i < n → get_or (take n xs) i d ≡ get_or xs i d
get_or-take zero i xs d h = absurd (omega arith)
get_or-take (suc n) i [] d h = refl
get_or-take (suc n) zero (x ∷ xs) d h = refl
get_or-take (suc n) (suc i) (x ∷ xs) d h = get_or-take n i xs d (omega arith)

pub range_from-add :
    (start m n : ℕ) → range_from start (m + n) ≡ range_from start m ++ range_from (start + m) n
range_from-add start zero n =
    let same : start ≡ start + zero = omega arith in rw zero-add (ap (λ s. range_from s n) same)
range_from-add start (suc m) n =
    let first : suc m + n ≡ suc (m + n) = omega arith in
    let moved : start + 1 + m ≡ start + suc m = omega arith in
    ap (range_from start) first
    ∙ ap (λ r. start ∷ r)
        (range_from-add (start + 1) m n
          ∙ ap (λ s. range_from (start + 1) m ++ range_from s n) moved)

module _ {ℓ} {A : Type ℓ} (test : A → Bool) where
  pub filter-append : (xs ys : List A) → filter test (xs ++ ys) ≡ filter test xs ++ filter test ys
  filter-append [] ys = refl
  filter-append (x ∷ xs) ys = ground (arith, filter-append xs ys)

  pub length-filter-le : (xs : List A) → length (filter test xs) ≤ length xs
  length-filter-le [] = omega arith
  length-filter-le (x ∷ xs) = ground (arith, length-filter-le xs)

pub length-range_from : (start count : ℕ) → length (range_from start count) ≡ count
length-range_from start zero = refl
length-range_from start (suc count) = ap suc (length-range_from (start + 1) count)

-- Nothing is kept where the test fails throughout.
pub filter-range_from_none :
    (test : ℕ → Bool) (start count : ℕ)
    → ((i : ℕ) → start ≤ i → test i ≡ false)
    → filter test (range_from start count) ≡ []
filter-range_from_none test start zero h = refl
filter-range_from_none test start (suc count) h =
    rw (h start (omega arith))
      (filter-range_from_none test (start + 1) count (λ i le. h i (omega arith)))

-- Everything is kept exactly where the test passes throughout.
pub length-filter-range_from_all :
    (test : ℕ → Bool) (start count : ℕ)
    → length (filter test (range_from start count)) ≡ count
    → (i : ℕ) → start ≤ i
    → i < start + count
    → test i ≡ true
length-filter-range_from_all test start zero h i lo hi = absurd (omega arith)
length-filter-range_from_all test start (suc count) h i lo hi = elim (Bool-cases (test start)) [
  | inl kept ↦
      let rest : length (filter test (range_from (start + 1) count)) ≡ count =
        omega (arith, rw kept at h) in
      elim (ℕ_discrete start i) [
        | yes first ↦ rw (← first) kept
        | no later ↦
            length-filter-range_from_all test (start + 1) count rest i (omega arith) (omega arith)
      ]
  | inr dropped ↦ absurd (
      omega (
        arith,
        rw dropped at h,
        length-filter-le test (range_from (start + 1) count),
        length-range_from (start + 1) count,
      ))
]

pub length-filter-range_from_full :
    (test : ℕ → Bool) (start count : ℕ)
    → ((i : ℕ) → start ≤ i → i < start + count → test i ≡ true)
    → length (filter test (range_from start count)) ≡ count
length-filter-range_from_full test start zero h = refl
length-filter-range_from_full test start (suc count) h = rw (h start (omega arith) (omega arith)) (
    ap suc (
      length-filter-range_from_full test (start + 1) count
        (λ i lo hi. h i (omega arith) (omega arith))))

-- Nothing is kept only where the test fails throughout.
pub length-filter-range_from_zero :
    (test : ℕ → Bool) (start count : ℕ)
    → length (filter test (range_from start count)) ≡ 0
    → (i : ℕ) → start ≤ i
    → i < start + count
    → test i ≡ false
length-filter-range_from_zero test start zero h i lo hi = absurd (omega arith)
length-filter-range_from_zero test start (suc count) h i lo hi = elim (Bool-cases (test start)) [
  | inl kept ↦ absurd (omega (arith, rw kept at h))
  | inr dropped ↦ elim (ℕ_discrete start i) [
    | yes first ↦ rw (← first) dropped
    | no later ↦
        length-filter-range_from_zero test (start + 1) count (rw dropped at h) i (omega arith)
          (omega arith)
  ]
]
