-- ===== src/Prelude/Sorting.antt =====
-- Python's `sorted` and `list.sort`, and the members of a list.
use peer_stream.Prelude.Tests.{if◌then◌else◌, Bool-cases}
use peer_stream.Prelude.Lists.{length, take, filter, All}
use Prim.Native.Nat.{ℕ, zero, suc}
use mathlib.Core.Path.{◌≡◌, refl, sym, ap, subst, ◌∙◌}
use mathlib.Core.Logic.{◌⊎◌, inl, inr}
use mathlib.Core.Bool.{Bool, true, false}
use mathlib.Core.List.{List, [], ◌∷◌, ◌++◌}
use native.Mathlib.Omega.{arith}

module _ {ℓ} {A : Type ℓ} where
  -- `list.sort` with a test for what comes first: a stable sort
  abbrev pub insert_by : (A → A → Bool) → A → List A → List A
  insert_by first c [] = c ∷ []
  insert_by first c (d ∷ ds) =
      let rest = insert_by first c ds in if first d c then d ∷ rest else c ∷ d ∷ ds

  abbrev pub sort_by : (A → A → Bool) → List A → List A
  sort_by first [] = []
  sort_by first (c ∷ cs) = insert_by first c (sort_by first cs)

module _ {A : Type 0} where
  abbrev pub In : A → List A → Type 0
  In c [] = ⊥
  In c (d ∷ ds) = (c ≡ d) ⊎ In c ds

  pub All-In {κ} : (P : A → Type κ) (c : A) (cs : List A) → All P cs → In c cs → P c
  All-In P c [] ps inside = absurd inside
  All-In P c (d ∷ ds) (p, ps) (inl same) = subst P (sym same) p
  All-In P c (d ∷ ds) (p, ps) (inr inside) = All-In P c ds ps inside

  pub In-append_left : (c : A) (xs ys : List A) → In c xs → In c (xs ++ ys)
  In-append_left c [] ys inside = absurd inside
  In-append_left c (x ∷ xs) ys (inl same) = inl same
  In-append_left c (x ∷ xs) ys (inr inside) = inr (In-append_left c xs ys inside)

  pub In-append_right : (c : A) (xs ys : List A) → In c ys → In c (xs ++ ys)
  In-append_right c [] ys inside = inside
  In-append_right c (x ∷ xs) ys inside = inr (In-append_right c xs ys inside)

  pub In-filter :
      (test : A → Bool) (c : A) (cs : List A) → In c cs → test c ≡ true → In c (filter test cs)
  In-filter test c [] inside passes = absurd inside
  In-filter test c (d ∷ ds) (inl same) passes =
      let e : test d ≡ true = ap test (sym same) ∙ passes in rw e (inl same)
  In-filter test c (d ∷ ds) (inr inside) passes =
      elim (test d) as (λ b. In c (if b then d ∷ filter test ds else filter test ds)) [
        | true ↦ inr (In-filter test c ds inside passes)
        | false ↦ In-filter test c ds inside passes
      ]

module _ {A : Type 0} (first : A → A → Bool) where
  pub All-insert_by {κ} :
      (P : A → Type κ) (c : A) (cs : List A) → P c → All P cs → All P (insert_by first c cs)
  All-insert_by P c [] p ps = (p, tt)
  All-insert_by P c (d ∷ ds) p (q, ps) =
      elim (first d c) as (λ b. All P (if b then d ∷ insert_by first c ds else c ∷ d ∷ ds)) [
        | true ↦ (q, All-insert_by P c ds p ps)
        | false ↦ (p, (q, ps))
      ]

  pub All-sort_by {κ} : (P : A → Type κ) (cs : List A) → All P cs → All P (sort_by first cs)
  All-sort_by P [] ps = tt
  All-sort_by P (c ∷ cs) (p, ps) = All-insert_by P c (sort_by first cs) p (All-sort_by P cs ps)

  In-insert_by_self : (c : A) (cs : List A) → In c (insert_by first c cs)
  In-insert_by_self c [] = inl refl
  In-insert_by_self c (d ∷ ds) =
      elim (first d c) as (λ b. In c (if b then d ∷ insert_by first c ds else c ∷ d ∷ ds)) [
        | true ↦ inr (In-insert_by_self c ds)
        | false ↦ inl refl
      ]

  In-insert_by : (e c : A) (cs : List A) → In e cs → In e (insert_by first c cs)
  In-insert_by e c [] inside = absurd inside
  In-insert_by e c (d ∷ ds) (inl same) =
      elim (first d c) as (λ b. In e (if b then d ∷ insert_by first c ds else c ∷ d ∷ ds)) [
        | true ↦ inl same
        | false ↦ inr (inl same)
      ]
  In-insert_by e c (d ∷ ds) (inr inside) =
      elim (first d c) as (λ b. In e (if b then d ∷ insert_by first c ds else c ∷ d ∷ ds)) [
        | true ↦ inr (In-insert_by e c ds inside)
        | false ↦ inr (inr inside)
      ]

  pub In-sort_by : (e : A) (cs : List A) → In e cs → In e (sort_by first cs)
  In-sort_by e [] inside = absurd inside
  In-sort_by e (c ∷ cs) (inl same) =
      subst (λ x. In e (insert_by first x (sort_by first cs))) same
        (In-insert_by_self e (sort_by first cs))
  In-sort_by e (c ∷ cs) (inr inside) = In-insert_by e c (sort_by first cs) (In-sort_by e cs inside)

  pub length-insert_by : (c : A) (cs : List A) → length (insert_by first c cs) ≡ suc (length cs)
  length-insert_by c [] = refl
  length-insert_by c (d ∷ ds) = ground (arith, length-insert_by c ds)

  pub length-sort_by : (cs : List A) → length (sort_by first cs) ≡ length cs
  length-sort_by [] = refl
  length-sort_by (c ∷ cs) = length-insert_by c (sort_by first cs) ∙ ap suc (length-sort_by cs)

module _ {A : Type 0} where
  pub All-take {κ} : (P : A → Type κ) (n : ℕ) (cs : List A) → All P cs → All P (take n cs)
  All-take P zero cs ps = tt
  All-take P (suc n) [] ps = tt
  All-take P (suc n) (c ∷ cs) (p, ps) = (p, All-take P n cs ps)

  pub All-append {κ} : (P : A → Type κ) (xs ys : List A) → All P xs → All P ys → All P (xs ++ ys)
  All-append P [] ys hs gs = gs
  All-append P (x ∷ xs) ys (h, hs) gs = (h, All-append P xs ys hs gs)

  pub All-filter {κ} :
      (P : A → Type κ) (test : A → Bool) (xs : List A)
      → All P xs
      → All (λ x. P x × (test x ≡ true)) (filter test xs)
  All-filter P test [] hs = tt
  All-filter P test (x ∷ xs) (h, hs) = elim (Bool-cases (test x)) [
    | inl passes ↦ rw passes ((h, passes), All-filter P test xs hs)
    | inr fails ↦ rw fails (All-filter P test xs hs)
  ]

  pub All-map {κ μ} :
      (P : A → Type κ) (Q : A → Type μ) (xs : List A) → ((x : A) → P x → Q x) → All P xs → All Q xs
  All-map P Q [] f hs = tt
  All-map P Q (x ∷ xs) f (h, hs) = (f x h, All-map P Q xs f hs)
