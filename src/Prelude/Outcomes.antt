-- ===== src/Prelude/Outcomes.antt =====
-- What holds of the outcome of fallible code, with a rule for each way to build it.
use mathlib.Core.Path.{◌≡◌, refl, subst}
use mathlib.Core.Bool.{Bool, true, false}
use peer_stream.Prelude.Tests.{if◌then◌else◌}
use peer_stream.Prelude.Results.{Error, Result, ok, err, ◌>>=◌, ◌>>◌, guard}

-- `P` holds of the value returned, or `Q` of the exception raised.
pub data Ensures {ℓ κ μ} {A : Type ℓ} (P : A → Type κ) (Q : Error → Type μ)
    : Result A → Type (ℓ ⊔ κ ⊔ μ) where
  holds : {a : A} → P a → Ensures P Q (ok a)
  raises : {e : Error} → Q e → Ensures P Q (err e)

module _ {ℓ κ μ} {A : Type ℓ} {P : A → Type κ} {Q : Error → Type μ} where
  pub Ensures-ok : {r : Result A} {a : A} → Ensures P Q r → r ≡ ok a → P a
  Ensures-ok (holds h) e = subst P (cc) h
  Ensures-ok (raises h) e = cc

  pub Ensures-err : {r : Result A} {x : Error} → Ensures P Q r → r ≡ err x → Q x
  Ensures-err (holds h) e = cc
  Ensures-err (raises h) e = subst Q (cc) h

  pub Ensures-if :
      (b : Bool) {x y : Result A}
      → (b ≡ true → Ensures P Q x)
      → (b ≡ false → Ensures P Q y)
      → Ensures P Q (if b then x else y)
  Ensures-if true hx hy = hx refl
  Ensures-if false hx hy = hy refl

  pub Ensures-bind {ℓ' κ'} :
      {B : Type ℓ'} {R : B → Type κ'} {m : Result A} {f : A → Result B}
      → Ensures P Q m
      → ((a : A) → P a → Ensures R Q (f a))
      → Ensures R Q (m >>= f)
  Ensures-bind (holds {a} h) k = k a h
  Ensures-bind (raises h) k = raises h

  pub Ensures-guard :
      (b : Bool) (x : Error) {m : Result A}
      → Q x
      → (b ≡ true → Ensures P Q m)
      → Ensures P Q (guard b x >> m)
  Ensures-guard true x q k = k refl
  Ensures-guard false x q k = raises q

  pub Ensures-map {ν ξ} :
      {P' : A → Type ν} {Q' : Error → Type ξ} {r : Result A}
      → ((a : A) → P a → P' a)
      → ((e : Error) → Q e → Q' e)
      → Ensures P Q r
      → Ensures P' Q' r
  Ensures-map f g (holds {a} h) = holds (f a h)
  Ensures-map f g (raises {e} h) = raises (g e h)

  pub Ensures_of_err : {r : Result A} (e : Error) → r ≡ err e → Q e → Ensures P Q r
  Ensures_of_err e h q = rw h (raises q)

pub Ensures_of_guard {κ μ} :
    {P : Unit {0} → Type κ} {Q : Error → Type μ} (b : Bool) (x : Error)
    → Q x
    → (b ≡ true → P tt)
    → Ensures P Q (guard b x)
Ensures_of_guard true x q k = holds (k refl)
Ensures_of_guard false x q k = raises q

-- The outcome itself is known.
pub Ensures_self {ℓ} : {A : Type ℓ} (r : Result A) → Ensures (λ a. r ≡ ok a) (λ e. r ≡ err e) r
Ensures_self (ok a) = holds refl
Ensures_self (err e) = raises refl

pub Ensures-and {ℓ κ μ ν ξ} :
    {A : Type ℓ} {P : A → Type κ} {Q : Error → Type μ} {P' : A → Type ν} {Q' : Error → Type ξ}
    {r : Result A}
    → Ensures P Q r
    → Ensures P' Q' r
    → Ensures (λ a. P a × P' a) Q r
Ensures-and (holds h) g = holds (h, Ensures-ok g refl)
Ensures-and (raises h) g = raises h
