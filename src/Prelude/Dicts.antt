-- ===== src/Prelude/Dicts.antt =====
-- A Python `dict`, as the list of its items in the order of their insertion.
use peer_stream.Prelude.Tests.{if◌then◌else◌}
use mathlib.Core.Path.{◌≡◌, refl}
use mathlib.Core.Logic.{◌↔◌}
use mathlib.Core.Bool.{Bool, true}
use mathlib.Core.Option.{Option, none, some}
use mathlib.Core.List.{List, [], ◌∷◌, ◌++◌}
use native.Mathlib.Omega.{arith}

-- A test for equality of keys.
abbrev pub IsEquality {ℓ} : {K : Type ℓ} → (K → K → Bool) → Type ℓ
IsEquality {K = K} same = (a b : K) → (same a b ≡ true) ↔ (a ≡ b)

module _ {ℓ κ} {K : Type ℓ} {V : Type κ} (same : K → K → Bool) where
  -- `dict.get(k)`
  abbrev pub get : K → List (K × V) → Option V
  get k [] = none
  get k ((j, v) ∷ d) = if same k j then some v else get k d

  -- `d[k] = v`
  abbrev pub put : K → V → List (K × V) → List (K × V)
  put k v [] = (k, v) ∷ []
  put k v ((j, w) ∷ d) = let rest = put k v d in if same k j then (j, v) ∷ d else (j, w) ∷ rest

  -- `d.pop(k, None)`
  abbrev pub remove : K → List (K × V) → List (K × V)
  remove k [] = []
  remove k ((j, w) ∷ d) = let rest = remove k d in if same k j then rest else (j, w) ∷ rest

  module _ (eq : IsEquality same) where
    pub get-put :
        (k j : K) (v : V) (d : List (K × V))
        → get j (put k v d) ≡ (if same j k then some v else get j d)
    get-put k j v [] = refl
    get-put k j v ((i, w) ∷ d) = ground (arith, get-put k j v d, eq j k, eq k i, eq j i)

    pub get-remove :
        (k j : K) (d : List (K × V)) → get j (remove k d) ≡ (if same j k then none else get j d)
    get-remove k j [] = ground arith
    get-remove k j ((i, w) ∷ d) = ground (arith, get-remove k j d, eq j k, eq k i, eq j i)

  pub put_new : (k : K) (v : V) (d : List (K × V)) → get k d ≡ none → put k v d ≡ d ++ (k, v) ∷ []
  put_new k v [] h = refl
  put_new k v ((i, w) ∷ d) h = ground (arith, put_new k v d)
