-- ===== src/Prelude/Sets.antt =====
-- A Python `set` of texts, as the list of its members.
use mathlib.Core.Path.{◌≡◌, ap}
use mathlib.Core.Bool.{Bool, false, ◌||◌}
use mathlib.Core.List.{List, [], ◌∷◌}
use Prim.Native.String.{String}
use text.Mathlib.Text.{◌==◌}
use text.Mathlib.TextEquality.{eq_iff}
use native.Mathlib.Omega.{arith}
use peer_stream.Prelude.Tests.{if◌then◌else◌}

-- `x in s`
abbrev pub contains : String → List String → Bool
contains x [] = false
contains x (y ∷ s) = x == y || contains x s

-- `s.add(x)`
unfoldable pub insert : String → List String → List String
insert x s = if contains x s then s else x ∷ s

-- `s.discard(x)`
unfoldable pub discard : String → List String → List String
discard x [] = []
discard x (y ∷ s) = let rest = discard x s in if x == y then rest else y ∷ rest

pub contains-insert :
    (x y : String) (s : List String) → contains y (insert x s) ≡ y == x || contains y s
unfolding insert
contains-insert x y s = ground (arith, eq_iff y x, ap (λ z. contains z s) {x = y} {y = x})

pub contains-discard :
    (x y : String) (s : List String)
    → contains y (discard x s) ≡ (if x == y then false else contains y s)
unfolding discard
contains-discard x y [] = ground arith
contains-discard x y (z ∷ s) =
    ground (arith, contains-discard x y s, eq_iff x z, eq_iff y z, eq_iff x y)
