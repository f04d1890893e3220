-- ===== src/Prelude/ByteStrings.antt =====
-- Byte strings as lists of numbers, and the big-endian codec of `int.to_bytes`, `int.from_bytes`
-- and `struct`.
use Prim.Native.Nat.{ℕ, zero, suc, ◌+◌, ◌*◌, ◌/◌, ◌%◌, ◌^◌, ◌<◌}
use mathlib.Core.Path.{◌≡◌, refl}
use mathlib.Core.Bool.{Bool, true, false, ◌&&◌}
use mathlib.Core.List.{List, [], ◌∷◌, ◌++◌, foldl}
use native.Mathlib.Omega.{arith}
use peer_stream.Prelude.Lists.{get_or, set, take, replicate}
use peer_stream.Prelude.Tests.{ltb, ◌==◌, if◌then◌else◌}
use peer_stream.Prelude.Results.{Result, ok, err, overflow_error}

abbrev pub Bytes : Type 0
Bytes = List ℕ

-- Every entry is a byte.
abbrev pub IsBytes : Bytes → Type 0
IsBytes [] = Unit
IsBytes (b ∷ bs) = (b < 256) × IsBytes bs

pub IsBytes-append : (xs ys : Bytes) → IsBytes xs → IsBytes ys → IsBytes (xs ++ ys)
IsBytes-append [] ys h k = k
IsBytes-append (x ∷ xs) ys h k = (h.0, IsBytes-append xs ys h.1 k)

pub IsBytes-append_left : (xs ys : Bytes) → IsBytes (xs ++ ys) → IsBytes xs
IsBytes-append_left [] ys h = tt
IsBytes-append_left (x ∷ xs) ys h = (h.0, IsBytes-append_left xs ys h.1)

pub IsBytes-append_right : (xs ys : Bytes) → IsBytes (xs ++ ys) → IsBytes ys
IsBytes-append_right [] ys h = h
IsBytes-append_right (x ∷ xs) ys h = IsBytes-append_right xs ys h.1

-- `a == b` on byte strings
abbrev pub bytes_eq : Bytes → Bytes → Bool
bytes_eq [] [] = true
bytes_eq (x ∷ xs) (y ∷ ys) = (x == y) && bytes_eq xs ys
bytes_eq _ _ = false

pub bytes_eq_refl : (xs : Bytes) → bytes_eq xs xs ≡ true
bytes_eq_refl [] = refl
bytes_eq_refl (x ∷ xs) = ground (arith, bytes_eq_refl xs)

pub bytes_eq→eq : (xs ys : Bytes) → bytes_eq xs ys ≡ true → xs ≡ ys
bytes_eq→eq [] [] h = refl
bytes_eq→eq [] (y ∷ ys) h = cc
bytes_eq→eq (x ∷ xs) [] h = cc
bytes_eq→eq (x ∷ xs) (y ∷ ys) h = ground (arith, bytes_eq→eq xs ys)

-- `a < b` on byte strings: lexicographic
abbrev pub bytes_lt : Bytes → Bytes → Bool
bytes_lt [] [] = false
bytes_lt [] (y ∷ ys) = true
bytes_lt (x ∷ xs) [] = false
bytes_lt (x ∷ xs) (y ∷ ys) = if x == y then bytes_lt xs ys else ltb x y

-- The big-endian digits of `x`, in front of `out`.
abbrev pub push_bytes : ℕ → ℕ → Bytes → Bytes
push_bytes zero x out = out
push_bytes (suc n) x out = push_bytes n (x / 256) (x % 256 ∷ out)

-- `x.to_bytes(n, "big")`
unfoldable pub to_bytes : ℕ → ℕ → Result Bytes
to_bytes x n = if ltb x (256 ^ n) then ok (push_bytes n x []) else err overflow_error

-- `int.from_bytes(data, "big")`
abbrev pub from_bytes : Bytes → ℕ
from_bytes = foldl (λ n b. n * 256 + b) 0

-- Four bytes and the number that they stand for, both ways.
pub from_bytes-push_four : (x : ℕ) → x < 2 ^ 32 → from_bytes (push_bytes 4 x []) ≡ x
from_bytes-push_four x h = omega arith

pub push_four-from_bytes :
    (a b c d : ℕ)
    → IsBytes (a ∷ b ∷ c ∷ d ∷ [])
    → push_bytes 4 (from_bytes (a ∷ b ∷ c ∷ d ∷ [])) [] ≡ a ∷ b ∷ c ∷ d ∷ []
push_four-from_bytes a b c d h = ground arith

pub from_bytes_four-lt :
    (a b c d : ℕ) → IsBytes (a ∷ b ∷ c ∷ d ∷ []) → from_bytes (a ∷ b ∷ c ∷ d ∷ []) < 2 ^ 32
from_bytes_four-lt a b c d h = omega arith

pub IsBytes-get_or : (bs : Bytes) (i : ℕ) → IsBytes bs → get_or bs i 0 < 256
IsBytes-get_or [] i h = omega arith
IsBytes-get_or (b ∷ bs) zero h = h.0
IsBytes-get_or (b ∷ bs) (suc i) h = IsBytes-get_or bs i h.1

pub IsBytes-set : (bs : Bytes) (i v : ℕ) → v < 256 → IsBytes bs → IsBytes (set bs i v)
IsBytes-set [] i v lt h = tt
IsBytes-set (b ∷ bs) zero v lt h = (lt, h.1)
IsBytes-set (b ∷ bs) (suc i) v lt h = (h.0, IsBytes-set bs i v lt h.1)

pub IsBytes-take : (n : ℕ) (bs : Bytes) → IsBytes bs → IsBytes (take n bs)
IsBytes-take zero bs h = tt
IsBytes-take (suc n) [] h = tt
IsBytes-take (suc n) (b ∷ bs) h = (h.0, IsBytes-take n bs h.1)

pub IsBytes-replicate : (n b : ℕ) → b < 256 → IsBytes (replicate n b)
IsBytes-replicate zero b lt = tt
IsBytes-replicate (suc n) b lt = (lt, IsBytes-replicate n b lt)
