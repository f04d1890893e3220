-- ===== src/Dht/Ids.antt =====
-- Node ids as numbers of 160 bits.
use peer_stream.Prelude.{
  ℕ, suc, ◌+◌, ◌*◌, ◌^◌, ◌≤◌, ◌<◌, ◌≡◌, refl, sym, ap, subst, ◌∙◌, [], ◌∷◌, foldl, length, arith,
  Bytes, IsBytes, from_bytes,
}
use native.Mathlib.Nat.{mul-le-mul_right, mul_assoc}
use peer_stream.Dht.Contact.{dht_node_id_size, id_bits}

abbrev pub IsId : Bytes → Type 0
IsId k = (length k ≡ dht_node_id_size) × IsBytes k

-- One more byte behind a number.
abbrev push : ℕ → ℕ → ℕ
push n b = n * 256 + b

widen : (n b p : ℕ) → b < 256 → suc (push n b) * p ≤ suc n * (256 * p)
widen n b p h =
    subst (λ x. suc (push n b) * p ≤ x) (mul_assoc (suc n) 256 p) (mul-le-mul_right p (omega arith))

push-lt : (n : ℕ) (k : Bytes) → IsBytes k → foldl push n k < suc n * 256 ^ length k
push-lt n [] h = omega arith
push-lt n (b ∷ k) (h, hs) =
    omega (
      arith,
      push-lt (push n b) k hs,
      widen n b (256 ^ length k) h,
      ap (λ x. suc n * x) (pow_suc k),
    )
  where
    pow_suc : (k : Bytes) → 256 ^ suc (length k) ≡ 256 * 256 ^ length k
    pow_suc k = omega arith

pub IsId-lt : (k : Bytes) → IsId k → from_bytes k < 2 ^ id_bits
IsId-lt k (size, h) = omega (arith, push-lt 0 k h, ap (λ n. 256 ^ n) size)

push-injective :
    (m n : ℕ) (j k : Bytes)
    → length j ≡ length k
    → IsBytes j
    → IsBytes k
    → foldl push m j ≡ foldl push n k
    → (m ≡ n) × (j ≡ k)
push-injective m n [] [] size h g same = (same, refl)
push-injective m n [] (c ∷ k) size h g same = absurd (omega arith)
push-injective m n (b ∷ j) [] size h g same = absurd (omega arith)
push-injective m n (b ∷ j) (c ∷ k) size (lt, h) (lt₁, g) same =
    let (first, rest) = push-injective (push m b) (push n c) j k (omega arith) h g same in
    (omega arith, ap (λ x. x ∷ j) (omega arith) ∙ ap (λ xs. c ∷ xs) rest)

pub from_bytes-injective : (j k : Bytes) → IsId j → IsId k → from_bytes j ≡ from_bytes k → j ≡ k
from_bytes-injective j k (size, h) (size₁, g) same =
    (push-injective 0 0 j k (size ∙ sym size₁) h g same).1
