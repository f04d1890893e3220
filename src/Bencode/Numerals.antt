-- ===== src/Bencode/Numerals.antt =====
-- Decimal numerals are read back, and only they are accepted.
use peer_stream.Prelude.{
  ℕ, zero, suc, ◌+◌, ◌-◌, ◌*◌, ◌/◌, ◌%◌, ◌≤◌, ◌<◌, ◌≡◌, refl, sym, ap, ◌∙◌, true, false, not, ◌&&◌,
  [], ◌∷◌, ◌++◌, append_assoc, append-nil, nil_of_length, and_false, length, ltb, le→ltb, arith,
  Bytes, dec_lt,
}
use peer_stream.Bencode.{
  to_digits, decimal, read_digits, is_digit, all_digits, is_empty, starts_with,
}

-- Rounds beyond the number do not matter.
to_digits_rounds : (f g n : ℕ) → n ≤ f → n ≤ g → to_digits (suc f) n ≡ to_digits (suc g) n
to_digits_rounds zero zero n hf hg = refl
to_digits_rounds zero (suc g) n hf hg = ground arith
to_digits_rounds (suc f) zero n hf hg = ground arith
to_digits_rounds (suc f) (suc g) n hf hg =
    ground (arith, to_digits_rounds f g (n / 10) (omega arith) (omega arith))

to_digits_enough : (f n : ℕ) → n < f → to_digits f n ≡ decimal n
unfolding decimal
to_digits_enough zero n h = absurd (omega arith)
to_digits_enough (suc f) n h = to_digits_rounds f n n (omega arith) (omega arith)

decimal_small : (n : ℕ) → n < 10 → decimal n ≡ (b'0' + n) ∷ []
unfolding decimal
decimal_small n h = ground arith

decimal_large : (n d : ℕ) → 0 < n → d < 10 → decimal (n * 10 + d) ≡ decimal n ++ (b'0' + d) ∷ []
unfolding decimal
decimal_large n d pos small =
    let more : ltb (n * 10 + d) 10 ≡ false = le→ltb (n * 10 + d) 10 (omega arith) in
    let quot : (n * 10 + d) / 10 ≡ n = omega arith in
    let rem : (n * 10 + d) % 10 ≡ d = omega arith in
    rw (more, quot, rem)
      (ap (λ ds. ds ++ (b'0' + d) ∷ []) (to_digits_enough (n * 10 + d) n (omega arith)))

pub read_digits-append :
    (n : ℕ) (xs ys : Bytes) → read_digits n (xs ++ ys) ≡ read_digits (read_digits n xs) ys
unfolding read_digits
read_digits-append n [] ys = refl
read_digits-append n (x ∷ xs) ys = read_digits-append (n * 10 + (x - b'0')) xs ys

read_digits-to_digits : (f n : ℕ) → n ≤ f → read_digits 0 (to_digits (suc f) n) ≡ n
unfolding read_digits
read_digits-to_digits zero n h = ground arith
read_digits-to_digits (suc f) n h = elim (dec_lt n 10) [
  | yes small ↦ ground arith
  | no large ↦ rw (le→ltb n 10 (omega arith)) (
      read_digits-append 0 (to_digits (suc f) (n / 10)) ((b'0' + n % 10) ∷ [])
      ∙ omega (arith, read_digits-to_digits f (n / 10) (omega arith)))
]

-- A numeral is read as the number that it prints.
pub read_digits-decimal : (n : ℕ) → read_digits 0 (decimal n) ≡ n
unfolding decimal
read_digits-decimal n = read_digits-to_digits n n (omega arith)

-- Digits behind a positive number go behind its numeral.
decimal-read_digits :
    (n : ℕ) (digits : Bytes)
    → 0 < n
    → all_digits digits ≡ true
    → decimal (read_digits n digits) ≡ decimal n ++ digits
unfolding read_digits
decimal-read_digits n [] pos all = sym (append-nil (decimal n))
decimal-read_digits n (c ∷ digits) pos all =
    let others : all_digits digits ≡ true = ground arith in
    let low : b'0' ≤ c = ground arith in
    let high : c ≤ b'9' = ground arith in
    let back : b'0' + (c - b'0') ≡ c = omega arith in
    decimal-read_digits (n * 10 + (c - b'0')) digits (omega arith) others
    ∙ ap (λ ds. ds ++ digits) (decimal_large n (c - b'0') pos (omega arith))
    ∙ append_assoc (decimal n) ((b'0' + (c - b'0')) ∷ []) digits
    ∙ ap (λ x. decimal n ++ x ∷ digits) back

-- The tests that both kinds of token make of their digits.
pub record IsNumeral (digits : Bytes) : Type 0 where
  pub all : not (is_empty digits) && all_digits digits ≡ true
  pub no_zero : ltb 1 (length digits) && starts_with b'0' digits ≡ false

pub decimal-read : (digits : Bytes) → IsNumeral digits → decimal (read_digits 0 digits) ≡ digits
unfolding read_digits
decimal-read [] num = (let e = num.all in cc)
decimal-read (c ∷ digits) num =
    let all = num.all in
    let no_zero = num.no_zero in
    let others : all_digits digits ≡ true = ground arith in
    let low : b'0' ≤ c = ground arith in
    let high : c ≤ b'9' = ground arith in
    let back : b'0' + (c - b'0') ≡ c = omega arith in
    let start : 0 * 10 + (c - b'0') ≡ c - b'0' = omega arith in
    elim (dec_lt b'0' c) [
      | yes positive ↦ rw start (
          decimal-read_digits (c - b'0') digits (omega arith) others
          ∙ ap (λ ds. ds ++ digits) (decimal_small (c - b'0') (omega arith))
          ∙ ap (λ x. x ∷ digits) back)
      | no is_zero ↦
          let last : digits ≡ [] = nil_of_length digits (ground arith) in
          rw (last, start)
            (unfold read_digits in (decimal_small (c - b'0') (omega arith) ∙ ap (λ x. x ∷ []) back))
    ]

all_digits-append :
    (xs ys : Bytes) → all_digits xs ≡ true → all_digits ys ≡ true → all_digits (xs ++ ys) ≡ true
all_digits-append [] ys h k = k
all_digits-append (x ∷ xs) ys h k =
    let first : is_digit x ≡ true = ground arith in
    let others : all_digits xs ≡ true = ground arith in
    rw (first, all_digits-append xs ys others k) refl

to_digits-all : (f n : ℕ) → all_digits (to_digits (suc f) n) ≡ true
to_digits-all zero n = ground arith
to_digits-all (suc f) n = elim (dec_lt n 10) [
  | yes small ↦ ground arith
  | no large ↦ rw (le→ltb n 10 (omega arith)) (
      all_digits-append (to_digits (suc f) (n / 10)) ((b'0' + n % 10) ∷ [])
        (to_digits-all f (n / 10)) (ground arith))
]

starts_with-append :
    (b : ℕ) (xs ys : Bytes)
    → is_empty xs ≡ false
    → (is_empty (xs ++ ys) ≡ false) × (starts_with b (xs ++ ys) ≡ starts_with b xs)
starts_with-append b [] ys h = cc
starts_with-append b (x ∷ xs) ys h = (refl, refl)

to_digits-head :
    (f n : ℕ)
    → n ≤ f
    → (is_empty (to_digits (suc f) n) ≡ false)
      × (0 < n → starts_with b'0' (to_digits (suc f) n) ≡ false)
to_digits-head zero n h = (ground arith, λ pos. ground arith)
to_digits-head (suc f) n h = elim (dec_lt n 10) [
  | yes small ↦ (ground arith, λ pos. ground arith)
  | no large ↦
      let (more, clean) = to_digits-head f (n / 10) (omega arith) in
      let (e, same) =
        starts_with-append b'0' (to_digits (suc f) (n / 10)) ((b'0' + n % 10) ∷ []) more in
      rw (le→ltb n 10 (omega arith)) (e, λ pos. same ∙ clean (omega arith))
]

pub decimal-IsNumeral : (n : ℕ) → IsNumeral (decimal n)
unfolding decimal
decimal-IsNumeral n =
    let (more, clean) = to_digits-head n n (omega arith) in
    record {
      all = rw (more, to_digits-all n n) refl;
      no_zero = elim (dec_lt 0 n) [
        | yes pos ↦ rw (clean pos) (and_false _)
        | no none_at_all ↦ (let z : n ≡ 0 = omega arith in rw z refl)
      ];
    }
