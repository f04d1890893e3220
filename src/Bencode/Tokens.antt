-- ===== src/Bencode/Tokens.antt =====
-- Integers and byte strings are accepted exactly in canonical form.
use peer_stream.Prelude.{
  ℕ, zero, suc, ◌≤◌, ◌<◌, ◌≡◌, ◌≢◌, refl, sym, ap, subst, ◌∙◌, Bool, Bool-cases, Option, none, some,
  inl, inr, true, false, not, ◌&&◌, [], ◌∷◌, ◌++◌, length, take, drop, take_append, drop_append,
  take-append-drop, length-take, All, ltb, leb, leb→le, ◌==◌, ==_iff, ne→==, if◌then◌else◌, arith,
  Bytes, bytes_eq, bytes_eq→eq, ok, bencode_decode_error, Error, Ensures, holds, raises,
  Ensures-bind, Ensures-guard, Ensures-ok, Ensures-map, append_assoc, length-append,
}
use peer_stream.Prelude.Int.{ℤ, pos, negsuc, neg}
use peer_stream.Bencode.{
  decimal, read_digits, all_digits, is_empty, starts_with, split_at, prepend, int_text,
  encode_string, signed, read_int, read_int_token, found, decode_int, decode_bytes, max_int_digits,
  max_length_digits,
}
use peer_stream.Bencode.Numerals.{IsNumeral, decimal-read, decimal-IsNumeral, read_digits-decimal}

abbrev pub IsDecodeError : Error → Type 0
IsDecodeError e = e ≡ bencode_decode_error

-- The parts around the first `b`.
abbrev Splits : ℕ → Bytes → Bytes × Bytes → Type 0
Splits b raw (front, behind) = raw ≡ front ++ b ∷ behind

split_at-Splits :
    (b : ℕ) (raw : Bytes) → Ensures (Splits b raw) IsDecodeError (found (split_at b raw))
unfolding split_at
split_at-Splits b [] = raises refl
split_at-Splits b (c ∷ raw) = elim (Bool-cases (c == b)) [
  | inl here ↦ rw here (holds (ap (λ x. x ∷ raw) ((==_iff c b).0 here)))
  | inr other ↦ rw other (go (split_at b raw) (split_at-Splits b raw))
]
  where
    go :
        (o : Option (Bytes × Bytes))
        → Ensures (Splits b raw) IsDecodeError (found o)
        → Ensures (Splits b (c ∷ raw)) IsDecodeError (found (prepend c o))
    go none h = raises refl
    go (some (front, behind)) h = holds (ap (λ x. c ∷ x) (Ensures-ok h refl))

split_at-append :
    (b : ℕ) (front behind : Bytes)
    → All (λ c. c ≢ b) front
    → split_at b (front ++ b ∷ behind) ≡ some (front, behind)
unfolding split_at
split_at-append b [] behind h = rw ((==_iff b b).1 refl) refl
split_at-append b (c ∷ front) behind (other, others) =
    rw (ne→== c b other, split_at-append b front behind others) refl

digits-ne : (b : ℕ) (digits : Bytes) → b'9' < b → all_digits digits ≡ true → All (λ c. c ≢ b) digits
digits-ne b [] h all = tt
digits-ne b (c ∷ digits) h all = (ground arith, digits-ne b digits h (ground arith))

decimal-zero : decimal 0 ≡ b'0' ∷ []
unfolding decimal
decimal-zero = refl

IsNumeral-all : (digits : Bytes) → IsNumeral digits → all_digits digits ≡ true
IsNumeral-all digits num = (let e = num.all in ground arith)

int_text-signed :
    (negative : Bool) (digits : Bytes)
    → IsNumeral digits
    → not (negative && bytes_eq digits (b'0' ∷ [])) ≡ true
    → int_text (signed negative (read_digits 0 digits))
      ≡ (if negative then b'-' ∷ digits else digits)
int_text-signed false digits num h = decimal-read digits num
int_text-signed true digits num h = go (read_digits 0 digits) (decimal-read digits num)
  where
    go : (n : ℕ) → decimal n ≡ digits → int_text (neg n) ≡ b'-' ∷ digits
    go zero e =
        let bad : not (true && bytes_eq (b'0' ∷ []) (b'0' ∷ [])) ≡ true =
          subst (λ ds. not (true && bytes_eq ds (b'0' ∷ [])) ≡ true) (sym e ∙ decimal-zero) h in
        cc
    go (suc n) e = ap (λ ds. b'-' ∷ ds) e

abbrev with_sign : Bool → Bytes → Bytes
with_sign negative digits = if negative then b'-' ∷ digits else digits

IsNumeral-tests :
    (digits : Bytes)
    → not (is_empty digits) && all_digits digits ≡ true
    → not (ltb 1 (length digits) && starts_with b'0' digits) ≡ true
    → IsNumeral digits
IsNumeral-tests digits h k = record {
  all = h;
  no_zero = elim (Bool-cases (ltb 1 (length digits) && starts_with b'0' digits)) [
    | inl bad ↦ absurd (not_true bad k)
    | inr good ↦ good
  ];
}
  where
    not_true : {b : Bool} → b ≡ true → not b ≡ true → ⊥
    not_true {b} h k = (let e : not b ≡ false = ap not h in cc)

read_int-Ensures :
    (negative : Bool) (digits : Bytes)
    → Ensures (λ n. int_text n ≡ with_sign negative digits) IsDecodeError (read_int negative digits)
read_int-Ensures negative digits = Ensures-guard _ _ refl λ all. Ensures-guard _ _ refl λ no_zero.
    Ensures-guard _ _ refl
      λ no_neg. holds (int_text-signed negative digits (IsNumeral-tests digits all no_zero) no_neg)

read_int_token-Ensures :
    (raw : Bytes)
    → Ensures
        (λ n. (int_text n ≡ raw) × (length raw ≤ max_int_digits))
        IsDecodeError
        (read_int_token raw)
read_int_token-Ensures [] = raises refl
read_int_token-Ensures (c ∷ raw) =
    Ensures-guard (leb (length (c ∷ raw)) max_int_digits) bencode_decode_error refl λ short.
      elim (Bool-cases (c == b'-')) [
        | inl minus ↦ rw minus (
            Ensures-map
              (λ n e. (e ∙ ap (λ x. x ∷ raw) (sym ((==_iff c b'-').0 minus)), leb→le _ _ short))
              (λ _ q. q) (read_int-Ensures true raw))
        | inr plus ↦ rw plus (
            Ensures-map (λ n e. (e, leb→le _ _ short)) (λ _ q. q)
              (read_int-Ensures false (c ∷ raw)))
      ]

-- What was read, and that it was within the limit.
abbrev pub ReadsInt : Bytes → ℤ × Bytes → Type 0
ReadsInt raw (n, behind) =
    (raw ≡ int_text n ++ b'e' ∷ behind) × (length (int_text n) ≤ max_int_digits)

pub decode_int-Ensures : (raw : Bytes) → Ensures (ReadsInt raw) IsDecodeError (decode_int raw)
unfolding decode_int
decode_int-Ensures raw = Ensures-bind (split_at-Splits b'e' raw) λ (token, behind) split.
    Ensures-bind (read_int_token-Ensures token)
      λ n (same, short). holds (split ∙ ap (λ t. t ++ b'e' ∷ behind) (sym same), rw same short)

read_int-numeral :
    (negative : Bool) (digits : Bytes)
    → IsNumeral digits
    → negative && bytes_eq digits (b'0' ∷ []) ≡ false
    → read_int negative digits ≡ ok (signed negative (read_digits 0 digits))
read_int-numeral negative digits num h = rw (num.all, num.no_zero, h) refl

read_int_token-positive :
    (digits : Bytes)
    → IsNumeral digits
    → length digits ≤ max_int_digits
    → read_int_token digits ≡ ok (pos (read_digits 0 digits))
read_int_token-positive [] num short = (let e = num.all in cc)
read_int_token-positive (c ∷ digits) num short =
    let all = num.all in
    let digit : b'0' ≤ c = ground arith in
    let plus : (c == b'-') ≡ false = ne→== c b'-' (omega arith) in
    let fits : leb (length (c ∷ digits)) max_int_digits ≡ true = ground arith in
    rw (fits, plus) (read_int-numeral false (c ∷ digits) num refl)

read_int_token-negative :
    (digits : Bytes)
    → IsNumeral digits
    → bytes_eq digits (b'0' ∷ []) ≡ false
    → length (b'-' ∷ digits) ≤ max_int_digits
    → read_int_token (b'-' ∷ digits) ≡ ok (neg (read_digits 0 digits))
read_int_token-negative digits num h short =
    let fits : leb (length (b'-' ∷ digits)) max_int_digits ≡ true = ground arith in
    rw fits (read_int-numeral true digits num h)

decimal-suc-ne : (n : ℕ) → bytes_eq (decimal (suc n)) (b'0' ∷ []) ≡ false
decimal-suc-ne n = elim (Bool-cases (bytes_eq (decimal (suc n)) (b'0' ∷ []))) [
  | inl same ↦
      let e = bytes_eq→eq (decimal (suc n)) (b'0' ∷ []) same in
      let z : read_digits 0 (b'0' ∷ []) ≡ suc n =
        ap (read_digits 0) (sym e) ∙ read_digits-decimal (suc n) in
      absurd (unfold read_digits in omega (arith, z))
  | inr other ↦ other
]

int_text-clean : (n : ℤ) → All (λ c. c ≢ b'e') (int_text n)
int_text-clean (pos n) =
    digits-ne b'e' (decimal n) (omega arith) (IsNumeral-all (decimal n) (decimal-IsNumeral n))
int_text-clean (negsuc n) = (
  omega arith,
  digits-ne b'e' (decimal (suc n)) (omega arith)
      (IsNumeral-all (decimal (suc n)) (decimal-IsNumeral (suc n))),
)

read_int_token-int_text :
    (n : ℤ) → length (int_text n) ≤ max_int_digits → read_int_token (int_text n) ≡ ok n
read_int_token-int_text (pos n) short =
    read_int_token-positive (decimal n) (decimal-IsNumeral n) short
    ∙ ap (λ k. ok (pos k)) (read_digits-decimal n)
read_int_token-int_text (negsuc n) short =
    read_int_token-negative (decimal (suc n)) (decimal-IsNumeral (suc n)) (decimal-suc-ne n) short
    ∙ ap (λ k. ok (neg k)) (read_digits-decimal (suc n))

pub decode_int-int_text :
    (n : ℤ) (behind : Bytes)
    → length (int_text n) ≤ max_int_digits
    → decode_int (int_text n ++ b'e' ∷ behind) ≡ ok (n, behind)
unfolding decode_int
decode_int-int_text n behind short =
    rw
      (split_at-append b'e' (int_text n) behind (int_text-clean n), read_int_token-int_text n short)
      refl

abbrev pub ReadsBytes : Bytes → Bytes × Bytes → Type 0
ReadsBytes raw (text, behind) =
    (raw ≡ encode_string text ++ behind) × (length (decimal (length text)) ≤ max_length_digits)

pub decode_bytes-Ensures : (raw : Bytes) → Ensures (ReadsBytes raw) IsDecodeError (decode_bytes raw)
unfolding decode_bytes
decode_bytes-Ensures raw = Ensures-bind (split_at-Splits b':' raw) λ (digits, behind) split.
    Ensures-guard _ _ refl λ all. Ensures-guard _ _ refl λ short. Ensures-guard _ _ refl λ no_zero.
      Ensures-guard _ _ refl λ enough.
        (let n = read_digits 0 digits in
          let size : length (take n behind) ≡ n =
            omega (arith, length-take n behind, leb→le n (length behind) enough) in
          let same : decimal (length (take n behind)) ≡ digits =
            ap decimal size ∙ decimal-read digits (IsNumeral-tests digits all no_zero) in
          holds (
            split
                ∙ ap (λ t. digits ++ b':' ∷ t) (sym (take-append-drop n behind))
                ∙ ap (λ ds. ds ++ b':' ∷ (take n behind ++ drop n behind)) (sym same)
                ∙ sym (
                    append_assoc (decimal (length (take n behind))) (b':' ∷ take n behind)
                      (drop n behind)),
            rw same (leb→le _ _ short),
          ))

pub decode_bytes-encode_string :
    (text behind : Bytes)
    → length (decimal (length text)) ≤ max_length_digits
    → decode_bytes (encode_string text ++ behind) ≡ ok (text, behind)
unfolding decode_bytes
decode_bytes-encode_string text behind short =
    let n = length text in
    let num = decimal-IsNumeral n in
    let parts =
      split_at-append b':' (decimal n) (text ++ behind)
        (digits-ne b':' (decimal n) (omega arith) (IsNumeral-all (decimal n) num)) in
    let fits : leb (length (decimal n)) max_length_digits ≡ true = ground arith in
    let enough : leb n (length (text ++ behind)) ≡ true =
      ground (arith, length-append text behind) in
    rw
      (
        append_assoc (decimal n) (b':' ∷ text) behind,
        parts,
        num.all,
        fits,
        num.no_zero,
        read_digits-decimal n,
        enough,
        take_append text behind n refl,
        drop_append text behind n refl,
      )
      refl
