-- ===== src/Bencode/Exact.antt =====
-- What the decoder accepts: values printed with their keys in the order in which they stand, within
-- its limits, and nothing else.
use peer_stream.Prelude.{
  ℕ, zero, suc, ◌≤◌, ◌≡◌, ◌↔◌, refl, sym, ap, ◌∙◌, Bool, true, false, [], ◌∷◌, ◌++◌, length,
  append-nil, leb, leb→le, arith, Bytes, Result, ok, err, ◌>>=◌, ◌>>◌, guard, bencode_decode_error,
  value_error, Error, Ensures, holds, Ensures-bind, Ensures-guard, Ensures-ok, Ensures-err,
  Ensures-map,
}
use peer_stream.Bencode.{Value, is_empty, decode_value, decode}
use peer_stream.Bencode.Tokens.{IsDecodeError}
use peer_stream.Bencode.Print.{print, Fits, Reads}
use peer_stream.Bencode.Sound.{decode_value-Ensures}
use peer_stream.Bencode.Complete.{decode_value-print}

decode_eq :
    (max_depth max_length : ℕ) (sorted : Bool) (raw : Bytes)
    → 1 ≤ max_depth
    → length raw ≤ max_length
    → decode max_depth max_length sorted raw ≡ (
        decode_value sorted (suc max_depth) raw >>= λ r.
        guard (is_empty r.1) bencode_decode_error >> ok r.0)
unfolding decode
decode_eq max_depth max_length sorted raw deep short =
    let e : leb (length raw) max_length ≡ true = ground arith in
    let e₁ : leb 1 max_depth ≡ true = ground arith in rw (e, e₁) refl

empty_eq : (raw : Bytes) → is_empty raw ≡ true → raw ≡ []
empty_eq [] h = refl
empty_eq (c ∷ raw) h = cc

Whole : Bool → ℕ → Bytes → Value → Type 0
Whole sorted max_depth raw v = Fits sorted (suc max_depth) v × (print v ≡ raw)

Ensures-guard_true {κ μ} :
    {A : Type 0} {P : A → Type κ} {Q : Error → Type μ} (b : Bool) (x : Error) {m : Result A}
    → b ≡ true
    → Ensures P Q m
    → Ensures P Q (guard b x >> m)
Ensures-guard_true true x h k = k
Ensures-guard_true false x h k = cc

decode-depth :
    (max_depth max_length : ℕ) (sorted : Bool) (raw : Bytes) (v : Value)
    → decode max_depth max_length sorted raw ≡ ok v
    → 1 ≤ max_depth
unfolding decode
decode-depth zero max_length sorted raw v h = ground arith
decode-depth (suc max_depth) max_length sorted raw v h = omega arith

decode-Ensures :
    (max_depth max_length : ℕ) (sorted : Bool) (raw : Bytes)
    → 1 ≤ max_depth
    → Ensures
        (λ v. (length raw ≤ max_length) × Whole sorted max_depth raw v)
        IsDecodeError
        (decode max_depth max_length sorted raw)
unfolding decode Whole
decode-Ensures max_depth max_length sorted raw deep =
    Ensures-bind {P = λ r. (length raw ≤ max_length) × Reads sorted (suc max_depth) raw r}
      (Ensures-guard (leb (length raw) max_length) bencode_decode_error refl λ short.
        Ensures-guard_true (leb 1 max_depth) value_error (ground arith) (
          Ensures-map (λ r h. (leb→le _ _ short, h)) (λ e q. q)
            (decode_value-Ensures sorted (suc max_depth) raw)))
      λ (v, behind) (short, (read, fits)).
        Ensures-guard (is_empty behind) bencode_decode_error refl λ done. holds (
          short,
          (
            fits,
            sym (append-nil (print v))
                ∙ ap (λ x. print v ++ x) (sym (empty_eq behind done))
                ∙ sym read,
          ),
        )

-- An input decodes to a value exactly when the depth limit is positive, the input is within the size
-- limit, the value fits the limits, and the input is what the value prints as.
pub decode-print_iff :
    (max_depth max_length : ℕ) (sorted : Bool) (raw : Bytes) (v : Value)
    → (decode max_depth max_length sorted raw ≡ ok v)
      ↔ (1 ≤ max_depth)
        × (length raw ≤ max_length)
        × Fits sorted (suc max_depth) v
        × (print v ≡ raw)
unfolding Whole
decode-print_iff max_depth max_length sorted raw v = (
  λ h.
      let deep = decode-depth max_depth max_length sorted raw v h in
      let (short, (fits, same)) =
        Ensures-ok (decode-Ensures max_depth max_length sorted raw deep) h in
      (deep, short, fits, same),
  λ (deep, short, fits, same).
      decode_eq max_depth max_length sorted raw deep short
      ∙ ap (λ r. r >>= λ r. guard (is_empty r.1) bencode_decode_error >> ok r.0)
          (ap (decode_value sorted (suc max_depth)) (sym same ∙ sym (append-nil (print v)))
            ∙ decode_value-print sorted (suc max_depth) v [] fits),
)

-- With a positive depth limit every input decodes or raises `BencodeDecodeError`: no other exception
-- comes up, and no loop of the decoder needs more rounds than there are bytes.
pub decode-raises_bencode :
    (max_depth max_length : ℕ) (sorted : Bool) (raw : Bytes) (e : Error)
    → 1 ≤ max_depth
    → decode max_depth max_length sorted raw ≡ err e
    → e ≡ bencode_decode_error
decode-raises_bencode max_depth max_length sorted raw e deep =
    Ensures-err (decode-Ensures max_depth max_length sorted raw deep)
