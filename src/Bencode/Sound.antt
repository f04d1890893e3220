-- ===== src/Bencode/Sound.antt =====
-- What the decoder reads, it reads off the front of its input: the print of a value within its limits.
use peer_stream.Prelude.{
  ℕ, zero, suc, ◌<◌, ◌≡◌, refl, sym, ap, subst, ◌∙◌, Bool, true, false, not, ◌&&◌, List, [], ◌∷◌,
  ◌++◌, length, append_assoc, ◌==◌, ==_iff, arith, Bytes, bencode_decode_error, Ensures-if, Ensures,
  holds, raises, Ensures-bind, Ensures-guard,
}
use peer_stream.Bencode.{
  Value, int, string, list, dict, field, Token, digit_token, int_token, list_token, dict_token,
  other_token, Reader, encode_string, int_text, decode_items, decode_fields, decode_token,
  decode_value, token_of, as_key, is_seen, is_before,
}
use peer_stream.Bencode.Tokens.{IsDecodeError, decode_int-Ensures, decode_bytes-Ensures}
use peer_stream.Bencode.Print.{
  print, print_items, print_fields, StringFits, Fits, FitItems, FitFields, Reads, ReadsItems,
  ReadsFields, shorter,
}

Fits-StringFits :
    (sorted : Bool) (levels : ℕ) (k : Bytes) → Fits sorted levels (string k) → StringFits levels k
unfolding Fits
Fits-StringFits sorted zero k h = h
Fits-StringFits sorted (suc levels) k h = h

token_int : (c : ℕ) → token_of c ≡ int_token → c ≡ b'i'
token_int c h = ground arith

token_list : (c : ℕ) → token_of c ≡ list_token → c ≡ b'l'
token_list c h = ground arith

token_dict : (c : ℕ) → token_of c ≡ dict_token → c ≡ b'd'
token_dict c h = ground arith

module _ (sorted : Bool) (levels : ℕ) (value : Reader)
    (sound : (raw : Bytes) → Ensures (Reads sorted levels raw) IsDecodeError (value raw)) where
  decode_items-Ensures :
      (rounds : ℕ) (raw : Bytes)
      → length raw < rounds
      → Ensures (ReadsItems sorted levels raw) IsDecodeError (decode_items value rounds raw)
  unfolding decode_items print_items FitItems
  decode_items-Ensures zero raw h = absurd (omega arith)
  decode_items-Ensures (suc rounds) [] h = raises refl
  decode_items-Ensures (suc rounds) (c ∷ raw) h =
      Ensures-if (c == b'e') (λ done. holds (ap (λ x. x ∷ raw) ((==_iff c b'e').0 done), tt))
        (λ more. Ensures-bind (sound (c ∷ raw)) λ (v, behind) (read, fits).
          Ensures-bind
            (decode_items-Ensures rounds behind (shorter (c ∷ raw) behind v rounds read h))
            λ (items, end) (rest, fit). holds (
              read
                  ∙ ap (λ x. print v ++ x) rest
                  ∙ sym (append_assoc (print v) (print_items items) (b'e' ∷ end)),
              (fits, fit),
            ))

  as_key-Ensures : (v : Value) → Ensures (λ k. v ≡ string k) IsDecodeError (as_key v)
  as_key-Ensures (string k) = holds refl
  as_key-Ensures _ = raises refl

  not-false : (b : Bool) → not b ≡ true → b ≡ false
  not-false true h = sym h
  not-false false h = refl

  decode_fields-Ensures :
      (rounds : ℕ) (seen : List Bytes) (raw : Bytes)
      → length raw < rounds
      → Ensures
          (ReadsFields sorted levels seen raw)
          IsDecodeError
          (decode_fields sorted value rounds seen raw)
  unfolding decode_fields print FitFields
  decode_fields-Ensures zero seen raw h = absurd (omega arith)
  decode_fields-Ensures (suc rounds) seen [] h = raises refl
  decode_fields-Ensures (suc rounds) seen (c ∷ raw) h =
      Ensures-if (c == b'e') (λ done. holds (ap (λ x. x ∷ raw) ((==_iff c b'e').0 done), tt))
        (λ more. Ensures-bind (sound (c ∷ raw)) λ (key, behind) (read, fits).
          Ensures-bind (as_key-Ensures key) λ k is_key.
            Ensures-guard (not (is_seen k seen)) bencode_decode_error refl λ new.
              Ensures-guard (not (sorted && is_before k seen)) bencode_decode_error refl λ order.
                Ensures-bind (sound behind) λ (v, after) (read₁, fits₁).
                  (let before = shorter (c ∷ raw) behind key rounds read h in
                    let left : length after < rounds =
                      omega (arith, shorter behind after v rounds read₁ (omega (arith, before))) in
                    Ensures-bind (decode_fields-Ensures rounds (k ∷ seen) after left)
                      λ (pairs, end) (rest, fit). holds {a = (field k v pairs, end)} (
                        read
                            ∙ ap (λ x. print x ++ behind) is_key
                            ∙ ap (λ x. encode_string k ++ x)
                                (read₁
                                  ∙ ap (λ x. print v ++ x) rest
                                  ∙ sym (append_assoc (print v) (print_fields pairs) (b'e' ∷ end)))
                            ∙ sym (
                                append_assoc (encode_string k) (print v ++ print_fields pairs)
                                  (b'e' ∷ end)),
                        (
                          Fits-StringFits sorted levels k (subst (Fits sorted levels) is_key fits),
                          not-false (is_seen k seen) new,
                          not-false (sorted && is_before k seen) order,
                          fits₁,
                          fit,
                        ),
                      )))

  -- One arm for each first byte.
  decode_token-Ensures :
      (token : Token) (c : ℕ) (raw : Bytes)
      → token_of c ≡ token
      → Ensures
          (Reads sorted (suc levels) (c ∷ raw))
          IsDecodeError
          (decode_token sorted value token c raw)
  unfolding print Fits
  decode_token-Ensures digit_token c raw h =
      Ensures-bind (decode_bytes-Ensures (c ∷ raw))
        λ (text, behind) (read, short). holds (read, short)
  decode_token-Ensures int_token c raw h =
      Ensures-bind (decode_int-Ensures raw) λ (n, behind) (read, short).
        holds {a = (int n, behind)} (
          ap (λ x. x ∷ raw) (token_int c h)
              ∙ ap (λ x. b'i' ∷ x) (read ∙ sym (append_assoc (int_text n) (b'e' ∷ []) behind)),
          short,
        )
  decode_token-Ensures list_token c raw h =
      Ensures-bind (decode_items-Ensures (suc (length raw)) raw (omega arith))
        λ (items, end) (read, fit). holds {a = (list items, end)} (
          ap (λ x. x ∷ raw) (token_list c h)
              ∙ ap (λ x. b'l' ∷ x) (read ∙ sym (append_assoc (print_items items) (b'e' ∷ []) end)),
          fit,
        )
  decode_token-Ensures dict_token c raw h =
      Ensures-bind (decode_fields-Ensures (suc (length raw)) [] raw (omega arith))
        λ (pairs, end) (read, fit). holds {a = (dict pairs, end)} (
          ap (λ x. x ∷ raw) (token_dict c h)
              ∙ ap (λ x. b'd' ∷ x) (read ∙ sym (append_assoc (print_fields pairs) (b'e' ∷ []) end)),
          fit,
        )
  decode_token-Ensures other_token c raw h = raises refl

pub decode_value-Ensures :
    (sorted : Bool) (levels : ℕ) (raw : Bytes)
    → Ensures (Reads sorted levels raw) IsDecodeError (decode_value sorted levels raw)
unfolding decode_value
decode_value-Ensures sorted zero raw = raises refl
decode_value-Ensures sorted (suc levels) [] = raises refl
decode_value-Ensures sorted (suc levels) (c ∷ raw) =
    decode_token-Ensures sorted levels (decode_value sorted levels)
      (decode_value-Ensures sorted levels) (token_of c) c raw refl
