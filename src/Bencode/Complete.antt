-- ===== src/Bencode/Complete.antt =====
-- What is printed within the limits is read back.
use peer_stream.Prelude.{
  ℕ, zero, suc, ◌≤◌, ◌<◌, ◌≡◌, refl, sym, ap, subst, ◌∙◌, Bool, true, false, ◌&&◌, List, [], ◌∷◌,
  ◌++◌, length, append_assoc, length-append, ◌==◌, ne→==, arith, Bytes, ok, ◌>>=◌,
}
use peer_stream.Bencode.{
  Value, Items, Fields, int, string, list, dict, no_items, item, no_fields, field, Reader, decimal,
  is_digit, encode_string, int_text, decode_items, decode_fields, decode_value, is_seen, is_before,
  with_value, decode_bytes,
}
use peer_stream.Bencode.Numerals.{IsNumeral, decimal-IsNumeral}
use peer_stream.Bencode.Tokens.{decode_int-int_text, decode_bytes-encode_string}
use peer_stream.Bencode.Print.{
  print, print_items, print_fields, StringFits, Fits, FitItems, FitFields, print-pos,
}

IsStart : Bytes → Type 0
IsStart [] = ⊥
IsStart (c ∷ raw) = (c == b'e') ≡ false

module _ (sorted : Bool) (levels : ℕ) (value : Reader) where
  items_step :
      (v : Value) (raw behind end : Bytes) (items : Items) (rounds : ℕ)
      → IsStart raw
      → value raw ≡ ok (v, behind)
      → decode_items value rounds behind ≡ ok (items, end)
      → decode_items value (suc rounds) raw ≡ ok (item v items, end)
  unfolding decode_items IsStart
  items_step v [] behind end items rounds start read rest = absurd start
  items_step v (c ∷ raw) behind end items rounds start read rest = rw (start, read, rest) refl

  fields_step :
      (k : Bytes) (v : Value) (raw behind after end : Bytes) (pairs : Fields) (seen : List Bytes)
      (rounds : ℕ)
      → IsStart raw
      → value raw ≡ ok (string k, behind)
      → is_seen k seen ≡ false
      → sorted && is_before k seen ≡ false
      → value behind ≡ ok (v, after)
      → decode_fields sorted value rounds (k ∷ seen) after ≡ ok (pairs, end)
      → decode_fields sorted value (suc rounds) seen raw ≡ ok (field k v pairs, end)
  unfolding decode_fields IsStart
  fields_step k v [] behind after end pairs seen rounds start read new order read₁ rest =
      absurd start
  fields_step k v (c ∷ raw) behind after end pairs seen rounds start read new order read₁ rest =
      rw (start, read, new, order, read₁, rest) refl

numeral-IsStart : (digits behind : Bytes) → IsNumeral digits → IsStart (digits ++ behind)
unfolding IsStart
numeral-IsStart [] behind num = (let e = num.all in cc)
numeral-IsStart (c ∷ digits) behind num =
    (let e = num.all in let high : c ≤ b'9' = ground arith in ne→== c b'e' (omega arith))

print-IsStart : (v : Value) (behind : Bytes) → IsStart (print v ++ behind)
unfolding print IsStart
print-IsStart (int n) behind = refl
print-IsStart (string text) behind =
    subst IsStart (sym (append_assoc (decimal (length text)) (b':' ∷ text) behind)) (
      numeral-IsStart (decimal (length text)) ((b':' ∷ text) ++ behind)
        (decimal-IsNumeral (length text)))
print-IsStart (list items) behind = refl
print-IsStart (dict pairs) behind = refl

numeral-token :
    (sorted : Bool) (levels : ℕ) (digits behind : Bytes)
    → IsNumeral digits
    → decode_value sorted (suc levels) (digits ++ behind)
      ≡ (decode_bytes (digits ++ behind) >>= with_value string)
unfolding decode_value
numeral-token sorted levels [] behind num = (let e = num.all in cc)
numeral-token sorted levels (c ∷ digits) behind num =
    (let e = num.all in let digit : is_digit c ≡ true = ground arith in rw digit refl)

decode_string :
    (sorted : Bool) (levels : ℕ) (text behind : Bytes)
    → StringFits levels text
    → decode_value sorted levels (encode_string text ++ behind) ≡ ok (string text, behind)
decode_string sorted zero text behind fits = absurd fits
decode_string sorted (suc levels) text behind fits =
    let start = append_assoc (decimal (length text)) (b':' ∷ text) behind in
    ap (decode_value sorted (suc levels)) start
    ∙ numeral-token sorted levels (decimal (length text)) ((b':' ∷ text) ++ behind)
        (decimal-IsNumeral (length text))
    ∙ ap (λ raw. decode_bytes raw >>= with_value string) (sym start)
    ∙ ap (λ r. r >>= with_value string) (decode_bytes-encode_string text behind fits)

mutual
  unfolding print Fits decode_value decode_items decode_fields

  pub decode_value-print :
      (sorted : Bool) (levels : ℕ) (v : Value) (behind : Bytes)
      → Fits sorted levels v
      → decode_value sorted levels (print v ++ behind) ≡ ok (v, behind)
  decode_value-print sorted zero (int n) behind fits = absurd fits
  decode_value-print sorted zero (string text) behind fits = absurd fits
  decode_value-print sorted zero (list items) behind fits = absurd fits
  decode_value-print sorted zero (dict pairs) behind fits = absurd fits
  decode_value-print sorted (suc levels) (int n) behind fits =
      rw (append_assoc (int_text n) (b'e' ∷ []) behind, decode_int-int_text n behind fits) refl
  decode_value-print sorted (suc levels) (string text) behind fits =
      decode_string sorted (suc levels) text behind fits
  decode_value-print sorted (suc levels) (list items) behind fits =
      let raw = (print_items items ++ b'e' ∷ []) ++ behind in
      let same : raw ≡ print_items items ++ b'e' ∷ behind =
        append_assoc (print_items items) (b'e' ∷ []) behind in
      ap (λ r. r >>= with_value list)
        (ap (decode_items (decode_value sorted levels) (suc (length raw))) same
          ∙ decode_items-print sorted levels items (suc (length raw)) behind fits
              (omega (arith, ap (length {0}) same)))
  decode_value-print sorted (suc levels) (dict pairs) behind fits =
      let raw = (print_fields pairs ++ b'e' ∷ []) ++ behind in
      let same : raw ≡ print_fields pairs ++ b'e' ∷ behind =
        append_assoc (print_fields pairs) (b'e' ∷ []) behind in
      ap (λ r. r >>= with_value dict)
        (ap (decode_fields sorted (decode_value sorted levels) (suc (length raw)) []) same
          ∙ decode_fields-print sorted levels pairs (suc (length raw)) [] behind fits
              (omega (arith, ap (length {0}) same)))

  decode_items-print :
      (sorted : Bool) (levels : ℕ) (items : Items) (rounds : ℕ) (end : Bytes)
      → FitItems sorted levels items
      → length (print_items items ++ b'e' ∷ end) < rounds
      → decode_items (decode_value sorted levels) rounds (print_items items ++ b'e' ∷ end)
        ≡ ok (items, end)
  decode_items-print sorted levels items zero end fits enough = absurd (omega arith)
  decode_items-print sorted levels no_items (suc rounds) end fits enough = refl
  decode_items-print sorted levels (item v items) (suc rounds) end (fits, fit) enough =
      let behind = print_items items ++ b'e' ∷ end in
      let split : (print v ++ print_items items) ++ b'e' ∷ end ≡ print v ++ behind =
        append_assoc (print v) (print_items items) (b'e' ∷ end) in
      let left : length behind < rounds =
        omega (arith, ap (length {0}) split, length-append (print v) behind, print-pos v) in
      ap (decode_items (decode_value sorted levels) (suc rounds)) split
      ∙ items_step sorted levels (decode_value sorted levels) v (print v ++ behind) behind end items
          rounds (print-IsStart v behind) (decode_value-print sorted levels v behind fits)
          (decode_items-print sorted levels items rounds end fit left)

  decode_fields-print :
      (sorted : Bool) (levels : ℕ) (pairs : Fields) (rounds : ℕ) (seen : List Bytes) (end : Bytes)
      → FitFields sorted levels seen pairs
      → length (print_fields pairs ++ b'e' ∷ end) < rounds
      → decode_fields sorted
          (decode_value sorted levels)
          rounds
          seen
          (print_fields pairs ++ b'e' ∷ end)
        ≡ ok (pairs, end)
  decode_fields-print sorted levels pairs zero seen end fits enough = absurd (omega arith)
  decode_fields-print sorted levels no_fields (suc rounds) seen end fits enough = refl
  decode_fields-print sorted levels (field k v pairs) (suc rounds) seen end
        (key, new, order, fits, fit) enough =
      let after = print_fields pairs ++ b'e' ∷ end in
      let behind = print v ++ after in
      let split : (encode_string k ++ (print v ++ print_fields pairs)) ++ b'e' ∷ end
          ≡ encode_string k ++ behind =
        append_assoc (encode_string k) (print v ++ print_fields pairs) (b'e' ∷ end)
        ∙ ap (λ x. encode_string k ++ x)
            (append_assoc (print v) (print_fields pairs) (b'e' ∷ end)) in
      let left : length after < rounds = omega (
        arith,
        ap (length {0}) split,
        length-append (encode_string k) behind,
        length-append (print v) after,
        print-pos (string k),
      ) in
      ap (decode_fields sorted (decode_value sorted levels) (suc rounds) seen) split
      ∙ fields_step sorted levels (decode_value sorted levels) k v (encode_string k ++ behind)
          behind after end pairs seen rounds (print-IsStart (string k) behind)
          (decode_string sorted levels k behind key) new order
          (decode_value-print sorted levels v after fits)
          (decode_fields-print sorted levels pairs rounds (k ∷ seen) end fit left)
