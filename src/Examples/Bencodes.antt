-- ===== src/Examples/Bencodes.antt =====
-- The theorems on bencode at a dictionary with a number and a list of strings.
use peer_stream.Prelude.{
  ◌≤◌, ◌≡◌, ◌↔◌, refl, true, [], ◌∷◌, length, leb→le, Bytes, ok, err, bencode_decode_error,
}
use peer_stream.Prelude.Int.{pos}
use peer_stream.Bencode.{
  Value, int, string, list, dict, no_items, item, no_fields, field, decimal, split_at, decode_int,
  decode_value, decode, encode,
}
use peer_stream.Bencode.Print.{print, Fits}
use peer_stream.Bencode.Exact.{decode-print_iff, decode-raises_bencode}
use peer_stream.Bencode.Canonical.{encode-decode_sorted, decode-encode_sorted}

-- {b"a": 1, b"b": [b"x"]}
abbrev pair : Value
pair = dict (
    field (b'a' ∷ []) (int (pos 1))
      (field (b'b' ∷ []) (list (item (string (b'x' ∷ [])) no_items)) no_fields))

-- d1:ai1e1:bl1:xee
abbrev pair_bytes : Bytes
pair_bytes =
    b'd' ∷ b'1' ∷ b':' ∷ b'a' ∷ b'i' ∷ b'1' ∷ b'e' ∷ b'1' ∷ b':' ∷ b'b' ∷ b'l' ∷ b'1' ∷ b':' ∷ b'x'
    ∷ b'e' ∷ b'e' ∷ []

pair-Fits : Fits true 4 pair
unfolding Fits decimal
pair-Fits = (
  leb→le 1 20 refl,
  refl,
  refl,
  leb→le 1 1024 refl,
  (leb→le 1 20 refl, refl, refl, (leb→le 1 20 refl, tt), tt),
)

pair-print : print pair ≡ pair_bytes
unfolding print decimal
pair-print = refl

pair-encode : encode pair ≡ pair_bytes
unfolding encode decimal
pair-encode = refl

decode-print_iff_example :
    (decode 3 100 true pair_bytes ≡ ok pair)
    ↔ (1 ≤ 3) × (length pair_bytes ≤ 100) × Fits true 4 pair × (print pair ≡ pair_bytes)
decode-print_iff_example = decode-print_iff 3 100 true pair_bytes pair

pair-decode : decode 3 100 true pair_bytes ≡ ok pair
pair-decode =
    decode-print_iff_example.1 (leb→le 1 3 refl, leb→le 16 100 refl, pair-Fits, pair-print)

encode-decode_sorted_example : encode pair ≡ pair_bytes
encode-decode_sorted_example = encode-decode_sorted 3 100 pair_bytes pair pair-decode

decode-encode_sorted_example : decode 3 100 true (encode pair) ≡ ok pair
unfolding encode decimal
decode-encode_sorted_example =
    decode-encode_sorted 3 100 pair (leb→le 1 3 refl) pair-Fits (leb→le 16 100 refl)

-- A leading zero: i01e
abbrev leading_zero : Bytes
leading_zero = b'i' ∷ b'0' ∷ b'1' ∷ b'e' ∷ []

leading_zero-decode : decode 3 100 true leading_zero ≡ err bencode_decode_error
unfolding decode decode_value decode_int split_at
leading_zero-decode = refl

decode-raises_bencode_example : bencode_decode_error ≡ bencode_decode_error
decode-raises_bencode_example =
    decode-raises_bencode 3 100 true leading_zero bencode_decode_error (leb→le 1 3 refl)
      leading_zero-decode
