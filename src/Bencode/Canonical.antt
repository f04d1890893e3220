-- ===== src/Bencode/Canonical.antt =====
-- The encoder's output is the input of the strict decoder, byte for byte.
use peer_stream.Prelude.{
  ℕ, zero, suc, ◌≤◌, ◌≡◌, refl, sym, ap, ◌∙◌, true, List, [], ◌∷◌, ◌++◌, length, Bytes, ok,
}
use peer_stream.Bencode.{
  Value, Items, Fields, int, string, list, dict, no_items, item, no_fields, field, insert_entry,
  sort_entries, join_entries, entries_of, encode, encode_items, decode,
}
use peer_stream.Bencode.Print.{print, print_items, print_fields, Fits, FitItems, FitFields}
use peer_stream.Bencode.Exact.{decode-print_iff}

-- Keys that the strict decoder takes are sorted, so sorting changes nothing.
sort_entries-fit :
    (levels : ℕ) (seen : List Bytes) (pairs : Fields)
    → FitFields true levels seen pairs
    → sort_entries (entries_of pairs) ≡ entries_of pairs
unfolding encode Fits
sort_entries-fit levels seen no_fields fit = refl
sort_entries-fit levels seen (field k v no_fields) fit = refl
sort_entries-fit levels seen (field k v (field j w pairs))
      (_, _, _, _, (key, new, order, fits, fit)) =
    ap (insert_entry (record { key = k; encoded = encode v }))
      (sort_entries-fit levels (k ∷ seen) (field j w pairs) (key, new, order, fits, fit))
    ∙ rw order refl

mutual
  unfolding encode print Fits

  encode-print : (levels : ℕ) (v : Value) → Fits true levels v → encode v ≡ print v
  encode-print zero (int n) fits = refl
  encode-print zero (string text) fits = refl
  encode-print zero (list items) fits = absurd fits
  encode-print zero (dict pairs) fits = absurd fits
  encode-print (suc levels) (int n) fits = refl
  encode-print (suc levels) (string text) fits = refl
  encode-print (suc levels) (list items) fits =
      ap (λ x. b'l' ∷ (x ++ b'e' ∷ [])) (encode_items-print levels items fits)
  encode-print (suc levels) (dict pairs) fits =
      ap (λ x. b'd' ∷ (x ++ b'e' ∷ []))
        (ap join_entries (sort_entries-fit levels [] pairs fits)
          ∙ entries_of-print levels [] pairs fits)

  encode_items-print :
      (levels : ℕ) (items : Items)
      → FitItems true levels items
      → encode_items items ≡ print_items items
  encode_items-print levels no_items fit = refl
  encode_items-print levels (item v items) (fits, fit) =
      rw (encode-print levels v fits, encode_items-print levels items fit) refl

  entries_of-print :
      (levels : ℕ) (seen : List Bytes) (pairs : Fields)
      → FitFields true levels seen pairs
      → join_entries (entries_of pairs) ≡ print_fields pairs
  entries_of-print levels seen no_fields fit = refl
  entries_of-print levels seen (field k v pairs) (_, _, _, fits, fit) =
      rw (encode-print levels v fits, entries_of-print levels (k ∷ seen) pairs fit) refl

-- What the decoder takes with sorted keys is encoded to the very bytes that were decoded, so that the
-- hash over an encoded dictionary is the hash over what was received.
pub encode-decode_sorted :
    (max_depth max_length : ℕ) (raw : Bytes) (v : Value)
    → decode max_depth max_length true raw ≡ ok v
    → encode v ≡ raw
encode-decode_sorted max_depth max_length raw v h =
    let (deep, short, fits, same) = (decode-print_iff max_depth max_length true raw v).0 h in
    encode-print (suc max_depth) v fits ∙ same

-- A value with sorted keys that fits the limits, and whose encoding is not too long, is read back
-- from its encoding.
pub decode-encode_sorted :
    (max_depth max_length : ℕ) (v : Value)
    → 1 ≤ max_depth
    → Fits true (suc max_depth) v
    → length (encode v) ≤ max_length
    → decode max_depth max_length true (encode v) ≡ ok v
decode-encode_sorted max_depth max_length v deep fits short =
    (decode-print_iff max_depth max_length true (encode v) v).1
      (deep, short, fits, sym (encode-print (suc max_depth) v fits))
