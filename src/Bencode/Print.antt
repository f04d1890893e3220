-- ===== src/Bencode/Print.antt =====
-- A value printed with its keys in the order in which they stand, and the limits of the decoder.
use peer_stream.Prelude.{
  ℕ, zero, suc, ◌≤◌, ◌<◌, ◌≡◌, ap, Bool, false, ◌&&◌, List, [], ◌∷◌, ◌++◌, length, length-append,
  arith, Bytes,
}
use peer_stream.Bencode.{
  Value, Items, Fields, int, string, list, dict, no_items, item, no_fields, field, decimal,
  encode_int, encode_string, int_text, max_int_digits, max_length_digits, is_seen, is_before,
}

unfoldable mutual
  pub print : Value → Bytes
  print (int n) = encode_int n
  print (string text) = encode_string text
  print (list items) = b'l' ∷ (print_items items ++ b'e' ∷ [])
  print (dict pairs) = b'd' ∷ (print_fields pairs ++ b'e' ∷ [])

  pub print_items : Items → Bytes
  print_items no_items = []
  print_items (item v items) = print v ++ print_items items

  pub print_fields : Fields → Bytes
  print_fields no_fields = []
  print_fields (field k v pairs) = encode_string k ++ (print v ++ print_fields pairs)

abbrev pub StringFits : ℕ → Bytes → Type 0
StringFits zero text = ⊥
StringFits (suc levels) text = length (decimal (length text)) ≤ max_length_digits

-- The value nests at most so many levels deep, its numerals are within the digit limits, and no key
-- stands twice in a dictionary, nor, where keys must be sorted, before a smaller one.
unfoldable mutual
  pub Fits : Bool → ℕ → Value → Type 0
  Fits sorted zero v = ⊥
  Fits sorted (suc levels) (int n) = length (int_text n) ≤ max_int_digits
  Fits sorted (suc levels) (string text) = StringFits (suc levels) text
  Fits sorted (suc levels) (list items) = FitItems sorted levels items
  Fits sorted (suc levels) (dict pairs) = FitFields sorted levels [] pairs

  pub FitItems : Bool → ℕ → Items → Type 0
  FitItems sorted levels no_items = Unit
  FitItems sorted levels (item v items) = Fits sorted levels v × FitItems sorted levels items

  pub FitFields : Bool → ℕ → List Bytes → Fields → Type 0
  FitFields sorted levels seen no_fields = Unit
  FitFields sorted levels seen (field k v pairs) =
      StringFits levels k
      × (is_seen k seen ≡ false)
      × (sorted && is_before k seen ≡ false)
      × Fits sorted levels v
      × FitFields sorted levels (k ∷ seen) pairs

abbrev pub Reads : Bool → ℕ → Bytes → Value × Bytes → Type 0
Reads sorted levels raw (v, behind) = (raw ≡ print v ++ behind) × Fits sorted levels v

abbrev pub ReadsItems : Bool → ℕ → Bytes → Items × Bytes → Type 0
ReadsItems sorted levels raw (items, end) =
    (raw ≡ print_items items ++ b'e' ∷ end) × FitItems sorted levels items

abbrev pub ReadsFields : Bool → ℕ → List Bytes → Bytes → Fields × Bytes → Type 0
ReadsFields sorted levels seen raw (pairs, end) =
    (raw ≡ print_fields pairs ++ b'e' ∷ end) × FitFields sorted levels seen pairs

pub print-pos : (v : Value) → 0 < length (print v)
unfolding print
print-pos (int n) = omega arith
print-pos (string text) = omega (arith, length-append (decimal (length text)) (b':' ∷ text))
print-pos (list items) = omega arith
print-pos (dict pairs) = omega arith

pub shorter :
    (raw behind : Bytes) (v : Value) (rounds : ℕ)
    → raw ≡ print v ++ behind
    → length raw < suc rounds
    → length behind < rounds
shorter raw behind v rounds e h =
    omega (arith, ap length e, length-append (print v) behind, print-pos v)
