-- ===== src/Bencode.antt =====
-- app/bencode: the values, the strict decoder and the canonical encoder. A `Value` is what bencode
-- can represent, a dictionary with its keys in the order of insertion; the encoder's errors are for
-- objects of other types, which a `Value` is not. The cursor of a decoder is what is left of the
-- input from it on. The spans of a top-level dictionary are not modelled.
pub mod Numerals
pub mod Tokens
pub mod Print
pub mod Sound
pub mod Complete
pub mod Exact
pub mod Canonical
use peer_stream.Prelude.{
  ℕ, zero, suc, ◌+◌, ◌-◌, ◌*◌, ◌/◌, ◌%◌, Bool, true, false, not, ◌&&◌, ◌||◌, Option, none, some,
  List, [], ◌∷◌, ◌++◌, length, take, drop, ltb, leb, ◌==◌, if◌then◌else◌, Bytes, bytes_eq, bytes_lt,
  Result, ok, err, ◌>>=◌, ◌>>◌, guard, bencode_decode_error, out_of_rounds, value_error,
}
use peer_stream.Prelude.Int.{ℤ, pos, negsuc, neg}

abbrev pub default_max_depth : ℕ
default_max_depth = 100

abbrev pub default_max_length : ℕ
default_max_length = 64 * 1024 * 1024

abbrev pub max_length_digits : ℕ
max_length_digits = 20

abbrev pub max_int_digits : ℕ
max_int_digits = 1024

mutual
  pub data Value : Type 0 where
    int : ℤ → Value
    string : Bytes → Value
    list : Items → Value
    dict : Fields → Value

  pub data Items : Type 0 where
    no_items : Items
    item : Value → Items → Items

  pub data Fields : Type 0 where
    no_fields : Fields
    field : Bytes → Value → Fields → Fields

-- The decimal digits of a number, as `%d` prints them. A round divides by ten, so as many rounds as
-- the number says, and one, are enough.
abbrev pub to_digits : ℕ → ℕ → Bytes
to_digits zero n = []
to_digits (suc rounds) n =
    let front = to_digits rounds (n / 10) in
    if ltb n 10 then (b'0' + n) ∷ [] else front ++ (b'0' + n % 10) ∷ []

unfoldable pub decimal : ℕ → Bytes
decimal n = to_digits (suc n) n

-- `int(digits)`, for ASCII digits
unfoldable pub read_digits : ℕ → Bytes → ℕ
read_digits n [] = n
read_digits n (c ∷ digits) = read_digits (n * 10 + (c - b'0')) digits

abbrev pub is_digit : ℕ → Bool
is_digit c = leb b'0' c && leb c b'9'

abbrev pub all_digits : Bytes → Bool
all_digits [] = true
all_digits (c ∷ raw) = is_digit c && all_digits raw

abbrev pub is_empty : Bytes → Bool
is_empty [] = true
is_empty (c ∷ raw) = false

abbrev pub starts_with : ℕ → Bytes → Bool
starts_with b [] = false
starts_with b (c ∷ raw) = c == b

abbrev pub tail : Bytes → Bytes
tail [] = []
tail (c ∷ raw) = raw

abbrev pub prepend : ℕ → Option (Bytes × Bytes) → Option (Bytes × Bytes)
prepend c none = none
prepend c (some (front, behind)) = some (c ∷ front, behind)

-- `data.find(byte, pos)` with the slices before and behind what it finds
unfoldable pub split_at : ℕ → Bytes → Option (Bytes × Bytes)
split_at b [] = none
split_at b (c ∷ raw) = if c == b then some ([], raw) else prepend c (split_at b raw)

-- The encoder: entries of a dictionary are sorted by key.
abbrev pub int_text : ℤ → Bytes
int_text (pos n) = decimal n
int_text (negsuc n) = b'-' ∷ decimal (suc n)

abbrev pub encode_int : ℤ → Bytes
encode_int n = b'i' ∷ (int_text n ++ b'e' ∷ [])

abbrev pub encode_string : Bytes → Bytes
encode_string raw = decimal (length raw) ++ (b':' ∷ raw)

pub record Entry : Type 0 where
  pub key : Bytes
  pub encoded : Bytes

abbrev pub insert_entry : Entry → List Entry → List Entry
insert_entry e [] = e ∷ []
insert_entry e (f ∷ entries) =
    if bytes_lt f.key e.key then f ∷ insert_entry e entries else e ∷ f ∷ entries

-- `sorted(keys)`; the keys of a dictionary are distinct
abbrev pub sort_entries : List Entry → List Entry
sort_entries [] = []
sort_entries (e ∷ entries) = insert_entry e (sort_entries entries)

abbrev pub join_entries : List Entry → Bytes
join_entries [] = []
join_entries (e ∷ entries) = encode_string e.key ++ (e.encoded ++ join_entries entries)

unfoldable mutual
  pub encode : Value → Bytes
  encode (int n) = encode_int n
  encode (string raw) = encode_string raw
  encode (list items) = b'l' ∷ (encode_items items ++ b'e' ∷ [])
  encode (dict pairs) = b'd' ∷ (join_entries (sort_entries (entries_of pairs)) ++ b'e' ∷ [])

  pub encode_items : Items → Bytes
  encode_items no_items = []
  encode_items (item v items) = encode v ++ encode_items items

  pub entries_of : Fields → List Entry
  entries_of no_fields = []
  entries_of (field k v pairs) = record { key = k; encoded = encode v } ∷ entries_of pairs

unfoldable pub encoded_size : Value → ℕ
encoded_size v = length (encode v)

abbrev pub signed : Bool → ℕ → ℤ
signed true n = neg n
signed false n = pos n

-- The part of `_decode_int` behind the sign.
abbrev pub read_int : Bool → Bytes → Result ℤ
read_int negative digits = do
  guard (not (is_empty digits) && all_digits digits) bencode_decode_error
  guard (not (ltb 1 (length digits) && starts_with b'0' digits)) bencode_decode_error
  guard (not (negative && bytes_eq digits (b'0' ∷ []))) bencode_decode_error
  ok (signed negative (read_digits 0 digits))

abbrev pub read_int_token : Bytes → Result ℤ
read_int_token raw = do
  guard (not (is_empty raw)) bencode_decode_error
  guard (leb (length raw) max_int_digits) bencode_decode_error
  read_int (starts_with b'-' raw) (if starts_with b'-' raw then tail raw else raw)

abbrev pub found : Option (Bytes × Bytes) → Result (Bytes × Bytes)
found none = err bencode_decode_error
found (some parts) = ok parts

-- Behind the `i`.
unfoldable pub decode_int : Bytes → Result (ℤ × Bytes)
decode_int raw = do
  (token, behind) ← found (split_at b'e' raw)
  n ← read_int_token token
  ok (n, behind)

unfoldable pub decode_bytes : Bytes → Result (Bytes × Bytes)
decode_bytes raw = do
  (digits, behind) ← found (split_at b':' raw)
  guard (not (is_empty digits) && all_digits digits) bencode_decode_error
  guard (leb (length digits) max_length_digits) bencode_decode_error
  guard (not (ltb 1 (length digits) && starts_with b'0' digits)) bencode_decode_error
  guard (leb (read_digits 0 digits) (length behind)) bencode_decode_error
  ok (take (read_digits 0 digits) behind, drop (read_digits 0 digits) behind)

-- The first byte of a value.
pub data Token : Type 0 where
  digit_token int_token list_token dict_token other_token : Token

abbrev pub token_of : ℕ → Token
token_of c =
    if is_digit c
    then digit_token
    else if c == b'i'
    then int_token
    else if c == b'l'
    then list_token
    else if c == b'd'
    then dict_token
    else other_token

abbrev pub Reader : Type 0
Reader = Bytes → Result (Value × Bytes)

-- The loop of `_decode_list`. Each item takes a byte at least.
unfoldable pub decode_items : Reader → ℕ → Bytes → Result (Items × Bytes)
decode_items value zero raw = err out_of_rounds
decode_items value (suc rounds) [] = err bencode_decode_error
decode_items value (suc rounds) (c ∷ raw) =
    let rest = do
      (v, behind) ← value (c ∷ raw)
      (items, end) ← decode_items value rounds behind
      ok (item v items, end)
    in if c == b'e' then ok (no_items, raw) else rest

-- `isinstance(key, bytes)`
abbrev pub as_key : Value → Result Bytes
as_key (string k) = ok k
as_key _ = err bencode_decode_error

abbrev pub is_seen : Bytes → List Bytes → Bool
is_seen k [] = false
is_seen k (j ∷ seen) = bytes_eq k j || is_seen k seen

-- `previous_key is not None and key < previous_key`: the last key that was seen stands first
abbrev pub is_before : Bytes → List Bytes → Bool
is_before k [] = false
is_before k (j ∷ seen) = bytes_lt k j

-- The loop of `_decode_dict`, with the keys of `mapping`.
unfoldable pub decode_fields : Bool → Reader → ℕ → List Bytes → Bytes → Result (Fields × Bytes)
decode_fields sorted value zero seen raw = err out_of_rounds
decode_fields sorted value (suc rounds) seen [] = err bencode_decode_error
decode_fields sorted value (suc rounds) seen (c ∷ raw) =
    let rest = do
      (key, behind) ← value (c ∷ raw)
      k ← as_key key
      guard (not (is_seen k seen)) bencode_decode_error
      guard (not (sorted && is_before k seen)) bencode_decode_error
      (v, after) ← value behind
      (pairs, end) ← decode_fields sorted value rounds (k ∷ seen) after
      ok (field k v pairs, end)
    in if c == b'e' then ok (no_fields, raw) else rest

abbrev pub with_value {ℓ} : {A : Type ℓ} → (A → Value) → A × Bytes → Result (Value × Bytes)
with_value build (a, behind) = ok (build a, behind)

-- The arms of `_decode_value`; `value` decodes one level down.
abbrev pub decode_token : Bool → Reader → Token → ℕ → Bytes → Result (Value × Bytes)
decode_token sorted value digit_token c raw = decode_bytes (c ∷ raw) >>= with_value string
decode_token sorted value int_token c raw = decode_int raw >>= with_value int
decode_token sorted value list_token c raw =
    decode_items value (suc (length raw)) raw >>= with_value list
decode_token sorted value dict_token c raw =
    decode_fields sorted value (suc (length raw)) [] raw >>= with_value dict
decode_token sorted value other_token c raw = err bencode_decode_error

-- `_decode_value`: `levels` is `max_depth + 1 - depth`, so that none are left where `depth` is
-- above `max_depth`.
unfoldable pub decode_value : Bool → ℕ → Reader
decode_value sorted zero raw = err bencode_decode_error
decode_value sorted (suc levels) [] = err bencode_decode_error
decode_value sorted (suc levels) (c ∷ raw) =
    decode_token sorted (decode_value sorted levels) (token_of c) c raw

-- `Decoder(...).decode_prefix()`, with what is left in place of the number of bytes consumed
unfoldable pub decode_prefix : ℕ → ℕ → Bool → Bytes → Result (Value × Bytes)
decode_prefix max_depth max_length sorted raw = do
  guard (leb (length raw) max_length) bencode_decode_error
  guard (leb 1 max_depth) value_error
  decode_value sorted (suc max_depth) raw

-- `Decoder(...).decode()`
unfoldable pub decode : ℕ → ℕ → Bool → Bytes → Result Value
unfolding decode_prefix
decode max_depth max_length sorted raw = do
  (v, behind) ← decode_prefix max_depth max_length sorted raw
  guard (is_empty behind) bencode_decode_error
  ok v
