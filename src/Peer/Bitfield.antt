-- ===== src/Peer/Bitfield.antt =====
-- app/peer/bitfield.py: piece bitfields, one bit per piece, most significant bit first.
mod Masks
pub mod Invariant
pub mod Access
pub mod Wire
pub mod Count
pub mod Wanted
use Prim.Native.Nat.{bit_and, bit_or}
use peer_stream.Prelude.{
  ℕ, zero, suc, ◌+◌, ◌-◌, ◌*◌, ◌/◌, ◌%◌, ◌^◌, Bool, not, ◌&&◌, List, [], ◌∷◌, length, take, get_or,
  set, replicate, ltb, ◌==◌, if◌then◌else◌, Bytes, from_bytes, Result, ok, err, ◌>>=◌, ◌>>◌, guard,
  index_error, message_error, value_error, filter, range_from, bytes_eq, true, false, ◌||◌,
}

abbrev pub bits_per_byte : ℕ
bits_per_byte = 8

abbrev pub byte_count : ℕ → ℕ
byte_count piece_count = (piece_count + bits_per_byte - 1) / bits_per_byte

pub record Bitfield : Type 0 where
  pub piece_count : ℕ
  pub bits : Bytes

-- `Bitfield(piece_count)`
unfoldable pub empty_field : ℕ → Bitfield
empty_field piece_count = record {
  piece_count = piece_count;
  bits = replicate (byte_count piece_count) 0;
}

-- `bits[-1] &= mask`, where there is a last byte
abbrev pub mask_last : ℕ → Bytes → Bytes
mask_last mask [] = []
mask_last mask (b ∷ []) = bit_and b mask ∷ []
mask_last mask (b ∷ c ∷ bits) = b ∷ mask_last mask (c ∷ bits)

-- `(0xFF << (8 - spare)) & 0xFF`
abbrev pub spare_mask : ℕ → ℕ
spare_mask spare = bit_and (0xFF * 2 ^ (bits_per_byte - spare)) 0xFF

unfoldable pub mask_spare_bits : Bitfield → Bitfield
mask_spare_bits field =
    let spare = field.piece_count % bits_per_byte in
    if spare == 0 then field else record field { bits = mask_last (spare_mask spare) field.bits }

-- `Bitfield.from_bytes`
unfoldable pub parse : Bytes → ℕ → Result Bitfield
parse raw piece_count = do
  guard (not (ltb (length raw) (byte_count piece_count))) message_error
  ok (
      mask_spare_bits
        (record { piece_count = piece_count; bits = take (byte_count piece_count) raw }))

unfoldable pub full : ℕ → Bitfield
full piece_count =
    mask_spare_bits
      (record { piece_count = piece_count; bits = replicate (byte_count piece_count) 0xFF })

-- `0x80 >> bit`
abbrev pub bit_mask : ℕ → ℕ
bit_mask bit = 0x80 / 2 ^ bit

abbrev pub test_bit : ℕ → ℕ → Bool
test_bit byte bit = not (bit_and byte (bit_mask bit) == 0)

-- The test of `has`, once the index is known to be in range.
unfoldable pub holds : Bitfield → ℕ → Bool
holds field index = test_bit (get_or field.bits (index / bits_per_byte) 0) (index % bits_per_byte)

unfoldable pub check : Bitfield → ℕ → Result (Unit {0})
check field index = guard (ltb index field.piece_count) index_error

unfoldable pub has : Bitfield → ℕ → Result Bool
unfolding check holds
has field index = do check field index; ok (holds field index)

-- `bits[byte] |= 0x80 >> bit`, or `bits[byte] &= ~(0x80 >> bit) & 0xFF`
abbrev pub write_bit : ℕ → ℕ → Bool → ℕ
write_bit byte bit value =
    if value then bit_or byte (bit_mask bit) else bit_and byte (0xFF - bit_mask bit)

abbrev pub write : Bitfield → ℕ → Bool → Bitfield
write field index value =
    let place = index / bits_per_byte in
    let byte = write_bit (get_or field.bits place 0) (index % bits_per_byte) value in
    record field { bits = set field.bits place byte }

-- `Bitfield.set`
unfoldable pub put : Bitfield → ℕ → Bool → Result Bitfield
unfolding check
put field index value = do check field index; ok (write field index value)

unfoldable pub clear : Bitfield → ℕ → Result Bitfield
unfolding put
clear field index = put field index false

-- `Bitfield.from_indices`: the loop over the indices
abbrev pub put_all : List ℕ → Bitfield → Result Bitfield
put_all [] field = ok field
put_all (index ∷ rest) field = do next ← put field index true; put_all rest next

unfoldable pub from_indices : List ℕ → ℕ → Result Bitfield
unfolding put empty_field
from_indices indices piece_count = put_all indices (empty_field piece_count)

-- `int.bit_count` of a number below 2 ^ fuel
abbrev pub bit_count_below : ℕ → ℕ → ℕ
bit_count_below zero n = 0
bit_count_below (suc fuel) n = elim (n == 0) [
  | true ↦ 0
  | false ↦ n % 2 + bit_count_below fuel (n / 2)
]

unfoldable pub bit_count : ℕ → ℕ
bit_count n = bit_count_below n n

unfoldable pub count : Bitfield → ℕ
unfolding bit_count
count field = bit_count (from_bytes field.bits)

unfoldable pub complete : Bitfield → Bool
unfolding count
complete field = count field == field.piece_count

unfoldable pub is_none : Bitfield → Bool
unfolding count
is_none field = count field == 0

-- `[index for index in range(self._piece_count) if self.has(index)]`: the range check of `has`
-- passes for each index of the range.
unfoldable pub indices : Bitfield → List ℕ
unfolding holds
indices field = filter (holds field) (range_from 0 field.piece_count)

abbrev pub lacks : Bitfield → Bitfield → ℕ → Bool
lacks field other index = holds other index && not (holds field index)

unfoldable pub missing_from : Bitfield → Bitfield → Result (List ℕ)
unfolding holds
missing_from field other = do
  guard (other.piece_count == field.piece_count) value_error
  ok (filter (lacks field other) (range_from 0 field.piece_count))

-- `any(... for index in range(...))`
abbrev pub any_of : (ℕ → Bool) → List ℕ → Bool
any_of test [] = false
any_of test (index ∷ rest) = test index || any_of test rest

unfoldable pub is_interesting : Bitfield → Bitfield → Result Bool
unfolding holds
is_interesting field other = do
  guard (other.piece_count == field.piece_count) value_error
  ok (any_of (lacks field other) (range_from 0 field.piece_count))

-- `Bitfield.to_bytes`: masks the field itself, and returns its bytes
unfoldable pub to_wire : Bitfield → Bitfield × Bytes
to_wire field = let masked = mask_spare_bits field in (masked, masked.bits)

-- `__eq__`
unfoldable pub same_field : Bitfield → Bitfield → Bool
same_field a b = (a.piece_count == b.piece_count) && bytes_eq a.bits b.bits
