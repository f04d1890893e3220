-- ===== src/Peer/Bitfield/Invariant.antt =====
-- The invariant of a bitfield: a byte for each eight pieces, and no bit beyond the last piece.
use Prim.Native.Nat.{bit_and}
use peer_stream.Prelude.{
  not, subst, and_true, and_false, lt→ltb, le→ltb, ==_iff, dec_le, ℕ, zero, suc, ◌+◌, ◌/◌, ◌%◌, ◌≤◌,
  ◌<◌, ◌≡◌, refl, ap, Bool-cases, false, ◌&&◌, inl, inr, [], ◌∷◌, length, get_or, take, replicate,
  length-take, length-replicate, ltb, ◌==◌, if◌then◌else◌, get_or_past, arith, Bytes, IsBytes,
  IsBytes-get_or, IsBytes-take, IsBytes-replicate, ok, guard-eq-ok, message_error, ◌∙◌, sym,
}
use peer_stream.Peer.Bitfield.{
  Bitfield, byte_count, mask_last, spare_mask, mask_spare_bits, holds, empty_field, full, parse,
}
use peer_stream.Peer.Bitfield.Masks.{test_bit-mask, test_bit-zero, mask-lt}

pub record IsSized (field : Bitfield) : Type 0 where
  pub size : length field.bits ≡ byte_count field.piece_count
  pub bytes : IsBytes field.bits

pub record IsValid (field : Bitfield) : Type 0 where
  pub sized : IsSized field
  pub open sized use *
  pub clear : (index : ℕ) → field.piece_count ≤ index → holds field index ≡ false

length-mask_last : (mask : ℕ) (bits : Bytes) → length (mask_last mask bits) ≡ length bits
length-mask_last mask [] = refl
length-mask_last mask (b ∷ []) = refl
length-mask_last mask (b ∷ c ∷ bits) = ap suc (length-mask_last mask (c ∷ bits))

get_or-mask_last :
    (mask : ℕ) (bits : Bytes) (i : ℕ)
    → i < length bits
    → get_or (mask_last mask bits) i 0
      ≡ (if i + 1 == length bits then bit_and (get_or bits i 0) mask else get_or bits i 0)
get_or-mask_last mask [] i h = absurd (omega arith)
get_or-mask_last mask (b ∷ []) zero h = refl
get_or-mask_last mask (b ∷ []) (suc i) h = absurd (omega arith)
get_or-mask_last mask (b ∷ c ∷ bits) zero h = ground arith
get_or-mask_last mask (b ∷ c ∷ bits) (suc i) h =
    ground (arith, get_or-mask_last mask (c ∷ bits) i (omega arith))

IsBytes-mask_last :
    (spare : ℕ) (bits : Bytes)
    → spare < 8
    → IsBytes bits
    → IsBytes (mask_last (spare_mask spare) bits)
IsBytes-mask_last spare [] s h = tt
IsBytes-mask_last spare (b ∷ []) s h = (mask-lt b spare h.0 s, tt)
IsBytes-mask_last spare (b ∷ c ∷ bits) s h = (h.0, IsBytes-mask_last spare (c ∷ bits) s h.1)

-- A bit past the bytes is clear.
pub holds_past :
    (field : Bitfield) (index : ℕ) → length field.bits ≤ index / 8 → holds field index ≡ false
unfolding holds
holds_past field index h =
    rw (get_or_past field.bits (index / 8) 0 h) (test_bit-zero (index % 8) (omega arith))

pub piece_count-mask_spare_bits :
    (field : Bitfield) → (mask_spare_bits field).piece_count ≡ field.piece_count
unfolding mask_spare_bits
piece_count-mask_spare_bits field = ground arith

pub mask_spare_bits-IsSized : (field : Bitfield) → IsSized field → IsSized (mask_spare_bits field)
unfolding mask_spare_bits
mask_spare_bits-IsSized field sized = elim (Bool-cases (field.piece_count % 8 == 0)) [
  | inl whole ↦ rw whole sized
  | inr some_spare ↦ rw some_spare (record {
    size = length-mask_last _ field.bits ∙ sized.size;
    bytes = IsBytes-mask_last (field.piece_count % 8) field.bits (omega arith) sized.bytes;
  })
]

-- Masking a byte of the last piece clears its spare bits; the bytes before it stay.
holds-mask_last :
    (field : Bitfield) (index spare : ℕ)
    → IsBytes field.bits
    → spare < 8
    → index / 8 < length field.bits
    → holds (record field { bits = mask_last (spare_mask spare) field.bits }) index ≡ (
        if index / 8 + 1 == length field.bits
        then holds field index && ltb (index % 8) spare
        else holds field index)
unfolding holds
holds-mask_last field index spare bytes s inside =
    rw (get_or-mask_last (spare_mask spare) field.bits (index / 8) inside)
      (elim (Bool-cases (index / 8 + 1 == length field.bits)) [
        | inl last ↦ rw last (
            test_bit-mask (get_or field.bits (index / 8) 0) spare
              (IsBytes-get_or field.bits (index / 8) bytes) s (index % 8) (omega arith))
        | inr before ↦ rw before
      ])

get_or-replicate_zero : (n i : ℕ) → get_or {A = ℕ} (replicate n 0) i 0 ≡ 0
get_or-replicate_zero zero i = refl
get_or-replicate_zero (suc n) zero = refl
get_or-replicate_zero (suc n) (suc i) = get_or-replicate_zero n i

holds-replicate_zero :
    (piece_count n index : ℕ)
    → holds (record { piece_count = piece_count; bits = replicate n 0 }) index ≡ false
unfolding holds
holds-replicate_zero piece_count n index =
    rw (get_or-replicate_zero n (index / 8)) (test_bit-zero (index % 8) (omega arith))

-- Masking clears exactly the bits that belong to no piece.
pub holds-mask_spare_bits :
    (field : Bitfield) (index : ℕ)
    → IsSized field
    → holds (mask_spare_bits field) index ≡ holds field index && ltb index field.piece_count
unfolding mask_spare_bits
holds-mask_spare_bits field index sized = elim (dec_le (length field.bits) (index / 8)) [
  | yes past ↦
      holds_past (mask_spare_bits field) index (
        omega (
          arith,
          (mask_spare_bits-IsSized field sized).size,
          sized.size,
          piece_count-mask_spare_bits field,
        ))
      ∙ sym (rw (holds_past field index past))
  | no inside ↦ elim (Bool-cases (field.piece_count % 8 == 0)) [
    | inl whole ↦
        rw (whole, lt→ltb index field.piece_count (omega (arith, (==_iff _ 0).0 whole, sized.size)))
          (sym (and_true _))
    | inr some_spare ↦
        rw
          (
            some_spare,
            holds-mask_last field index (field.piece_count % 8) sized.bytes (omega arith)
                (omega arith),
          )
          (ground (arith, sized.size))
  ]
]

pub mask_spare_bits-IsValid : (field : Bitfield) → IsSized field → IsValid (mask_spare_bits field)
mask_spare_bits-IsValid field sized = record {
  sized = mask_spare_bits-IsSized field sized;
  clear = λ index past.
      holds-mask_spare_bits field index sized
      ∙ rw (le→ltb index field.piece_count (omega (arith, piece_count-mask_spare_bits field)))
          (and_false _);
}

pub holds-empty_field : (piece_count index : ℕ) → holds (empty_field piece_count) index ≡ false
unfolding empty_field
holds-empty_field piece_count index =
    holds-replicate_zero piece_count (byte_count piece_count) index

-- A new bitfield, a full one and one read off the wire are valid.
pub empty_field-IsValid : (piece_count : ℕ) → IsValid (empty_field piece_count)
unfolding empty_field
empty_field-IsValid piece_count = record {
  sized = record {
    size = length-replicate (byte_count piece_count) 0;
    bytes = IsBytes-replicate (byte_count piece_count) 0 (omega arith);
  };
  clear = λ index _. holds-replicate_zero piece_count (byte_count piece_count) index;
}

pub full-IsValid : (piece_count : ℕ) → IsValid (full piece_count)
unfolding full
full-IsValid piece_count = mask_spare_bits-IsValid _ (record {
  size = length-replicate (byte_count piece_count) 0xFF;
  bytes = IsBytes-replicate (byte_count piece_count) 0xFF (omega arith);
})

pub parse-IsValid :
    (raw : Bytes) (piece_count : ℕ) {field : Bitfield}
    → IsBytes raw
    → parse raw piece_count ≡ ok field
    → IsValid field × (field.piece_count ≡ piece_count)
unfolding parse
parse-IsValid raw piece_count {field} bytes h =
    let start : Bitfield = record {
      piece_count = piece_count;
      bits = take (byte_count piece_count) raw;
    } in
    let (long, done) =
      guard-eq-ok (not (ltb (length raw) (byte_count piece_count))) message_error _ h in
    let same : mask_spare_bits start ≡ field = ground arith in
    let valid = mask_spare_bits-IsValid start (record {
      size = ground (arith, length-take (byte_count piece_count) raw);
      bytes = IsBytes-take (byte_count piece_count) raw bytes;
    }) in
    (
      subst IsValid same valid,
      ap (λ f. f.piece_count) (sym same) ∙ piece_count-mask_spare_bits start,
    )
