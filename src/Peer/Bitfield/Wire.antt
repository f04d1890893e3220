-- ===== src/Peer/Bitfield/Wire.antt =====
-- The wire form of a bitfield.
use Prim.Native.Nat.{bit_and}
use peer_stream.Prelude.{
  dec_lt, index_error, ltb, if◌then◌else◌, err, ℕ, zero, suc, ◌≢◌, ◌*◌, ◌++◌, ◌+◌, ◌/◌, ◌%◌, ◌≤◌,
  ◌<◌, ◌≡◌, refl, ap, Bool-cases, false, inl, inr, [], ◌∷◌, length, take, take_append,
  length-append, get_or-take, length-take, get_or, ltb, ◌==◌, ==→ne, if◌then◌else◌, arith, lt→ltb,
  le→ltb, and_true, err, Bytes, IsBytes, IsBytes-get_or, IsBytes-take, ok, ◌∙◌, sym,
}
use peer_stream.Peer.Bitfield.{
  Bitfield, byte_count, mask_last, spare_mask, mask_spare_bits, test_bit, holds, has, parse,
  to_wire,
}
use peer_stream.Peer.Bitfield.Masks.{mask-eq}
use peer_stream.Peer.Bitfield.Invariant.{
  IsSized, IsValid, mask_spare_bits-IsValid, holds-mask_spare_bits, piece_count-mask_spare_bits,
}

abbrev last_byte : Bytes → ℕ
last_byte [] = 0
last_byte (b ∷ []) = b
last_byte (b ∷ c ∷ bits) = last_byte (c ∷ bits)

mask_last-eq :
    (mask : ℕ) (bits : Bytes)
    → bit_and (last_byte bits) mask ≡ last_byte bits
    → mask_last mask bits ≡ bits
mask_last-eq mask [] h = refl
mask_last-eq mask (b ∷ []) h = ap (λ c. c ∷ []) h
mask_last-eq mask (b ∷ c ∷ bits) h = ap (λ r. b ∷ r) (mask_last-eq mask (c ∷ bits) h)

get_or-last : (bits : Bytes) (k : ℕ) → k + 1 ≡ length bits → get_or bits k 0 ≡ last_byte bits
get_or-last [] k h = refl
get_or-last (b ∷ []) zero h = refl
get_or-last (b ∷ []) (suc k) h = absurd (omega arith)
get_or-last (b ∷ c ∷ bits) zero h = absurd (omega arith)
get_or-last (b ∷ c ∷ bits) (suc k) h = get_or-last (c ∷ bits) k (omega arith)

-- The spare bits of a valid bitfield's last byte are clear.
last_byte-clear :
    (field : Bitfield)
    → IsValid field
    → field.piece_count % 8 ≢ 0
    → bit_and (last_byte field.bits) (spare_mask (field.piece_count % 8)) ≡ last_byte field.bits
last_byte-clear field v some_spare =
    let place = field.piece_count / 8 in
    let at_last = get_or-last field.bits place (omega (arith, v.size)) in
    let byte : last_byte field.bits < 256 =
      rw at_last at (IsBytes-get_or field.bits place v.bytes) in
    mask-eq (last_byte field.bits) (field.piece_count % 8) byte (omega arith) λ other k past.
      let index = place * 8 + other in
      let same_place : index / 8 ≡ place = omega arith in
      let same_bit : index % 8 ≡ other = omega arith in
      let clear : test_bit (get_or field.bits (index / 8) 0) (index % 8) ≡ false =
        unfold holds in v.clear index (omega arith) in
      rw (same_place, same_bit, at_last) at clear

-- A valid bitfield has no spare bit to mask.
mask_spare_bits_valid : (field : Bitfield) → IsValid field → mask_spare_bits field ≡ field
unfolding mask_spare_bits
mask_spare_bits_valid field v = elim (Bool-cases (field.piece_count % 8 == 0)) [
  | inl whole ↦ rw whole
  | inr some_spare ↦ rw some_spare (
      ap (λ (b : Bytes). record field { bits = b })
        (mask_last-eq _ field.bits (last_byte-clear field v (==→ne _ 0 some_spare))))
]

-- Writing a valid bitfield to the wire leaves it as it is, and reading the bytes back with the same
-- piece count, whatever bytes follow, gives the bitfield.
pub parse-to_wire :
    (field : Bitfield) (junk : Bytes)
    → IsValid field
    → ((to_wire field).0 ≡ field) × (parse ((to_wire field).1 ++ junk) field.piece_count ≡ ok field)
unfolding to_wire parse
parse-to_wire field junk v =
    let same = mask_spare_bits_valid field v in
    (
      same,
      rw (
        same,
        le→ltb (length (field.bits ++ junk)) (byte_count field.piece_count)
            (omega (arith, v.size, length-append field.bits junk)),
        take_append field.bits junk (byte_count field.piece_count) (sym v.size),
        same,
      ),
    )

-- Enough bytes from the wire give a valid bitfield that holds the pieces whose bits are set in them.
pub parse-has :
    (raw : Bytes) (piece_count : ℕ)
    → IsBytes raw
    → byte_count piece_count ≤ length raw
    → (field : Bitfield) × (parse raw piece_count ≡ ok field)
      × IsValid field
      × (field.piece_count ≡ piece_count)
      × ((index : ℕ)
          → has field index ≡ (
              if ltb index piece_count
              then ok (test_bit (get_or raw (index / 8) 0) (index % 8))
              else err index_error))
unfolding parse has
parse-has raw piece_count bytes long =
    let start : Bitfield = record {
      piece_count = piece_count;
      bits = take (byte_count piece_count) raw;
    } in
    let sized : IsSized start = record {
      size = omega (arith, length-take (byte_count piece_count) raw);
      bytes = IsBytes-take (byte_count piece_count) raw bytes;
    } in
    let same = piece_count-mask_spare_bits start in
    (
      mask_spare_bits start,
      ground arith,
      mask_spare_bits-IsValid start sized,
      same,
      λ index. elim (dec_lt index piece_count) [
        | yes k ↦
            rw
              (
                same,
                lt→ltb index piece_count k,
                holds-mask_spare_bits start index sized,
                lt→ltb index piece_count k,
              )
              (ap ok (
                and_true _
                ∙ unfold holds in
                  rw (get_or-take (byte_count piece_count) (index / 8) raw 0 (omega arith))))
        | no k ↦ rw (same, le→ltb index piece_count (omega arith)) refl
      ],
    )
