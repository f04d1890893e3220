-- ===== src/Peer/Bitfield/Masks.antt =====
-- Facts about the bits of one byte, checked over every byte.
use Prim.Native.Nat.{bit_and}
use peer_stream.Prelude.{
  ltb→lt, Bool-cases, inl, inr, ℕ, zero, suc, ◌<◌, ◌≤◌, ◌≡◌, refl, Bool, true, false, not, ◌&&◌,
  ◌||◌, ltb, ◌==◌, ==_iff, if◌then◌else◌, arith, filter, range_from, length,
}
use peer_stream.Peer.Bitfield.{test_bit, write_bit, spare_mask, bit_count_below}

-- A test of the numbers before `count`, by evaluation.
passes_all : (test : ℕ → Bool) → ℕ → Bool
passes_all test zero = true
passes_all test (suc count) = passes_all test count && test count

passes_all_at :
    (test : ℕ → Bool) (count i : ℕ) → i < count → passes_all test count ≡ true → test i ≡ true
unfolding passes_all
passes_all_at test (suc count) i early all = ground (arith, passes_all_at test count i)
passes_all_at test zero i early all = absurd (omega arith)

abbrev same : Bool → Bool → Bool
same true b = b
same false b = not b

same→eq : (a b : Bool) → same a b ≡ true → a ≡ b
same→eq true true h = refl
same→eq true false h = cc
same→eq false true h = cc
same→eq false false h = refl

module _ (value : Bool) where
  abbrev write_row : ℕ → ℕ → ℕ → Bool
  write_row byte bit other =
      same (test_bit (write_bit byte bit value) other)
        (if bit == other then value else test_bit byte other)

  abbrev write_test : ℕ → Bool
  write_test byte =
      passes_all (λ bit. ltb (write_bit byte bit value) 256 && passes_all (write_row byte bit) 8) 8

write_table_set : passes_all (write_test true) 256 ≡ true
unfolding passes_all
write_table_set = refl

write_table_clear : passes_all (write_test false) 256 ≡ true
unfolding passes_all
write_table_clear = refl

write_table : (value : Bool) → passes_all (write_test value) 256 ≡ true
write_table true = write_table_set
write_table false = write_table_clear

and_left : (a b : Bool) → (a && b) ≡ true → a ≡ true
and_left true b h = refl
and_left false b h = h

and_right : (a b : Bool) → (a && b) ≡ true → b ≡ true
and_right true b h = h
and_right false b h = cc

module _ (value : Bool) (byte bit : ℕ) (b : byte < 256) (j : bit < 8) where
  write_entry : ltb (write_bit byte bit value) 256 && passes_all (write_row value byte bit) 8 ≡ true
  write_entry =
      passes_all_at _ 8 bit j (passes_all_at (write_test value) 256 byte b (write_table value))

  -- Writing a bit leaves a byte.
  pub write_bit-lt : write_bit byte bit value < 256
  write_bit-lt = ltb→lt _ _ (and_left _ (passes_all (write_row value byte bit) 8) write_entry)

  -- A bit that is written is read back, and the others are as they were.
  pub test_bit-write_bit :
      (other : ℕ)
      → other < 8
      → test_bit (write_bit byte bit value) other
        ≡ (if bit == other then value else test_bit byte other)
  test_bit-write_bit other k = same→eq _ _ (
      passes_all_at (write_row value byte bit) 8 other k
        (and_right (ltb (write_bit byte bit value) 256) _ write_entry))

abbrev mask_row : ℕ → ℕ → ℕ → Bool
mask_row spare byte other =
    same (test_bit (bit_and byte (spare_mask spare)) other) (test_bit byte other && ltb other spare)

-- The byte is what it is masked to, if its masked bits are clear.
abbrev mask_keeps : ℕ → ℕ → Bool
mask_keeps spare byte =
    not (passes_all (λ other. ltb other spare || not (test_bit byte other)) 8)
    || (bit_and byte (spare_mask spare) == byte)

abbrev mask_test : ℕ → Bool
mask_test byte =
    passes_all
      (λ spare.
        ltb (bit_and byte (spare_mask spare)) 256
        && (mask_keeps spare byte && passes_all (mask_row spare byte) 8))
      8

mask_table : passes_all mask_test 256 ≡ true
unfolding passes_all
mask_table = refl

passes_all_of :
    (test : ℕ → Bool) (count : ℕ)
    → ((i : ℕ) → i < count → test i ≡ true)
    → passes_all test count ≡ true
unfolding passes_all
passes_all_of test zero each = refl
passes_all_of test (suc count) each =
    rw (each count (omega arith), passes_all_of test count (λ i early. each i (omega arith))) refl

module _ (byte spare : ℕ) (b : byte < 256) (s : spare < 8) where
  abbrev masked : ℕ
  masked = bit_and byte (spare_mask spare)

  mask_entry :
      ltb masked 256 && (mask_keeps spare byte && passes_all (mask_row spare byte) 8) ≡ true
  mask_entry = passes_all_at _ 8 spare s (passes_all_at mask_test 256 byte b mask_table)

  pub mask-lt : masked < 256
  mask-lt =
      ltb→lt _ _
        (and_left _ (mask_keeps spare byte && passes_all (mask_row spare byte) 8) mask_entry)

  -- Masking clears the bits from `spare` on, and no others.
  pub test_bit-mask :
      (other : ℕ) → other < 8 → test_bit masked other ≡ test_bit byte other && ltb other spare
  test_bit-mask other k = same→eq _ _ (
      passes_all_at (mask_row spare byte) 8 other k
        (and_right (mask_keeps spare byte) _ (and_right (ltb masked 256) _ mask_entry)))

  -- A byte with those bits clear is left alone.
  pub mask-eq :
      ((other : ℕ) → other < 8 → spare ≤ other → test_bit byte other ≡ false) → masked ≡ byte
  mask-eq clear =
      let bits =
        passes_all_of (λ other. ltb other spare || not (test_bit byte other)) 8
          (λ other k. elim (Bool-cases (ltb other spare)) [
            | inl low ↦ rw low
            | inr high ↦ rw (high, clear other k (ground arith))
          ]) in
      let kept =
        and_left (mask_keeps spare byte) (passes_all (mask_row spare byte) 8)
          (and_right (ltb masked 256) _ mask_entry) in
      (==_iff masked byte).0 (rw bits at kept)

abbrev count_test : ℕ → Bool
count_test byte = bit_count_below 256 byte == length (filter (test_bit byte) (range_from 0 8))

count_table : passes_all count_test 256 ≡ true
unfolding passes_all
count_table = refl

pub bit_count-byte :
    (byte : ℕ)
    → byte < 256
    → bit_count_below 256 byte ≡ length (filter (test_bit byte) (range_from 0 8))
bit_count-byte byte b = (==_iff _ _).0 (passes_all_at count_test 256 byte b count_table)

zero_table : passes_all (λ other. not (test_bit 0 other)) 8 ≡ true
unfolding passes_all
zero_table = refl

pub test_bit-zero : (other : ℕ) → other < 8 → test_bit 0 other ≡ false
test_bit-zero other k = ground (arith, passes_all_at (λ o. not (test_bit 0 o)) 8 other k zero_table)
