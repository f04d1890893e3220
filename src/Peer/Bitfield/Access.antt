-- ===== src/Peer/Bitfield/Access.antt =====
-- Reading and writing single pieces.
use peer_stream.Prelude.{
  ℕ, ◌/◌, ◌%◌, ◌<◌, ◌≡◌, refl, Bool, Bool-cases, true, ◌||◌, inl, inr, length, get_or, length-set,
  ltb, ◌==◌, if◌then◌else◌, get_or-set, arith, err, index_error, List, All, [], ◌∷◌, IsBytes-get_or,
  IsBytes-set, ok, ◌∙◌,
}
use peer_stream.Peer.Bitfield.{
  any_of, Bitfield, write, write_bit, holds, has, put, put_all, from_indices, empty_field,
}
use peer_stream.Peer.Bitfield.Masks.{write_bit-lt, test_bit-write_bit}
use peer_stream.Peer.Bitfield.Invariant.{holds-empty_field, IsSized, IsValid, empty_field-IsValid}

inside :
    {field : Bitfield} (index : ℕ)
    → IsSized field
    → index < field.piece_count
    → index / 8 < length field.bits
inside index sized h = omega (arith, sized.size)

pub holds-write :
    (field : Bitfield) (index other : ℕ) (value : Bool)
    → IsSized field
    → index < field.piece_count
    → holds (write field index value) other ≡ (if index == other then value else holds field other)
unfolding holds
holds-write field index other value sized h =
    let byte = get_or field.bits (index / 8) 0 in
    rw
      (get_or-set field.bits (index / 8) (other / 8) (write_bit byte (index % 8) value) 0
        (inside index sized h))
      (elim (Bool-cases (index / 8 == other / 8)) [
        | inl near ↦
            rw
              (
                near,
                test_bit-write_bit value byte (index % 8)
                    (IsBytes-get_or field.bits (index / 8) sized.bytes) (omega arith) (other % 8)
                    (omega arith),
              )
              (ground arith)
        | inr far ↦ rw far (ground arith)
      ])

pub write-IsValid :
    (field : Bitfield) (index : ℕ) (value : Bool)
    → IsValid field
    → index < field.piece_count
    → IsValid (write field index value)
write-IsValid field index value v h =
    let byte = get_or field.bits (index / 8) 0 in
    record {
      sized = record {
        size = length-set field.bits (index / 8) _ ∙ v.size;
        bytes =
            IsBytes-set field.bits (index / 8) _
              (write_bit-lt value byte (index % 8) (IsBytes-get_or field.bits (index / 8) v.bytes)
                (omega arith))
              v.bytes;
      };
      clear = λ other past.
          holds-write field index other value v.sized h ∙ ground (arith, v.clear other past);
    }

put-write :
    (field : Bitfield) (index : ℕ) (value : Bool)
    → index < field.piece_count
    → put field index value ≡ ok (write field index value)
unfolding put
put-write field index value h = ground arith

-- At an index within the torrent, writing a piece succeeds, keeps the bitfield valid, and changes
-- what is read at that index and nowhere else.
pub has-put :
    (field : Bitfield) (index : ℕ) (value : Bool)
    → IsValid field
    → index < field.piece_count
    → (after : Bitfield) × (put field index value ≡ ok after)
      × IsValid after
      × (after.piece_count ≡ field.piece_count)
      × ((other : ℕ) → has after other ≡ (if index == other then ok value else has field other))
unfolding put has
has-put field index value v h = (
  write field index value,
  ground arith,
  write-IsValid field index value v h,
  refl,
  λ other. rw (holds-write field index other value v.sized h) (ground arith),
)

put_all_lem :
    (field : Bitfield) (indices : List ℕ)
    → IsValid field
    → All (λ index. index < field.piece_count) indices
    → (after : Bitfield) × (put_all indices field ≡ ok after)
      × IsValid after
      × (after.piece_count ≡ field.piece_count)
      × ((other : ℕ)
          → holds after other ≡ any_of (λ index. index == other) indices || holds field other)
put_all_lem field [] v all = (field, refl, v, refl, λ other. refl)
put_all_lem field (index ∷ rest) v (here, all) =
    let next = write field index true in
    let (after, done, valid, same, reads) =
      put_all_lem next rest (write-IsValid field index true v here) all in
    (
      after,
      rw (put-write field index true here) done,
      valid,
      same,
      λ other. reads other ∙ rw (holds-write field index other true v.sized here) (ground arith),
    )

-- A bitfield built from indices within the torrent holds exactly those pieces, and reading outside
-- the torrent raises `IndexError`.
pub from_indices-has :
    (indices : List ℕ) (piece_count : ℕ)
    → All (λ index. index < piece_count) indices
    → (field : Bitfield) × (from_indices indices piece_count ≡ ok field)
      × IsValid field
      × (field.piece_count ≡ piece_count)
      × ((other : ℕ)
          → has field other ≡ (
              if ltb other piece_count
              then ok (any_of (λ index. index == other) indices)
              else err index_error))
unfolding from_indices has
from_indices-has indices piece_count all =
    let start = empty_field piece_count in
    let (field, built, valid, same, reads) =
      put_all_lem start indices (empty_field-IsValid piece_count) all in
    (
      field,
      built,
      valid,
      same,
      λ other. rw (reads other, same) (ground (arith, holds-empty_field piece_count other)),
    )
