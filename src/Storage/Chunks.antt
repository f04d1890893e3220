-- ===== src/Storage/Chunks.antt =====
-- The chunks of a write are the data, in order.
use peer_stream.Prelude.{
  ◌⊎◌, ==_iff, ==→ne, nil_of_length, ℕ, zero, suc, ◌+◌, ◌-◌, ◌≤◌, ◌<◌, ◌≡◌, refl, sym, ap, subst,
  ◌∙◌, min, max, Bool-cases, inl, inr, none, some, List, [], ◌∷◌, ◌++◌, length, take, drop, ◌==◌,
  lt→ltb, arith, Bytes, ok, dec_lt, take-append-drop, drop-drop,
}
use peer_stream.Storage.{
  MappedFile, FileLayout, Chunk, clip, end_offset, spans_of, spans, cut, plan,
}

-- The files follow one another in the stream, from `first` to `last`.
abbrev pub Follow : ℕ → ℕ → List MappedFile → Type 0
Follow first last [] = first ≡ last
Follow first last (f ∷ files) = (f.offset ≡ first) × Follow (first + f.size) last files

abbrev pub joined : List Chunk → Bytes
joined [] = []
joined (c ∷ chunks) = c.bytes ++ joined chunks

-- What is consumed of a write from `start` to `end` once the files before `first` are done.
abbrev done_at : ℕ → ℕ → ℕ → ℕ
done_at start end first = min end (max start first) - start

drop_past : (n : ℕ) (view : Bytes) → length view ≤ n → drop n view ≡ []
drop_past n [] h = go n
  where
    go : (n : ℕ) → drop {A = ℕ} n [] ≡ []
    go zero = refl
    go (suc n) = refl
drop_past zero (x ∷ view) h = absurd (omega arith)
drop_past (suc n) (x ∷ view) h = drop_past n view (omega arith)

clip_cases :
    (start end : ℕ) (f : MappedFile)
    → start < end
    → ((clip start end f ≡ none)
        × (done_at start end (f.offset + f.size) ≡ done_at start end f.offset))
      ⊎ ((a : ℕ) × (b : ℕ) × (clip start end f ≡ some (a, b))
          × (a < b)
          × (done_at start end f.offset + (b - a) ≡ done_at start end (f.offset + f.size)))
clip_cases start end f h = elim (dec_lt 0 f.size) [
  | yes some_bytes ↦ elim (dec_lt f.offset end) [
    | yes early ↦ elim (dec_lt start (end_offset f)) [
      | yes late ↦ inr (
        max start f.offset - f.offset,
        min end (end_offset f) - f.offset,
        ground arith,
        omega arith,
        omega arith,
      )
      | no past ↦ inl (ground arith, omega arith)
    ]
    | no past ↦ inl (ground arith, omega arith)
  ]
  | no empty ↦ inl (ground arith, omega arith)
]

abbrev Covers : ℕ → ℕ → List MappedFile → Bytes → ℕ → Type 0
Covers start end files view first =
    (joined (cut (spans_of start end files) (done_at start end first) view).0
      ≡ drop (done_at start end first) view)
    × ((cut (spans_of start end files) (done_at start end first) view).1 ≡ length view)

Covers-cons :
    (start end : ℕ) (f : MappedFile) (files : List MappedFile) (view : Bytes)
    → start < end
    → Covers start end files view (f.offset + f.size)
    → Covers start end (f ∷ files) view f.offset
Covers-cons start end f files view some_bytes (bytes, used) =
    elim (clip_cases start end f some_bytes) [
      | inl (skipped, same) ↦ rw skipped (
          subst
            (λ n.
              (joined (cut (spans_of start end files) n view).0 ≡ drop n view)
              × ((cut (spans_of start end files) n view).1 ≡ length view))
            same (bytes, used))
      | inr (a, b, clipped, more, next) ↦
          let step = lt→ltb a b more in
          let before = done_at start end f.offset in
          let (bytes₁, used₁) =
            subst
              (λ n.
                (joined (cut (spans_of start end files) n view).0 ≡ drop n view)
                × ((cut (spans_of start end files) n view).1 ≡ length view))
              (sym next) (bytes, used) in
          rw (clipped, step)
            (
              ap (λ r. take (b - a) (drop before view) ++ r)
                    (bytes₁ ∙ sym (drop-drop (b - a) before view))
                  ∙ take-append-drop (b - a) (drop before view),
              used₁,
            )
    ]

cut-spans_of :
    (start end first last : ℕ) (files : List MappedFile) (view : Bytes)
    → start < end
    → end ≡ start + length view
    → end ≤ last
    → Follow first last files
    → Covers start end files view first
cut-spans_of start end first last [] view some_bytes size inside follow =
    (sym (drop_past (done_at start end first) view (omega arith)), omega arith)
cut-spans_of start end first last (f ∷ files) view some_bytes size inside (here, follow) =
    let follow₁ = subst (λ x. Follow (x + f.size) last files) (sym here) follow in
    subst (λ x. Covers start end (f ∷ files) view x) here
      (Covers-cons start end f files view some_bytes
        (cut-spans_of start end (f.offset + f.size) last files view some_bytes size inside follow₁))

-- A write inside a torrent whose files follow one another to its end succeeds, and its chunks, one
-- after the other, are the data.
pub plan-joined :
    (layout : FileLayout) (offset : ℕ) (view : Bytes)
    → Follow 0 layout.total_length layout.files
    → offset + length view ≤ layout.total_length
    → (chunks : List Chunk) × (plan offset view layout ≡ ok chunks) × (joined chunks ≡ view)
unfolding plan spans
plan-joined layout offset view follow inside = elim (Bool-cases (length view == 0)) [
  | inl empty ↦
      let nothing : length view ≡ 0 = (==_iff (length view) 0).0 empty in
      ([], ground arith, sym (nil_of_length view nothing))
  | inr full ↦
      let (bytes, used) =
        cut-spans_of offset (offset + length view) 0 layout.total_length layout.files view
          (omega (arith, ==→ne _ 0 full)) refl inside follow in
      let fresh : done_at offset (offset + length view) 0 ≡ 0 = omega arith in
      let found = spans_of offset (offset + length view) layout.files in
      let (bytes₀, used₀) =
        subst
          (λ n. (joined (cut found n view).0 ≡ drop n view) × ((cut found n view).1 ≡ length view))
          fresh (bytes, used) in
      ((cut found 0 view).0, ground (arith, used₀), bytes₀)
]
