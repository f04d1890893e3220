-- ===== src/Download/Piece/Buffer.antt =====
-- Reading a buffer after a slice of it was assigned.
use peer_stream.Prelude.{
  ℕ, zero, suc, ◌+◌, ◌-◌, ◌≤◌, ◌<◌, ◌≡◌, refl, sym, ap, ◌∙◌, [], ◌∷◌, ◌++◌, lt→ltb, le→ltb, length,
  take, drop, get_or, get_or-take, length-append, length-take, length-drop, if◌then◌else◌, ltb,
  arith, Bytes,
}
use peer_stream.Download.Piece.{splice}

get_or-append :
    (xs ys : Bytes) (i : ℕ)
    → get_or (xs ++ ys) i 0
      ≡ (if ltb i (length xs) then get_or xs i 0 else get_or ys (i - length xs) 0)
get_or-append [] ys i = ground arith
get_or-append (x ∷ xs) ys zero = ground arith
get_or-append (x ∷ xs) ys (suc i) = ground (arith, get_or-append xs ys i)

get_or-drop : (n i : ℕ) (xs : Bytes) → get_or (drop n xs) i 0 ≡ get_or xs (n + i) 0
get_or-drop zero i xs = ap (λ j. get_or xs j 0) (omega arith)
get_or-drop (suc n) i [] = refl
get_or-drop (suc n) i (x ∷ xs) =
    let next : suc n + i ≡ suc (n + i) = omega arith in
    get_or-drop n i xs ∙ ap (λ j. get_or (x ∷ xs) j 0) (sym next)

pub length-splice :
    (offset : ℕ) (block buffer : Bytes)
    → offset + length block ≤ length buffer
    → length (splice offset block buffer) ≡ length buffer
length-splice offset block buffer h = omega (
  arith,
  length-append (take offset buffer) (block ++ drop (offset + length block) buffer),
  length-append block (drop (offset + length block) buffer),
  length-take offset buffer,
  length-drop (offset + length block) buffer,
)

-- A write changes the bytes of its range, and no others.
pub get_or-splice :
    (offset : ℕ) (block buffer : Bytes) (i : ℕ)
    → offset + length block ≤ length buffer
    → (offset ≤ i
        → i < offset + length block
        → get_or (splice offset block buffer) i 0 ≡ get_or block (i - offset) 0)
      × (i < offset → get_or (splice offset block buffer) i 0 ≡ get_or buffer i 0)
      × (offset + length block ≤ i → get_or (splice offset block buffer) i 0 ≡ get_or buffer i 0)
get_or-splice offset block buffer i h =
    let rest = drop (offset + length block) buffer in
    let front = length-take offset buffer in
    let e₁ = get_or-append (take offset buffer) (block ++ rest) i in
    let e₂ = get_or-append block rest (i - offset) in
    let e₃ = get_or-drop (offset + length block) (i - offset - length block) buffer in
    let size : length (take offset buffer) ≡ offset = omega (arith, front) in
    (
      λ lo hi.
          e₁
          ∙ rw (size, le→ltb i offset lo)
              (e₂ ∙ rw (lt→ltb (i - offset) (length block) (omega arith))),
      λ lo. e₁ ∙ rw (size, lt→ltb i offset lo) (get_or-take offset i buffer 0 lo),
      λ hi.
          let back : offset + length block + (i - offset - length block) ≡ i = omega arith in
          e₁
          ∙ rw (size, le→ltb i offset (omega arith))
              (e₂
                ∙ rw (le→ltb (i - offset) (length block) (omega arith))
                    (e₃ ∙ ap (λ j. get_or buffer j 0) back)),
    )

-- Bytes of the same length that read alike are equal.
pub eq_of_get_or :
    (xs ys : Bytes)
    → length xs ≡ length ys
    → ((i : ℕ) → i < length xs → get_or xs i 0 ≡ get_or ys i 0)
    → xs ≡ ys
eq_of_get_or [] [] h same = refl
eq_of_get_or [] (y ∷ ys) h same = absurd (omega arith)
eq_of_get_or (x ∷ xs) [] h same = absurd (omega arith)
eq_of_get_or (x ∷ xs) (y ∷ ys) h same =
    cc (same 0 (omega arith), eq_of_get_or xs ys (omega arith) (λ i lt. same (suc i) (omega arith)))
