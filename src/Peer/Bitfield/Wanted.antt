-- ===== src/Peer/Bitfield/Wanted.antt =====
-- What a peer holds that we lack.
use peer_stream.Prelude.{
  ℕ, zero, suc, ◌≢◌, ◌↔◌, ◌+◌, ◌≡◌, refl, ap, ◌∙◌, Bool, true, not, ◌&&◌, List, [], ◌∷◌, filter,
  range_from, leb, ltb, ◌==◌, arith, ok,
}
use peer_stream.Peer.Bitfield.{Bitfield, holds, any_of, lacks, missing_from, is_interesting}

abbrev pub member : ℕ → List ℕ → Bool
member i = any_of (λ j. j == i)

member-filter-range_from :
    (test : ℕ → Bool) (start count i : ℕ)
    → member i (filter test (range_from start count))
      ≡ (leb start i && ltb i (start + count)) && test i
member-filter-range_from test start zero i = ground arith
member-filter-range_from test start (suc count) i =
    ground (arith, member-filter-range_from test (start + 1) count i, ap test {x = start} {y = i})

any_of-filter :
    (test : ℕ → Bool) (xs : List ℕ) → any_of test xs ≡ any_of (λ _. true) (filter test xs)
any_of-filter test [] = refl
any_of-filter test (x ∷ xs) = ground (arith, any_of-filter test xs)

any_true : (xs : List ℕ) → (any_of (λ _. true) xs ≡ true) ↔ (xs ≢ [])
any_true [] = (λ e. cc, λ h. absurd (h refl))
any_true (x ∷ xs) = (λ _ e. cc, λ _. refl)

-- For bitfields of torrents of the same size, the pieces to request are exactly those that the other
-- side holds and we lack, and the other side is interesting exactly when there is one.
pub missing_from_lem :
    (field other : Bitfield)
    → other.piece_count ≡ field.piece_count
    → (missing : List ℕ) × (missing_from field other ≡ ok missing)
      × ((index : ℕ)
          → member index missing
            ≡ ltb index field.piece_count && (holds other index && not (holds field index)))
      × ((is_interesting field other ≡ ok true) ↔ (missing ≢ []))
missing_from_lem field other same = (
  missing,
  unfold missing_from in ground arith,
  λ index. ground (arith, member-filter-range_from (lacks field other) 0 n index),
  (λ h. (any_true missing).0 (cc verdict), λ h. verdict ∙ ap ok ((any_true missing).1 h)),
)
  where
    n : ℕ
    n = field.piece_count

    missing : List ℕ
    missing = filter (lacks field other) (range_from 0 n)

    verdict : is_interesting field other ≡ ok (any_of (λ _. true) missing)
    verdict =
        unfold is_interesting in ground (arith, any_of-filter (lacks field other) (range_from 0 n))
