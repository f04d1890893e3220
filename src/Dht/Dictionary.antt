-- ===== src/Dht/Dictionary.antt =====
-- The dictionary of a bucket: what is found after a change.
use peer_stream.Prelude.{
  suc, ◌≤◌, ◌≡◌, ◌≢◌, refl, sym, ap, subst, ◌∙◌, Bool-cases, inl, inr, ◌⊎◌, true, false, Option,
  none, some, List, [], ◌∷◌, length, filter, All, if◌then◌else◌, arith, Bytes, bytes_eq,
  bytes_eq_refl, bytes_eq→eq,
}
use peer_stream.Prelude.Sorting.{All-map, All-filter}
use peer_stream.Dht.Contact.{Contact, is_some, find, store, pop, update}
use peer_stream.Dht.Bucket.{worst, worst_of, is_worse, is_questionable}

pub bytes_eq-cases : (xs ys : Bytes) → (xs ≡ ys) ⊎ (bytes_eq xs ys ≡ false)
bytes_eq-cases xs ys = elim (Bool-cases (bytes_eq xs ys)) [
  | inl same ↦ inl (bytes_eq→eq xs ys same)
  | inr other ↦ inr other
]

pub bytes_eq-ne : (xs ys : Bytes) → xs ≢ ys → bytes_eq xs ys ≡ false
bytes_eq-ne xs ys ne = elim (bytes_eq-cases xs ys) [
  | inl same ↦ absurd (ne same)
  | inr other ↦ other
]

pub find-store :
    (c : Contact) (k : Bytes) (cs : List Contact)
    → find k (store c cs) ≡ (if bytes_eq c.node_id k then some c else find k cs)
unfolding find store
find-store c k [] = refl
find-store c k (d ∷ ds) = ground (
  arith,
  find-store c k ds,
  bytes_eq→eq d.node_id c.node_id,
  bytes_eq→eq d.node_id k,
  bytes_eq→eq c.node_id k,
  bytes_eq_refl k,
)

-- The contacts under distinct keys.
abbrev pub Distinct : List Contact → Type 0
Distinct [] = Unit
Distinct (c ∷ cs) = (find c.node_id cs ≡ none) × Distinct cs

pub find-pop_ne :
    (j k : Bytes) (cs : List Contact) → bytes_eq j k ≡ false → find k (pop j cs) ≡ find k cs
unfolding find pop
find-pop_ne j k [] ne = refl
find-pop_ne j k (c ∷ cs) ne =
    ground (arith, find-pop_ne j k cs ne, bytes_eq→eq c.node_id j, bytes_eq→eq c.node_id k)

pub find-pop : (k : Bytes) (cs : List Contact) → Distinct cs → find k (pop k cs) ≡ none
unfolding find pop
find-pop k [] d = refl
find-pop k (c ∷ cs) (new, d) = ground (arith, find-pop k cs d, bytes_eq→eq c.node_id k)

pub find-update :
    (j k : Bytes) (change : Contact → Contact) (cs : List Contact)
    → ((c : Contact) → (change c).node_id ≡ c.node_id)
    → bytes_eq j k ≡ false
    → find k (update j change cs) ≡ find k cs
unfolding find update
find-update j k change [] same ne = refl
find-update j k change (c ∷ cs) same ne =
    let e = ap (λ x. bytes_eq x k) (same c) in
    ground (arith, find-update j k change cs same ne, bytes_eq→eq c.node_id j)

pub find-update_self :
    (k : Bytes) (change : Contact → Contact) (cs : List Contact) (c : Contact)
    → ((c : Contact) → (change c).node_id ≡ c.node_id)
    → find k cs ≡ some c
    → find k (update k change cs) ≡ some (change c)
unfolding find update
find-update_self k change [] c same found = cc
find-update_self k change (d ∷ ds) c same found =
    let e = ap (λ x. bytes_eq x k) (same d) in ground (arith, find-update_self k change ds c same)

pub find-node_id :
    (k : Bytes) (cs : List Contact) (c : Contact) → find k cs ≡ some c → c.node_id ≡ k
unfolding find
find-node_id k [] c found = cc
find-node_id k (d ∷ ds) c found = ground (arith, find-node_id k ds c, bytes_eq→eq d.node_id k)

pub find-update-none :
    (j k : Bytes) (change : Contact → Contact) (cs : List Contact)
    → ((c : Contact) → (change c).node_id ≡ c.node_id)
    → find k cs ≡ none
    → find k (update j change cs) ≡ none
unfolding find update
find-update-none j k change [] same found = refl
find-update-none j k change (d ∷ ds) same found =
    let e = ap (λ x. bytes_eq x k) (same d) in ground (arith, find-update-none j k change ds same)

pub find-pop-none : (j k : Bytes) (cs : List Contact) → find k cs ≡ none → find k (pop j cs) ≡ none
unfolding find pop
find-pop-none j k [] found = refl
find-pop-none j k (d ∷ ds) found = ground (arith, find-pop-none j k ds)

pub Distinct-store : (c : Contact) (cs : List Contact) → Distinct cs → Distinct (store c cs)
unfolding store find
Distinct-store c [] d = (refl, tt)
Distinct-store c (e ∷ es) (new, d) = elim (bytes_eq-cases e.node_id c.node_id) [
  | inl same ↦
      let here : bytes_eq e.node_id c.node_id ≡ true =
        ap (λ x. bytes_eq x c.node_id) same ∙ bytes_eq_refl c.node_id in
      rw here (subst (λ k. find k es ≡ none) same new, d)
  | inr other ↦
      let kept : find e.node_id (store c es) ≡ none = ground (
        arith,
        find-store c e.node_id es,
        bytes_eq→eq c.node_id e.node_id,
        bytes_eq_refl c.node_id,
      ) in
      rw other (kept, Distinct-store c es d)
]

pub Distinct-pop : (k : Bytes) (cs : List Contact) → Distinct cs → Distinct (pop k cs)
unfolding pop
Distinct-pop k [] d = tt
Distinct-pop k (c ∷ cs) (new, d) =
    elim (bytes_eq c.node_id k) as (λ b. Distinct (if b then cs else c ∷ pop k cs)) [
      | true ↦ d
      | false ↦ (find-pop-none k c.node_id cs new, Distinct-pop k cs d)
    ]

pub Distinct-update :
    (k : Bytes) (change : Contact → Contact) (cs : List Contact)
    → ((c : Contact) → (change c).node_id ≡ c.node_id)
    → Distinct cs
    → Distinct (update k change cs)
unfolding update
Distinct-update k change [] same d = tt
Distinct-update k change (c ∷ cs) same (new, d) =
    elim (bytes_eq c.node_id k)
      as (λ b. Distinct (if b then change c ∷ cs else c ∷ update k change cs)) [
        | true ↦ (subst (λ j. find j cs ≡ none) (sym (same c)) new, d)
        | false ↦
            (find-update-none k c.node_id change cs same new, Distinct-update k change cs same d)
      ]

module _ {κ} (P : Contact → Type κ) where
  pub All-store : (c : Contact) (cs : List Contact) → P c → All P cs → All P (store c cs)
  unfolding store
  All-store c [] p ps = (p, tt)
  All-store c (d ∷ ds) p (q, ps) =
      elim (bytes_eq d.node_id c.node_id) as (λ b. All P (if b then c ∷ ds else d ∷ store c ds)) [
        | true ↦ (p, ps)
        | false ↦ (q, All-store c ds p ps)
      ]

  pub All-pop : (k : Bytes) (cs : List Contact) → All P cs → All P (pop k cs)
  unfolding pop
  All-pop k [] ps = tt
  All-pop k (c ∷ cs) (p, ps) =
      elim (bytes_eq c.node_id k) as (λ b. All P (if b then cs else c ∷ pop k cs)) [
        | true ↦ ps
        | false ↦ (p, All-pop k cs ps)
      ]

  pub All-update :
      (k : Bytes) (change : Contact → Contact) (cs : List Contact)
      → ((c : Contact) → P c → P (change c))
      → All P cs
      → All P (update k change cs)
  unfolding update
  All-update k change [] keep ps = tt
  All-update k change (c ∷ cs) keep (p, ps) =
      elim (bytes_eq c.node_id k)
        as (λ b. All P (if b then change c ∷ cs else c ∷ update k change cs)) [
          | true ↦ (keep c p, ps)
          | false ↦ (p, All-update k change cs keep ps)
        ]

pub length-store-le : (c : Contact) (cs : List Contact) → length (store c cs) ≤ suc (length cs)
unfolding store
length-store-le c [] = omega arith
length-store-le c (d ∷ ds) = ground (arith, length-store-le c ds)

pub length-update :
    (k : Bytes) (change : Contact → Contact) (cs : List Contact)
    → length (update k change cs) ≡ length cs
unfolding update
length-update k change [] = refl
length-update k change (c ∷ cs) = ground (arith, length-update k change cs)

pub length-pop :
    (k : Bytes) (cs : List Contact) (c : Contact)
    → find k cs ≡ some c
    → suc (length (pop k cs)) ≡ length cs
unfolding pop find
length-pop k [] c found = cc
length-pop k (d ∷ ds) c found = ground (arith, length-pop k ds c)

pub All-find : (cs : List Contact) → Distinct cs → All (λ c. find c.node_id cs ≡ some c) cs
unfolding find
All-find [] d = tt
All-find (c ∷ cs) (new, d) =
    let step : (e : Contact) → find e.node_id cs ≡ some e → find e.node_id (c ∷ cs) ≡ some e =
      λ e found. ground (
        arith,
        bytes_eq→eq c.node_id e.node_id,
        ap (λ k. find k cs) {x = c.node_id} {y = e.node_id},
      ) in
    (
      rw (bytes_eq_refl c.node_id) refl,
      All-map (λ e. find e.node_id cs ≡ some e) (λ e. find e.node_id (c ∷ cs) ≡ some e) cs step
          (All-find cs d),
    )

-- The contact that is given up is one of those in doubt.
worst-All {κ} :
    (P : Contact → Type κ) (c : Contact) (cs : List Contact) → P c → All P cs → P (worst c cs)
unfolding worst
worst-All P c [] p ps = p
worst-All P c (d ∷ ds) p (q, ps) =
    worst-All P (if is_worse d c then d else c) ds
      (elim (is_worse d c) as (λ b. P (if b then d else c)) [ true ↦ q | false ↦ p ]) ps

pub questionable-find :
    (cs : List Contact) (stale : Contact)
    → Distinct cs
    → worst_of (filter is_questionable cs) ≡ some stale
    → (find stale.node_id cs ≡ some stale) × (stale.questionable ≡ true)
questionable-find cs stale d chosen =
    go (filter is_questionable cs)
      (All-filter (λ c. find c.node_id cs ≡ some c) is_questionable cs (All-find cs d)) chosen
  where
    go :
        (ds : List Contact)
        → All (λ c. (find c.node_id cs ≡ some c) × (is_questionable c ≡ true)) ds
        → worst_of ds ≡ some stale
        → (find stale.node_id cs ≡ some stale) × (stale.questionable ≡ true)
    go [] ps chosen = cc
    go (c ∷ ds) (p, ps) chosen =
        subst (λ c. (find c.node_id cs ≡ some c) × (is_questionable c ≡ true)) (cc)
          (worst-All (λ c. (find c.node_id cs ≡ some c) × (is_questionable c ≡ true)) c ds p ps)

pub is_some-none : (o : Option Contact) → is_some o ≡ false → o ≡ none
is_some-none none h = refl
is_some-none (some c) h = cc
