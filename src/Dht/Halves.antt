-- ===== src/Dht/Halves.antt =====
-- The two halves of a bucket.
use peer_stream.Prelude.{
  ℕ, suc, ◌+◌, ◌/◌, ◌≤◌, ◌≡◌, refl, ap, subst, ◌∙◌, Bool-cases, inl, inr, true, false, Option, none,
  some, List, [], ◌∷◌, length, All, if◌then◌else◌, arith, Bytes, bytes_eq, bytes_eq_refl,
}
use peer_stream.Dht.Contact.{Contact, find, store}
use peer_stream.Dht.Bucket.{
  KBucket, covers, make_bucket, with_contacts, distribute, file_into, split,
}
use peer_stream.Dht.Table.{or_else}
use peer_stream.Dht.Dictionary.{
  Distinct, bytes_eq-cases, find-store, Distinct-store, All-store, length-store-le,
}
use peer_stream.Dht.Tiling.{Holds, IsBucket, find-All-none, or_else-none}

abbrev pub find_in : Bytes → KBucket × KBucket → Option Contact
find_in k (left, right) = or_else (find k left.contacts) (find k right.contacts)

-- A half of the range, with the contacts that are filed so far.
pub record IsHalf (own : Bytes) (capacity low high : ℕ) (half : KBucket) : Type 0 where
  pub limit : half.capacity ≡ capacity
  pub from : half.low ≡ low
  pub upto : half.high ≡ high
  pub keys : Distinct half.contacts
  pub members : All (Holds own half) half.contacts

abbrev AreHalves : Bytes → ℕ → ℕ → ℕ → ℕ → ℕ → KBucket × KBucket → Type 0
AreHalves own capacity ll lh rl rh (left, right) =
    IsHalf own capacity ll lh left × IsHalf own capacity rl rh right

store-IsHalf :
    (own : Bytes) (capacity low high : ℕ) (c : Contact) (half : KBucket)
    → Holds own half c
    → IsHalf own capacity low high half
    → IsHalf own capacity low high (with_contacts (store c half.contacts) half)
store-IsHalf own capacity low high c half h a = record {
  limit = a.limit;
  from = a.from;
  upto = a.upto;
  keys = Distinct-store c half.contacts a.keys;
  members = All-store (Holds own half) c half.contacts h a.members;
}

size_of : KBucket × KBucket → ℕ
size_of (left, right) = length left.contacts + length right.contacts

module _ (own : Bytes) (b : KBucket) where
  Covered : KBucket × KBucket → Type 0
  Covered (left, right) =
      (k : Bytes) → covers b k ≡ true → covers left k ≡ false → covers right k ≡ true

  Covered-file_into :
      (c : Contact) (halves : KBucket × KBucket) → Covered halves → Covered (file_into c halves)
  unfolding Covered
  Covered-file_into c (left, right) cover = elim (Bool-cases (covers left c.node_id)) [
    | inl inside ↦ rw inside cover
    | inr outside ↦ rw outside cover
  ]

  file_into-AreHalves :
      (capacity ll lh rl rh : ℕ) (c : Contact) (halves : KBucket × KBucket)
      → Holds own b c
      → Covered halves
      → AreHalves own capacity ll lh rl rh halves
      → AreHalves own capacity ll lh rl rh (file_into c halves)
  unfolding Covered
  file_into-AreHalves capacity ll lh rl rh c (left, right) (id, here, other) cover (a, a₁) =
      elim (Bool-cases (covers left c.node_id)) [
        | inl inside ↦ rw inside (store-IsHalf own capacity ll lh c left (id, inside, other) a, a₁)
        | inr outside ↦ rw outside (
          a,
          store-IsHalf own capacity rl rh c right (id, cover c.node_id here outside, other) a₁,
        )
      ]

  size_of-file_into-le :
      (c : Contact) (halves : KBucket × KBucket)
      → size_of (file_into c halves) ≤ suc (size_of halves)
  unfolding size_of
  size_of-file_into-le c (left, right) = elim (Bool-cases (covers left c.node_id)) [
    | inl inside ↦ rw inside (omega (arith, length-store-le c left.contacts))
    | inr outside ↦ rw outside (omega (arith, length-store-le c right.contacts))
  ]

  find_in-file_into :
      (capacity ll lh rl rh : ℕ) (k : Bytes) (c : Contact) (halves : KBucket × KBucket)
      → AreHalves own capacity ll lh rl rh halves
      → find_in k (file_into c halves) ≡ (if bytes_eq c.node_id k then some c else find_in k halves)
  find_in-file_into capacity ll lh rl rh k c (left, right) a =
      elim (Bool-cases (covers left c.node_id)) [
        | inl inside ↦ rw inside (
            rw (find-store c k left.contacts)
              (first (find k left.contacts) (find k right.contacts)))
        | inr outside ↦ rw outside (rw (find-store c k right.contacts) (second outside))
      ]
    where
      first :
          (a b : Option Contact)
          → or_else (if bytes_eq c.node_id k then some c else a) b
            ≡ (if bytes_eq c.node_id k then some c else or_else a b)
      first a b =
          elim (bytes_eq c.node_id k)
            as (λ x. or_else (if x then some c else a) b ≡ (if x then some c else or_else a b)) [
              | true ↦ refl
              | false ↦ refl
            ]

      second :
          covers left c.node_id ≡ false
          → or_else
              (find k left.contacts)
              (if bytes_eq c.node_id k then some c else find k right.contacts)
            ≡ (if bytes_eq c.node_id k
                then some c
                else or_else (find k left.contacts) (find k right.contacts))
      second outside = elim (bytes_eq-cases c.node_id k) [
        | inl same ↦
            let none_left =
              find-All-none own left k left.contacts a.0.members
                (subst (λ j. covers left j ≡ false) same outside) in
            rw none_left refl
        | inr other ↦ rw other refl
      ]

  size_of-distribute-le :
      (cs : List Contact) (halves : KBucket × KBucket)
      → size_of (distribute cs halves) ≤ size_of halves + length cs
  unfolding distribute
  size_of-distribute-le [] halves = omega arith
  size_of-distribute-le (c ∷ cs) halves =
      omega (arith, size_of-distribute-le cs (file_into c halves), size_of-file_into-le c halves)

  module _ (capacity ll lh rl rh : ℕ) where
    distribute-AreHalves :
        (cs : List Contact) (halves : KBucket × KBucket)
        → All (Holds own b) cs
        → Covered halves
        → AreHalves own capacity ll lh rl rh halves
        → AreHalves own capacity ll lh rl rh (distribute cs halves)
    unfolding distribute
    distribute-AreHalves [] halves hs cover a = a
    distribute-AreHalves (c ∷ cs) halves (h, hs) cover a =
        distribute-AreHalves cs (file_into c halves) hs (Covered-file_into c halves cover)
          (file_into-AreHalves capacity ll lh rl rh c halves h cover a)

    -- A contact is found in the halves if it was among the contacts or in the halves before.
    find_in-distribute :
        (k : Bytes) (cs : List Contact) (halves : KBucket × KBucket)
        → All (Holds own b) cs
        → Distinct cs
        → Covered halves
        → AreHalves own capacity ll lh rl rh halves
        → find_in k (distribute cs halves) ≡ or_else (find k cs) (find_in k halves)
    unfolding distribute find
    find_in-distribute k [] halves hs d cover a = refl
    find_in-distribute k (c ∷ cs) halves (h, hs) (new, d) cover a =
        find_in-distribute k cs (file_into c halves) hs d (Covered-file_into c halves cover)
          (file_into-AreHalves capacity ll lh rl rh c halves h cover a)
        ∙ ap (or_else (find k cs)) (find_in-file_into capacity ll lh rl rh k c halves a)
        ∙ (elim (bytes_eq-cases c.node_id k) [
          | inl same ↦
              let gone : find k cs ≡ none = subst (λ j. find j cs ≡ none) same new in
              let t : bytes_eq c.node_id k ≡ true = ap (λ x. bytes_eq x k) same ∙ bytes_eq_refl k in
              rw (gone, t) refl
          | inr other ↦ rw other refl
        ])

module _ (own : Bytes) (capacity now : ℕ) (b : KBucket) (is : IsBucket own capacity b) where
  abbrev middle : ℕ
  middle = (b.low + b.high) / 2

  abbrev empty_halves : KBucket × KBucket
  empty_halves =
      (make_bucket now b.capacity b.low middle, make_bucket now b.capacity (suc middle) b.high)

  covered : Covered own b empty_halves
  unfolding Covered
  covered k here outside = ground arith

  empty-AreHalves : AreHalves own capacity b.low middle (suc middle) b.high empty_halves
  empty-AreHalves = (
    record { limit = is.limit; from = refl; upto = refl; keys = tt; members = tt },
    record { limit = is.limit; from = refl; upto = refl; keys = tt; members = tt },
  )

  split-AreHalves : AreHalves own capacity b.low middle (suc middle) b.high (split now b)
  unfolding split
  split-AreHalves =
      distribute-AreHalves own b capacity b.low middle (suc middle) b.high b.contacts empty_halves
        is.members covered empty-AreHalves

  split-size : size_of (split now b) ≤ capacity
  unfolding split size_of
  split-size = omega (arith, size_of-distribute-le own b b.contacts empty_halves, is.size)

  half-IsBucket :
      (low high : ℕ) (half : KBucket)
      → IsHalf own capacity low high half
      → length half.contacts ≤ capacity
      → IsBucket own capacity half
  half-IsBucket low high half h size = record {
    limit = h.limit;
    size = size;
    keys = h.keys;
    members = h.members;
  }

  -- The halves of a valid bucket are valid, they divide its range in the
  -- middle, and a contact is found in them exactly if it is found in the bucket.
  pub split-find :
      (IsBucket own capacity (split now b).0
        × ((split now b).0.low ≡ b.low)
        × ((split now b).0.high ≡ (b.low + b.high) / 2))
      × (IsBucket own capacity (split now b).1
          × ((split now b).1.low ≡ suc ((b.low + b.high) / 2))
          × ((split now b).1.high ≡ b.high))
      × ((k : Bytes) → find_in k (split now b) ≡ find k b.contacts)
  unfolding split find size_of
  split-find =
      let (left, right) = split-AreHalves in
      (
        (
          half-IsBucket b.low middle (split now b).0 left (omega (arith, split-size)),
          left.from,
          left.upto,
        ),
        (
          half-IsBucket (suc middle) b.high (split now b).1 right (omega (arith, split-size)),
          right.from,
          right.upto,
        ),
        λ k.
            find_in-distribute own b capacity b.low middle (suc middle) b.high k b.contacts
              empty_halves is.members is.keys covered empty-AreHalves
            ∙ or_else-none (find k b.contacts),
      )
