-- ===== src/Dht/Nearest.antt =====
-- The contacts that `closest` gives.
use peer_stream.Prelude.{
  ℕ, suc, ◌^◌, ◌≤◌, ◌≡◌, ◌⊎◌, refl, sym, ap, subst, ◌∙◌, min, Bool, Bool-cases, inl, inr, true,
  false, not, Option-cases, some, List, [], ◌∷◌, length, take, filter, length-take, All, leb,
  leb→le, ◌==◌, ==_iff, if◌then◌else◌, arith, Bytes, bytes_eq, from_bytes, ok,
}
use peer_stream.Dht.Contact.{Contact, find, dht_node_id_size, id_bits, distance, xor_bytes}
use peer_stream.Dht.Bucket.{KBucket}
use peer_stream.Dht.Table.{RoutingTable, get, get_among, or_else}
use peer_stream.Dht.Dictionary.{All-find, find-node_id}
use peer_stream.Dht.Ids.{IsId}
use peer_stream.Dht.Tiling.{Holds, IsBucket, Tiles, find-All-none}
use peer_stream.Dht.Placing.{IsTable}
use peer_stream.Dht.Closest.{
  contacts, contacts_among, contacts_in, is_later, distances, is_nearer, is_other, is_healthy,
  pool_of, closest,
}
use peer_stream.Dht.Sorting.{NoFarther, Ordered, Ordered-sort_by, Ordered-take, In-take}
use peer_stream.Prelude.Sorting.{
  sort_by, In, In-append_left, In-append_right, In-filter, All-sort_by, In-sort_by, length-sort_by,
  All-take, All-append, All-filter, All-map,
}

find-In : (k : Bytes) (cs : List Contact) (d : Contact) → find k cs ≡ some d → In d cs
unfolding find
find-In k [] d found = cc
find-In k (c ∷ cs) d found = elim (Bool-cases (bytes_eq c.node_id k)) [
  | inl here ↦ inl (ground arith)
  | inr other ↦ inr (find-In k cs d (ground arith))
]

module _ (own : Bytes) (capacity : ℕ) where
  Placed : ℕ → List KBucket → Contact → Type 0
  Placed lo bs c = (get_among c.node_id bs ≡ some c) × (lo ≤ from_bytes c.node_id) × IsId c.node_id

  bucket-Placed :
      (lo : ℕ) (b : KBucket) (bs : List KBucket)
      → b.low ≡ lo
      → IsBucket own capacity b
      → All (Placed lo (b ∷ bs)) (contacts_in b)
  unfolding Placed get_among
  bucket-Placed lo b bs low is =
      All-sort_by is_later (Placed lo (b ∷ bs)) b.contacts
        (both b.contacts (All-find b.contacts is.keys) is.members)
    where
      both :
          (cs : List Contact)
          → All (λ c. find c.node_id b.contacts ≡ some c) cs
          → All (Holds own b) cs
          → All (Placed lo (b ∷ bs)) cs
      both [] found hs = tt
      both (c ∷ cs) (here, found) ((id, inside, _), hs) =
          ((rw here refl, ground arith, id), both cs found hs)

  contacts_among-Placed :
      (lo hi : ℕ) (bs : List KBucket)
      → Tiles own capacity lo bs hi
      → All (Placed lo bs) (contacts_among bs)
  unfolding Placed get_among contacts_among
  contacts_among-Placed lo hi [] tiles = tt
  contacts_among-Placed lo hi (b ∷ bs) (low, some_ids, is, tiles) =
      All-append (Placed lo (b ∷ bs)) (contacts_in b) (contacts_among bs)
        (bucket-Placed lo b bs low is)
        (All-map (Placed (suc b.high) bs) (Placed lo (b ∷ bs)) (contacts_among bs) later
          (contacts_among-Placed (suc b.high) hi bs tiles))
    where
      later : (c : Contact) → Placed (suc b.high) bs c → Placed lo (b ∷ bs) c
      later c (found, above, id) = (
        rw (find-All-none own b c.node_id b.contacts is.members (ground arith)) found,
        omega arith,
        id,
      )

get_among-In :
    (k : Bytes) (bs : List KBucket) (d : Contact)
    → get_among k bs ≡ some d
    → (d.node_id ≡ k) × In d (contacts_among bs)
unfolding get_among contacts_among
get_among-In k [] d found = cc
get_among-In k (b ∷ bs) d found = elim (Option-cases (find k b.contacts)) [
  | inl absent ↦
      let next : get_among k bs ≡ some d =
        subst (λ o. or_else o (get_among k bs) ≡ some d) absent found in
      let (same, inside) = get_among-In k bs d next in
      (same, In-append_right d (contacts_in b) (contacts_among bs) inside)
  | inr (c, here) ↦
      let same : some c ≡ some d = subst (λ o. or_else o (get_among k bs) ≡ some d) here found in
      let this : find k b.contacts ≡ some d = here ∙ same in
      (
        find-node_id k b.contacts d this,
        In-append_left d (contacts_in b) (contacts_among bs)
            (In-sort_by is_later d b.contacts (find-In k b.contacts d this)),
      )
]

not-true : (b : Bool) → not b ≡ true → b ≡ false
not-true true h = sym h
not-true false h = refl

not-false : (b : Bool) → not b ≡ false → b ≡ true
not-false true h = refl
not-false false h = sym h

-- A contact of the table with another id than the target.
abbrev Known : Bytes → RoutingTable → Contact → Type 0
Known target t c = ((get c.node_id t ≡ some c) × IsId c.node_id) × (is_other target c ≡ true)

distances-ok :
    (target : Bytes) (t : RoutingTable) (cs : List Contact)
    → length target ≡ dht_node_id_size
    → All (Known target t) cs
    → (gaps : List ℕ) × (distances target cs ≡ ok gaps)
unfolding distances distance
distances-ok target t [] size ks = ([], refl)
distances-ok target t (c ∷ cs) size (((_, id), _), ks) =
    let (gaps, rest) = distances-ok target t cs size ks in
    let e : (length c.node_id == dht_node_id_size) ≡ true = (==_iff _ _).1 id.0 in
    let e₁ : (length target == dht_node_id_size) ≡ true = (==_iff _ _).1 size in
    (from_bytes (xor_bytes c.node_id target) ∷ gaps, rw (e, e₁, rest) refl)

-- The first of a pool, sorted.
record IsChosen (target : Bytes) (count : ℕ) (t : RoutingTable) (pool cs : List Contact)
    : Type 0 where
  members : All (Known target t) cs
  size : length cs ≡ min count (length pool)
  order : Ordered target cs
  others : (d : Contact) → In d pool → In d cs ⊎ ((length cs ≡ count) × All (NoFarther target d) cs)

chosen :
    (target : Bytes) (count : ℕ) (t : RoutingTable) (pool : List Contact)
    → All (Known target t) pool
    → IsChosen target count t pool (take count (sort_by (is_nearer target) pool))
chosen target count t pool ks =
    let sorted = sort_by (is_nearer target) pool in
    record {
      members =
          All-take (Known target t) count sorted
            (All-sort_by (is_nearer target) (Known target t) pool ks);
      size = length-take count sorted ∙ ap (min count) (length-sort_by (is_nearer target) pool);
      order = Ordered-take target count sorted (Ordered-sort_by target pool);
      others = λ d inside.
          In-take target d count sorted (Ordered-sort_by target pool)
            (In-sort_by (is_nearer target) d pool inside);
    }

-- The contacts for a target: known, in order, no more than asked for, and none was left out for a
-- farther one, but for those in doubt where there are enough that are not.
pub record IsClosest (target : Bytes) (count : ℕ) (t : RoutingTable) (cs : List Contact)
    : Type 0 where
  pub known : All (λ c. (get c.node_id t ≡ some c) × (is_other target c ≡ true)) cs
  pub bounded : length cs ≤ count
  pub order : Ordered target cs
  pub others :
      (k : Bytes) (d : Contact)
      → get k t ≡ some d
      → bytes_eq k target ≡ false
      → In d cs
        ⊎ ((length cs ≡ count)
            × (All (NoFarther target d) cs
                ⊎ ((d.questionable ≡ true) × All (λ c. c.questionable ≡ false) cs)))

module _ (target : Bytes) (count : ℕ) (t : RoutingTable) (is : IsTable t) where
  abbrev others_known : List Contact
  others_known = filter (is_other target) (contacts t)

  others_known-Known : All (Known target t) others_known
  unfolding Placed
  others_known-Known =
      All-filter (λ c. (get c.node_id t ≡ some c) × IsId c.node_id) (is_other target) (contacts t)
        (All-map (Placed t.own_id t.capacity 0 t.buckets)
          (λ c. (get c.node_id t ≡ some c) × IsId c.node_id) (contacts t) (λ c h. (h.0, h.2))
          (contacts_among-Placed t.own_id t.capacity 0 (2 ^ id_bits) t.buckets is.tiles))

  In-others_known :
      (k : Bytes) (d : Contact) → get k t ≡ some d → bytes_eq k target ≡ false → In d others_known
  In-others_known k d found other =
      let (same, inside) = get_among-In k t.buckets d found in
      In-filter (is_other target) d (contacts t) inside
        (ap (λ j. not (bytes_eq j target)) same ∙ ap not other)

  pool_of-IsClosest :
      IsClosest target count t
        (take count (sort_by (is_nearer target) (pool_of count others_known)))
  pool_of-IsClosest = elim (Bool-cases (leb count (length (filter is_healthy others_known)))) [
    | inl enough ↦ rw enough (healthy_only enough)
    | inr few ↦ rw few (everyone (chosen target count t others_known others_known-Known))
  ]
    where
      known_of :
          (pool cs : List Contact)
          → IsChosen target count t pool cs
          → All (λ c. (get c.node_id t ≡ some c) × (is_other target c ≡ true)) cs
      known_of pool cs h =
          All-map (Known target t) (λ c. (get c.node_id t ≡ some c) × (is_other target c ≡ true)) cs
            (λ c k. (k.0.0, k.1)) h.members

      everyone :
          IsChosen target count t others_known
            (take count (sort_by (is_nearer target) others_known))
          → IsClosest target count t (take count (sort_by (is_nearer target) others_known))
      everyone h = record {
        known = known_of others_known _ h;
        bounded = omega (arith, h.size);
        order = h.order;
        others = λ k d found other. elim (h.others d (In-others_known k d found other)) [
          | inl there ↦ inl there
          | inr (full, farther) ↦ inr (full, inl farther)
        ];
      }

      healthy_only :
          leb count (length (filter is_healthy others_known)) ≡ true
          → IsClosest target count t
              (take count (sort_by (is_nearer target) (filter is_healthy others_known)))
      healthy_only enough =
          let pool = filter is_healthy others_known in
          let full_of = All-filter (Known target t) is_healthy others_known others_known-Known in
          let h = chosen target count t pool (
            All-map (λ c. Known target t c × (is_healthy c ≡ true)) (Known target t) pool
              (λ c k. k.0) full_of) in
          let healthy =
            All-take (λ c. c.questionable ≡ false) count (sort_by (is_nearer target) pool)
              (All-sort_by (is_nearer target) (λ c. c.questionable ≡ false) pool
                (All-map (λ c. Known target t c × (is_healthy c ≡ true))
                  (λ c. c.questionable ≡ false) pool (λ c k. not-true c.questionable k.1)
                  full_of)) in
          let le = leb→le count (length pool) enough in
          record {
            known = known_of pool _ h;
            bounded = omega (arith, h.size);
            order = h.order;
            others = λ k d found other. elim (Bool-cases (is_healthy d)) [
              | inl well ↦
                  elim (h.others d
                    (In-filter is_healthy d others_known (In-others_known k d found other) well)) [
                      | inl there ↦ inl there
                      | inr (full, farther) ↦ inr (full, inl farther)
                    ]
              | inr doubt ↦
                  inr (omega (arith, h.size), inr (not-false d.questionable doubt, healthy))
            ];
          }

  -- In a valid table, for a target of 20 bytes, `closest` returns: contacts of the table under other ids
  -- than the target, in the order of their distance to it, no more than were asked for. A contact that
  -- is left out is no nearer than any that is given, and as many are given as were asked for, or it is
  -- in doubt and all those are not.
  pub closest-IsClosest :
      length target ≡ dht_node_id_size
      → (cs : List Contact) × (closest target count t ≡ ok cs) × IsClosest target count t cs
  unfolding closest
  closest-IsClosest size =
      let pool = pool_of count others_known in
      let (gaps, fine) =
        distances-ok target t pool size
          (pool-Known (leb count (length (filter is_healthy others_known)))) in
      (take count (sort_by (is_nearer target) pool), rw fine refl, pool_of-IsClosest)
    where
      pool-Known :
          (b : Bool)
          → All (Known target t) (if b then filter is_healthy others_known else others_known)
      pool-Known false = others_known-Known
      pool-Known true =
          All-map (λ c. Known target t c × (is_healthy c ≡ true)) (Known target t)
            (filter is_healthy others_known) (λ c k. k.0)
            (All-filter (Known target t) is_healthy others_known others_known-Known)
