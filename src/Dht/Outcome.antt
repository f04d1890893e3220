-- ===== src/Dht/Outcome.antt =====
-- `add` always comes to an end, and what it leaves.
use peer_stream.Prelude.{
  dec_lt, ℕ, zero, suc, ◌+◌, ◌^◌, ◌<◌, ◌≡◌, refl, ap, subst, ◌∙◌, Bool, Bool-cases, Option-cases,
  inl, inr, true, false, not, ◌||◌, some, if◌then◌else◌, arith, Bytes, bytes_eq, bytes_eq_refl,
  from_bytes, Result, ok, Ensures, holds, raises,
}
use peer_stream.Dht.Contact.{Contact, find, is_some, id_bits}
use peer_stream.Dht.Bucket.{KBucket, covers, is_full, questionable_in}
use peer_stream.Dht.Table.{RoutingTable, get, add, add_in, make_room, split_for, add_contact}
use peer_stream.Dht.Ids.{IsId, IsId-lt, from_bytes-injective}
use peer_stream.Dht.Tiling.{Tiles-high, Found, bucket_for-Found}
use peer_stream.Dht.Placing.{IsTable, Lookups, placed, KeptOrGivenUp, placed-Tiles}
use peer_stream.Dht.Adding.{
  Adds, Enough, room-Adds, stale-Adds, split_for-IsTable, split_for-get, split_for-Enough, bucket,
}

Always : Contact → RoutingTable → Result (Bool × RoutingTable) → Type 0
Always c t r = Ensures (Adds c t) (λ e. ⊥) r

refused : (c : Contact) (t : RoutingTable) → IsTable t → Always c t (ok (false, t))
unfolding Always
refused c t is = holds (record { valid = is; lookups = λ k. refl })

-- A bucket for two ids is not of one.
two_ids :
    (b : KBucket) (j k : Bytes)
    → IsId j
    → IsId k
    → bytes_eq j k ≡ false
    → covers b j ≡ true
    → covers b k ≡ true
    → b.low < b.high
two_ids b j k id id₁ other here here₁ = elim (dec_lt b.low b.high) [
  | yes wide ↦ wide
  | no narrow ↦ absurd (
      let same : from_bytes j ≡ from_bytes k = ground arith in
      let e : bytes_eq j k ≡ true =
        subst (λ x. bytes_eq j x ≡ true) (from_bytes-injective j k id id₁ same) (bytes_eq_refl j) in
      cc)
]

-- After a split `add` finds what it found before.
again-Adds :
    (c : Contact) (t t₁ : RoutingTable) (r : Result (Bool × RoutingTable))
    → ((k : Bytes) → get k t₁ ≡ get k t)
    → Always c t₁ r
    → Always c t r
unfolding Always
again-Adds c t t₁ r same (holds {a} done) =
    holds (record { valid = done.valid; lookups = moved a.0 a.1 done.lookups })
  where
    moved :
        (added : Bool) (after : RoutingTable)
        → Lookups c (λ k. get k t₁) (added, λ k. get k after)
        → Lookups c (λ k. get k t) (added, λ k. get k after)
    moved false after kept = λ k. kept k ∙ same k
    moved true after (self, others) = (
      self ∙ ap (λ o. some (placed c o)) (same c.node_id),
      λ k ne. subst (λ o. KeptOrGivenUp o (get k after)) (same k) (others k ne),
    )
again-Adds c t t₁ r same (raises impossible) = absurd impossible

module _ (now : ℕ) (c : Contact) (id : IsId c.node_id) (t : RoutingTable) (is : IsTable t)
    (other : bytes_eq c.node_id t.own_id ≡ false) (b : KBucket)
    (at : Found c.node_id t.buckets b) where
  make_room-Always :
      (again : Result (Bool × RoutingTable))
      → (covers b t.own_id ≡ true → Always c t again)
      → is_some (find c.node_id b.contacts) ≡ false
      → Always c t (make_room now c b t again (questionable_in b))
  unfolding Always
  make_room-Always again next new = elim (Option-cases (questionable_in b)) [
    | inl healthy ↦ rw healthy (elim (Bool-cases (covers b t.own_id)) [
      | inl ours ↦ rw ours (next ours)
      | inr far ↦ rw far (refused c t is)
    ])
    | inr (stale, chosen) ↦ rw chosen (holds (stale-Adds now c id t is b at stale other new chosen))
  ]

  bucket-Always :
      (again : Result (Bool × RoutingTable))
      → (covers b t.own_id ≡ true → Always c t again)
      → Always c t (
          if not (is_full b) || is_some (find c.node_id b.contacts)
          then ok (true, add_in now c b t)
          else make_room now c b t again (questionable_in b))
  unfolding Always
  bucket-Always again next = elim (Bool-cases (is_full b)) [
    | inr room ↦
        let limit = (bucket now c id t is b at).1.limit in
        rw room (holds (room-Adds now c id t is b at other (inr (ground arith))))
    | inl full ↦ elim (Bool-cases (is_some (find c.node_id b.contacts))) [
      | inl there ↦ rw (full, there) (holds (room-Adds now c id t is b at other (inl there)))
      | inr new ↦ rw (full, new) (make_room-Always again next new)
    ]
  ]

step-Always :
    (rounds now : ℕ) (c : Contact) (t : RoutingTable)
    → IsTable t
    → IsId c.node_id
    → Enough rounds c t
    → ((b : KBucket)
        → Found c.node_id t.buckets b
        → b.low < b.high
        → b.high < b.low + 2 ^ rounds
        → Always c t (add rounds now c (split_for now c.node_id b t)))
    → Always c t (add (suc rounds) now c t)
unfolding add
step-Always rounds now c t is id enough next = elim (Bool-cases (bytes_eq c.node_id t.own_id)) [
  | inl own ↦ rw own (refused c t is)
  | inr other ↦
      let (b, is_found, at) =
        bucket_for-Found t.own_id t.capacity c.node_id 0 (2 ^ id_bits) t.buckets is.tiles
          (omega arith) (IsId-lt c.node_id id) in
      rw (other, is_found)
        (bucket-Always now c id t is other b at (add rounds now c (split_for now c.node_id b t))
          (λ ours.
            next b at (two_ids b c.node_id t.own_id id is.owner other at.here ours)
              (enough b is_found ours)))
]

add-Always :
    (rounds now : ℕ) (c : Contact) (t : RoutingTable)
    → IsTable t
    → IsId c.node_id
    → Enough rounds c t
    → Always c t (add (suc rounds) now c t)
add-Always zero now c t is id enough =
    step-Always zero now c t is id enough (λ b at wide narrow. absurd (omega arith))
add-Always (suc rounds) now c t is id enough =
    step-Always (suc rounds) now c t is id enough λ b at wide narrow.
      again-Adds c t (split_for now c.node_id b t)
        (add (suc rounds) now c (split_for now c.node_id b t)) (split_for-get now c id t is b at)
        (add-Always rounds now c (split_for now c.node_id b t)
          (split_for-IsTable now c id t is b at wide) id
          (split_for-Enough now c id t is b at rounds narrow))

-- In a valid table a call of `add` for a contact with a node id returns, after at most 160 splits. It
-- leaves a valid table. If it returns false, each key is found as before. If it returns true, the
-- contact is found, refreshed where it was there before, and every other key is found as before, but
-- for a contact in doubt that was given up.
pub add_contact-Lookups :
    (now : ℕ) (c : Contact) (t : RoutingTable)
    → IsTable t
    → IsId c.node_id
    → (added : Bool) × (after : RoutingTable) × (add_contact now c t ≡ ok (added, after))
      × IsTable after
      × Lookups c (λ k. get k t) (added, λ k. get k after)
unfolding add_contact Always
add_contact-Lookups now c t is id =
    go (add (suc id_bits) now c t) refl (add-Always id_bits now c t is id narrow)
  where
    narrow : Enough id_bits c t
    narrow b is_found ours =
        let (b₁, is_found₁, at) =
          bucket_for-Found t.own_id t.capacity c.node_id 0 (2 ^ id_bits) t.buckets is.tiles
            (omega arith) (IsId-lt c.node_id id) in
        let high =
          Tiles-high t.own_id t.capacity 0 (2 ^ id_bits) at.front b₁ at.back
            (placed-Tiles t.own_id t.capacity 0 (2 ^ id_bits) c t.buckets b₁ is.tiles at) in
        let e : b₁ ≡ b = cc in subst (λ x. x.high < x.low + 2 ^ id_bits) e (omega (arith, high))

    go :
        (r : Result (Bool × RoutingTable))
        → add (suc id_bits) now c t ≡ r
        → Always c t r
        → (added : Bool) × (after : RoutingTable) × (add (suc id_bits) now c t ≡ ok (added, after))
          × IsTable after
          × Lookups c (λ k. get k t) (added, λ k. get k after)
    go r e (holds {a} done) = (a.0, a.1, e, done.valid, done.lookups)
    go r e (raises impossible) = absurd impossible
