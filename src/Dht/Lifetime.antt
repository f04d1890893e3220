-- ===== src/Dht/Lifetime.antt =====
-- A routing table from its making on, through whatever is done to it.
use peer_stream.Prelude.{
  ℕ, suc, ◌-◌, ◌^◌, ◌≤◌, ◌≡◌, refl, sym, ap, subst, ◌∙◌, String, Bool, Bool-cases, inl, inr, true,
  false, Option, none, some, List, [], ◌∷◌, length, All, ==_iff, arith, Bytes, IsBytes, bytes_eq,
  ok, ◌>>=◌, >>=-eq-ok, guard-eq-ok, dht_error, ◌==◌, leb, ◌&&◌,
}
use peer_stream.Dht.Contact.{
  Contact, find, is_some, pop, update, id_bits, dht_node_id_size, make_contact, note_success_of,
  note_failure_of, min_port, max_port,
}
use peer_stream.Dht.Bucket.{KBucket, covers, remove_from, with_contacts, make_bucket}
use peer_stream.Dht.Table.{
  RoutingTable, make_table, get, get_among, with_buckets, add_contact, remove, remove_among,
  update_among, note_success, note_failure, refresh_or_add, new_contact,
}
use peer_stream.Dht.Dictionary.{Distinct-pop, Distinct-update, All-pop, All-update, length-update}
use peer_stream.Dht.Ids.{IsId}
use peer_stream.Dht.Tiling.{Holds, IsBucket, Tiles}
use peer_stream.Dht.Placing.{IsTable}
use peer_stream.Dht.Outcome.{add_contact-Lookups}

make_table-IsTable :
    (now capacity : ℕ) (own_id : Bytes) (t : RoutingTable)
    → IsBytes own_id
    → make_table now capacity own_id ≡ ok t
    → IsTable t
unfolding make_table
make_table-IsTable now capacity own_id t bytes made =
    let (sized, built) = guard-eq-ok (length own_id == dht_node_id_size) dht_error _ made in
    let first : RoutingTable = record {
      own_id = own_id;
      capacity = capacity;
      buckets = make_bucket now capacity 0 (2 ^ id_bits - 1) ∷ [];
    } in
    let e : first ≡ t = cc in
    subst IsTable e record {
      owner = ((==_iff _ _).0 sized, bytes);
      tiles = (
        refl,
        omega arith,
        record { limit = refl; size = omega arith; keys = tt; members = tt },
        refl,
      );
    }

length-pop-le : (k : Bytes) (cs : List Contact) → length (pop k cs) ≤ length cs
unfolding pop
length-pop-le k [] = omega arith
length-pop-le k (c ∷ cs) = ground (arith, length-pop-le k cs)

module _ (own : Bytes) (capacity : ℕ) (k : Bytes) where
  remove_from-IsBucket :
      (b : KBucket) → IsBucket own capacity b → IsBucket own capacity (remove_from k b)
  remove_from-IsBucket b is = record {
    limit = is.limit;
    size = omega (arith, is.size, length-pop-le k b.contacts);
    keys = Distinct-pop k b.contacts is.keys;
    members = All-pop (Holds own b) k b.contacts is.members;
  }

  remove_among-Tiles :
      (lo hi : ℕ) (bs : List KBucket)
      → Tiles own capacity lo bs hi
      → Tiles own capacity lo (remove_among k bs).1 hi
  unfolding remove_among
  remove_among-Tiles lo hi [] tiles = tiles
  remove_among-Tiles lo hi (b ∷ bs) (low, some_ids, is, tiles) =
      elim (Bool-cases (is_some (find k b.contacts))) [
        | inl there ↦ rw there (low, some_ids, remove_from-IsBucket b is, tiles)
        | inr absent ↦ rw absent (low, some_ids, is, remove_among-Tiles (suc b.high) hi bs tiles)
      ]

  module _ (change : Contact → Contact)
      (same : (c : Contact) → (change c).node_id ≡ c.node_id) where
    update-IsBucket :
        (b : KBucket)
        → IsBucket own capacity b
        → IsBucket own capacity (with_contacts (update k change b.contacts) b)
    update-IsBucket b is = record {
      limit = is.limit;
      size = omega (arith, is.size, length-update k change b.contacts);
      keys = Distinct-update k change b.contacts same is.keys;
      members =
          All-update (Holds own b) k change b.contacts
            (λ c h.
              subst (λ j. IsId j × (covers b j ≡ true) × (bytes_eq j own ≡ false)) (sym (same c)) h)
            is.members;
    }

    update_among-Tiles :
        (lo hi : ℕ) (bs : List KBucket)
        → Tiles own capacity lo bs hi
        → Tiles own capacity lo (update_among k change bs) hi
    unfolding update_among
    update_among-Tiles lo hi [] tiles = tiles
    update_among-Tiles lo hi (b ∷ bs) (low, some_ids, is, tiles) =
        elim (Bool-cases (is_some (find k b.contacts))) [
          | inl there ↦ rw there (low, some_ids, update-IsBucket b is, tiles)
          | inr absent ↦ rw absent (low, some_ids, is, update_among-Tiles (suc b.high) hi bs tiles)
        ]

-- A call on a table. Node ids off the wire are bytes.
pub data Calls (t : RoutingTable) : RoutingTable → Type 0 where
  adds :
      (now : ℕ) (c : Contact) (added : Bool) {after : RoutingTable}
      → IsId c.node_id
      → add_contact now c t ≡ ok (added, after)
      → Calls t after
  removes : (k : Bytes) → Calls t (remove k t).1
  fails : (k : Bytes) → Calls t (note_failure k t)
  succeeds :
      (now : ℕ) (k : Bytes) (address : Option (String × ℕ)) {after : RoutingTable}
      → IsBytes k
      → note_success now k address t ≡ ok after
      → Calls t after

pub data Reach : RoutingTable → Type 0 where
  makes :
      (now capacity : ℕ) (own_id : Bytes) {t : RoutingTable}
      → IsBytes own_id
      → make_table now capacity own_id ≡ ok t
      → Reach t
  calls : {t after : RoutingTable} → Reach t → Calls t after → Reach after

add_contact-IsTable :
    (now : ℕ) (c : Contact) (t : RoutingTable) (added : Bool) (after : RoutingTable)
    → IsTable t
    → IsId c.node_id
    → add_contact now c t ≡ ok (added, after)
    → IsTable after
add_contact-IsTable now c t added after is id done =
    let (added₁, after₁, done₁, is₁, _) = add_contact-Lookups now c t is id in
    let e : after₁ ≡ after = cc in subst IsTable e is₁

make_contact-eq-ok :
    (c d : Contact) → make_contact c ≡ ok d → (length c.node_id ≡ dht_node_id_size) × (c ≡ d)
unfolding make_contact
make_contact-eq-ok c d made =
    let (sized, rest) = guard-eq-ok (length c.node_id == dht_node_id_size) dht_error _ made in
    let (port, last) = guard-eq-ok (leb min_port c.port && leb c.port max_port) dht_error _ rest in
    ((==_iff _ _).0 sized, cc)

note_success-IsTable :
    (now : ℕ) (k : Bytes) (address : Option (String × ℕ)) (t after : RoutingTable)
    → IsTable t
    → IsBytes k
    → note_success now k address t ≡ ok after
    → IsTable after
unfolding note_success
note_success-IsTable now k address t after is bytes done = go (get k t) address done
  where
    go :
        (o : Option Contact) (address : Option (String × ℕ))
        → refresh_or_add now k address t o ≡ ok after
        → IsTable after
    go (some c) address done =
        let e : with_buckets (update_among k (note_success_of now) t.buckets) t ≡ after = cc in
        subst IsTable e record {
          owner = is.owner;
          tiles =
              update_among-Tiles t.own_id t.capacity k (note_success_of now) (λ d. refl) 0
                (2 ^ id_bits) t.buckets is.tiles;
        }
    go none none done = (let e : t ≡ after = cc in subst IsTable e is)
    go none (some address) done =
        let (c, made, then_added) =
          >>=-eq-ok (make_contact (new_contact now k address))
            (λ c. add_contact now c t >>= λ r. ok r.1) done in
        let ((added, after₁), outcome, last) =
          >>=-eq-ok (add_contact now c t) (λ r. ok r.1) then_added in
        let (sized, e) = make_contact-eq-ok (new_contact now k address) c made in
        let e₁ : after₁ ≡ after = cc in
        let id : IsId c.node_id = subst (λ d. IsId d.node_id) e (sized, bytes) in
        add_contact-IsTable now c t added after is id (outcome ∙ ap (λ x. ok (added, x)) e₁)

Calls-IsTable : {t after : RoutingTable} → IsTable t → Calls t after → IsTable after
unfolding note_failure
Calls-IsTable {t} is (adds now c added id done) = add_contact-IsTable now c t added _ is id done
Calls-IsTable {t} is (removes k) = record {
  owner = is.owner;
  tiles = remove_among-Tiles t.own_id t.capacity k 0 (2 ^ id_bits) t.buckets is.tiles;
}
Calls-IsTable {t} is (fails k) = record {
  owner = is.owner;
  tiles =
      update_among-Tiles t.own_id t.capacity k note_failure_of (λ c. refl) 0 (2 ^ id_bits) t.buckets
        is.tiles;
}
Calls-IsTable {t} is (succeeds now k address bytes done) =
    note_success-IsTable now k address t _ is bytes done

owner_absent :
    (own : Bytes) (cs : List Contact) (b : KBucket) → All (Holds own b) cs → find own cs ≡ none
unfolding find
owner_absent own [] b hs = refl
owner_absent own (c ∷ cs) b ((_, _, other), hs) = rw other (owner_absent own cs b hs)

owner_nowhere :
    (own : Bytes) (capacity lo hi : ℕ) (bs : List KBucket)
    → Tiles own capacity lo bs hi
    → get_among own bs ≡ none
unfolding get_among
owner_nowhere own capacity lo hi [] tiles = refl
owner_nowhere own capacity lo hi (b ∷ bs) (low, some_ids, is, tiles) =
    rw
      (
        owner_absent own b.contacts b is.members,
        owner_nowhere own capacity (suc b.high) hi bs tiles,
      )
      refl

-- A table made for an id of bytes, and then changed by any calls of `add`, `remove`, `note_success`
-- and `note_failure` with ids of bytes, those that returned, is valid: its buckets divide the ids in
-- order, none has more contacts than its capacity or one key twice, and each contact is in the bucket
-- of its id. The owner of the table is never found in it.
pub Reach-IsTable : (t : RoutingTable) → Reach t → IsTable t × (get t.own_id t ≡ none)
Reach-IsTable t reach =
    let is = valid reach in
    (is, owner_nowhere t.own_id t.capacity 0 (2 ^ id_bits) t.buckets is.tiles)
  where
    valid : {t : RoutingTable} → Reach t → IsTable t
    valid (makes now capacity own_id bytes done) =
        make_table-IsTable now capacity own_id _ bytes done
    valid (calls before call) = Calls-IsTable (valid before) call
