-- ===== src/Dht/Adding.antt =====
-- What each way through `add` does to a table.
use peer_stream.Prelude.{
  ℕ, suc, ◌+◌, ◌^◌, ◌≤◌, ◌<◌, ◌≡◌, ◌⊎◌, refl, sym, ap, subst, ◌∙◌, Bool, Bool-cases, inl, inr, true,
  false, none, some, [], ◌∷◌, length, arith, Bytes, bytes_eq, ok,
}
use peer_stream.Dht.Contact.{Contact, find, pop, is_some, id_bits}
use peer_stream.Dht.Bucket.{KBucket, covers, split, add_to, remove_from, questionable_in}
use peer_stream.Dht.Table.{
  RoutingTable, or_else, get_among, get, bucket_for, replace_for, with_buckets, add_in, split_for,
}
use peer_stream.Dht.Dictionary.{
  find-pop, find-pop_ne, find-pop-none, is_some-none, bytes_eq-cases, Distinct-pop, All-pop,
  length-pop, questionable-find,
}
use peer_stream.Dht.Ids.{IsId}
use peer_stream.Dht.Tiling.{
  Holds, IsBucket, Tiles-middle, Found, find-All-none, bucket_for-front, bucket_for-here,
  or_else-none,
}
use peer_stream.Dht.Halves.{split-find}
use peer_stream.Dht.Placing.{
  IsTable, placed, Lookups, add_to-IsBucket, add_to-find, add_to-find_ne, placed-Tiles,
  replaced-Tiles, replaced-get, added-Lookups,
}

pub record Adds (c : Contact) (t : RoutingTable) (r : Bool × RoutingTable) : Type 0 where
  pub valid : IsTable r.1
  pub lookups : Lookups c (λ k. get k t) (r.0, λ k. get k r.1)

-- So many rounds are enough: a bucket with both the contact and the owner of the table is narrow.
abbrev pub Enough : ℕ → Contact → RoutingTable → Type 0
Enough rounds c t =
    (b : KBucket)
    → bucket_for c.node_id t.buckets ≡ ok b
    → covers b t.own_id ≡ true
    → b.high < b.low + 2 ^ rounds

module _ (now : ℕ) (c : Contact) (id : IsId c.node_id) (t : RoutingTable) (is : IsTable t)
    (b : KBucket) (at : Found c.node_id t.buckets b) where
  pub bucket : (b.low ≤ b.high) × IsBucket t.own_id t.capacity b
  bucket =
      Tiles-middle t.own_id t.capacity 0 (2 ^ id_bits) at.front b at.back
        (placed-Tiles t.own_id t.capacity 0 (2 ^ id_bits) c t.buckets b is.tiles at)

  replaced-IsTable :
      (b₁ : KBucket)
      → b₁.low ≡ b.low
      → b₁.high ≡ b.high
      → IsBucket t.own_id t.capacity b₁
      → IsTable (with_buckets (replace_for c.node_id (b₁ ∷ []) t.buckets) t)
  replaced-IsTable b₁ low high is₁ = record {
    owner = is.owner;
    tiles =
        replaced-Tiles t.own_id t.capacity 0 (2 ^ id_bits) c t.buckets b is.tiles at (b₁ ∷ [])
          (low, omega (arith, bucket.0), is₁, ap suc high);
  }

  inside : (k : Bytes) (d : Contact) → find k b.contacts ≡ some d → covers b k ≡ true
  inside k d found = elim (Bool-cases (covers b k)) [
    | inl here ↦ here
    | inr outside ↦
        (let nothing = find-All-none t.own_id b k b.contacts bucket.1.members outside in cc)
  ]

  pub room-Adds :
      bytes_eq c.node_id t.own_id ≡ false
      → (is_some (find c.node_id b.contacts) ≡ true) ⊎ (length b.contacts < t.capacity)
      → Adds c t (true, add_in now c b t)
  unfolding add_to
  room-Adds other room = record {
    valid =
        replaced-IsTable (add_to now c b) refl refl
          (add_to-IsBucket t.own_id t.capacity now c b bucket.1 (id, at.here, other) room);
    lookups =
        added-Lookups t.own_id t.capacity 0 (2 ^ id_bits) c t.buckets b is.tiles at (add_to now c b)
          (add_to-find now c b) (λ k ne. inl (add_to-find_ne now c b k ne)) inside;
  }

  -- The bucket without a contact in doubt.
  pub stale-Adds :
      (stale : Contact)
      → bytes_eq c.node_id t.own_id ≡ false
      → is_some (find c.node_id b.contacts) ≡ false
      → questionable_in b ≡ some stale
      → Adds c t (true, add_in now c (remove_from stale.node_id b) t)
  unfolding add_to
  stale-Adds stale other new chosen =
      let keys = bucket.1.keys in
      let (found, doubt) = questionable-find b.contacts stale keys chosen in
      let left = remove_from stale.node_id b in
      let absent = is_some-none (find c.node_id b.contacts) new in
      let left_valid : IsBucket t.own_id t.capacity left = record {
        limit = bucket.1.limit;
        size = omega (arith, bucket.1.size, length-pop stale.node_id b.contacts stale found);
        keys = Distinct-pop stale.node_id b.contacts keys;
        members = All-pop (Holds t.own_id b) stale.node_id b.contacts bucket.1.members;
      } in
      record {
        valid = replaced-IsTable (add_to now c left) refl refl (
            add_to-IsBucket t.own_id t.capacity now c left left_valid (id, at.here, other)
              (inr
                (omega (arith, bucket.1.size, length-pop stale.node_id b.contacts stale found))));
        lookups =
            added-Lookups t.own_id t.capacity 0 (2 ^ id_bits) c t.buckets b is.tiles at
              (add_to now c left)
              (add_to-find now c left
                ∙ ap (λ o. some (placed c o))
                    (find-pop-none stale.node_id c.node_id b.contacts absent ∙ sym absent))
              (λ k ne. elim (bytes_eq-cases stale.node_id k) [
                | inl same ↦ inr (
                  stale,
                  subst (λ j. find j b.contacts ≡ some stale) same found,
                  doubt,
                  add_to-find_ne now c left k ne
                      ∙ subst (λ j. find j (pop stale.node_id b.contacts) ≡ none) same
                          (find-pop stale.node_id b.contacts keys),
                )
                | inr apart ↦
                    inl (
                      add_to-find_ne now c left k ne ∙ find-pop_ne stale.node_id k b.contacts apart)
              ])
              inside;
      }

  abbrev left_half : KBucket
  left_half = (split now b).0

  abbrev right_half : KBucket
  right_half = (split now b).1

  pub split_for-IsTable : b.low < b.high → IsTable (split_for now c.node_id b t)
  split_for-IsTable wide =
      let ((is_left, left_low, left_high), (is_right, right_low, right_high), same) =
        split-find t.own_id t.capacity now b bucket.1 in
      record {
        owner = is.owner;
        tiles =
            replaced-Tiles t.own_id t.capacity 0 (2 ^ id_bits) c t.buckets b is.tiles at
              (left_half ∷ right_half ∷ [])
              (
                left_low,
                omega arith,
                is_left,
                (omega arith, omega arith, is_right, ap suc right_high),
              );
      }

  pub split_for-get : (k : Bytes) → get k (split_for now c.node_id b t) ≡ get k t
  unfolding get_among
  split_for-get k =
      let (left, right, same) = split-find t.own_id t.capacity now b bucket.1 in
      replaced-get t.own_id t.capacity 0 (2 ^ id_bits) c t.buckets b is.tiles at
        ((split now b).0 ∷ (split now b).1 ∷ []) k
        (ap (or_else (find k (split now b).0.contacts))
            (or_else-none (find k (split now b).1.contacts))
          ∙ same k)

  -- The contact is for one of the halves.
  bucket_for-split :
      (bucket_for c.node_id (split_for now c.node_id b t).buckets ≡ ok left_half)
      ⊎ (bucket_for c.node_id (split_for now c.node_id b t).buckets ≡ ok right_half)
  unfolding bucket_for
  bucket_for-split =
      let ((is_left, left_low, left_high), (is_right, right_low, right_high), same) =
        split-find t.own_id t.capacity now b bucket.1 in
      let here = at.here in
      let start =
        ap (bucket_for c.node_id) (at.change (left_half ∷ right_half ∷ []))
        ∙ bucket_for-front c.node_id at.front left_half (right_half ∷ at.back) at.before in
      elim (Bool-cases (covers left_half c.node_id)) [
        | inl first ↦ inl (start ∙ bucket_for-here c.node_id left_half (right_half ∷ at.back) first)
        | inr outside ↦
            inr (start ∙ (rw outside (bucket_for-here c.node_id right_half at.back (ground arith))))
      ]

  pub split_for-Enough :
      (rounds : ℕ) → b.high < b.low + 2 ^ suc rounds → Enough rounds c (split_for now c.node_id b t)
  split_for-Enough rounds wide b₁ is_found own_too =
      let ((is_left, left_low, left_high), (is_right, right_low, right_high), same) =
        split-find t.own_id t.capacity now b bucket.1 in
      elim bucket_for-split [
        | inl first ↦
            (let e : left_half ≡ b₁ = cc in
              subst (λ x. x.high < x.low + 2 ^ rounds) e (omega arith))
        | inr second ↦
            (let e : right_half ≡ b₁ = cc in
              subst (λ x. x.high < x.low + 2 ^ rounds) e (omega arith))
      ]
