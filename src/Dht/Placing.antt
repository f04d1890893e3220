-- ===== src/Dht/Placing.antt =====
-- A table in which the bucket for a contact is replaced.
use peer_stream.Prelude.{
  ℕ, suc, ◌^◌, ◌<◌, ◌≡◌, ◌⊎◌, refl, sym, ap, subst, ◌∙◌, Bool, Bool-cases, inl, inr, true, false,
  Option, none, some, List, [], ◌∷◌, ◌++◌, length, if◌then◌else◌, arith, Bytes, bytes_eq,
  bytes_eq_refl,
}
use peer_stream.Dht.Contact.{Contact, find, store, update, is_some, note_success_of, id_bits}
use peer_stream.Dht.Bucket.{KBucket, covers, add_to}
use peer_stream.Dht.Table.{RoutingTable, or_else, get_among, replace_for}
use peer_stream.Dht.Dictionary.{
  find-store, find-update, find-update_self, Distinct-store, Distinct-update, All-store, All-update,
  length-store-le, length-update,
}
use peer_stream.Dht.Ids.{IsId}
use peer_stream.Dht.Tiling.{
  Holds, IsBucket, Tiles, Tiles-replace, Found, get_among-append, get_among-front, get_among-back,
  or_else-none,
}

pub record IsTable (t : RoutingTable) : Type 0 where
  pub owner : IsId t.own_id
  pub tiles : Tiles t.own_id t.capacity 0 t.buckets (2 ^ id_bits)

-- The contact as it stands in a table after `add`.
abbrev pub placed : Contact → Option Contact → Contact
placed c none = c
placed c (some d) = note_success_of c.last_seen d

-- Another key is found as before, or the contact under it was in doubt and was given up.
abbrev pub KeptOrGivenUp : Option Contact → Option Contact → Type 0
KeptOrGivenUp before after =
    (after ≡ before)
    ⊎ ((d : Contact) × (before ≡ some d) × (d.questionable ≡ true) × (after ≡ none))

-- What is found after a call of `add`.
abbrev pub Lookups : Contact → (Bytes → Option Contact) → Bool × (Bytes → Option Contact) → Type 0
Lookups c before (false, after) = (k : Bytes) → after k ≡ before k
Lookups c before (true, after) =
    (after c.node_id ≡ some (placed c (before c.node_id)))
    × ((k : Bytes) → bytes_eq c.node_id k ≡ false → KeptOrGivenUp (before k) (after k))

-- A bucket with room for the contact, or with the contact.
pub add_to-IsBucket :
    (own : Bytes) (capacity now : ℕ) (c : Contact) (b : KBucket)
    → IsBucket own capacity b
    → Holds own b c
    → (is_some (find c.node_id b.contacts) ≡ true) ⊎ (length b.contacts < capacity)
    → IsBucket own capacity (add_to now c b)
unfolding add_to
add_to-IsBucket own capacity now c b is h room =
    elim (Bool-cases (is_some (find c.node_id b.contacts))) [
      | inl there ↦ rw there record {
        limit = is.limit;
        size =
            omega
              (arith, is.size, length-update c.node_id (note_success_of c.last_seen) b.contacts);
        keys =
            Distinct-update c.node_id (note_success_of c.last_seen) b.contacts (λ d. refl) is.keys;
        members =
            All-update (Holds own b) c.node_id (note_success_of c.last_seen) b.contacts (λ d g. g)
              is.members;
      }
      | inr new ↦ rw new record {
        limit = is.limit;
        size = ground (arith, length-store-le c b.contacts);
        keys = Distinct-store c b.contacts is.keys;
        members = All-store (Holds own b) c b.contacts h is.members;
      }
    ]

pub add_to-find :
    (now : ℕ) (c : Contact) (b : KBucket)
    → find c.node_id (add_to now c b).contacts ≡ some (placed c (find c.node_id b.contacts))
unfolding add_to
add_to-find now c b = go (find c.node_id b.contacts) refl
  where
    go :
        (o : Option Contact)
        → find c.node_id b.contacts ≡ o
        → find c.node_id (
            if is_some o
            then update c.node_id (note_success_of c.last_seen) b.contacts
            else store c b.contacts)
          ≡ some (placed c o)
    go none found = find-store c c.node_id b.contacts ∙ (rw (bytes_eq_refl c.node_id) refl)
    go (some d) found =
        find-update_self c.node_id (note_success_of c.last_seen) b.contacts d (λ e. refl) found

pub add_to-find_ne :
    (now : ℕ) (c : Contact) (b : KBucket) (k : Bytes)
    → bytes_eq c.node_id k ≡ false
    → find k (add_to now c b).contacts ≡ find k b.contacts
unfolding add_to
add_to-find_ne now c b k ne = elim (Bool-cases (is_some (find c.node_id b.contacts))) [
  | inl there ↦
      rw there (find-update c.node_id k (note_success_of c.last_seen) b.contacts (λ d. refl) ne)
  | inr new ↦ rw new (find-store c k b.contacts ∙ (rw ne refl))
]

-- A change of the bucket for the contact, seen from the table.
module _ (own : Bytes) (capacity lo hi : ℕ) (c : Contact) (bs : List KBucket) (b : KBucket)
    (tiles : Tiles own capacity lo bs hi) (at : Found c.node_id bs b) where
  pub placed-Tiles : Tiles own capacity lo (at.front ++ (b ∷ at.back)) hi
  placed-Tiles = subst (λ x. Tiles own capacity lo x hi) at.same tiles

  pub replaced-Tiles :
      (new : List KBucket)
      → Tiles own capacity b.low new (suc b.high)
      → Tiles own capacity lo (replace_for c.node_id new bs) hi
  replaced-Tiles new ts =
      subst (λ x. Tiles own capacity lo x hi) (sym (at.change new))
        (Tiles-replace own capacity lo hi at.front b at.back new placed-Tiles ts)

  -- What the bucket and its neighbours give for a key.
  abbrev look : Bytes → Option Contact → Option Contact
  look k o = or_else (get_among k at.front) (or_else o (get_among k at.back))

  replaced-look :
      (new : List KBucket) (k : Bytes)
      → get_among k (replace_for c.node_id new bs) ≡ look k (get_among k new)
  replaced-look new k =
      ap (get_among k) (at.change new)
      ∙ get_among-append k at.front (new ++ at.back)
      ∙ ap (or_else (get_among k at.front)) (get_among-append k new at.back)

  look-bucket : (k : Bytes) → get_among k bs ≡ look k (find k b.contacts)
  unfolding get_among
  look-bucket k = ap (get_among k) at.same ∙ get_among-append k at.front (b ∷ at.back)

  pub replaced-get :
      (new : List KBucket) (k : Bytes)
      → get_among k new ≡ find k b.contacts
      → get_among k (replace_for c.node_id new bs) ≡ get_among k bs
  replaced-get new k e = replaced-look new k ∙ ap (look k) e ∙ sym (look-bucket k)

  look-here : (k : Bytes) (o : Option Contact) → covers b k ≡ true → look k o ≡ o
  look-here k o here =
      let front =
        get_among-front own capacity k lo hi at.front b at.back placed-Tiles (ground arith) in
      let back =
        get_among-back own capacity k lo hi at.front b at.back placed-Tiles (ground arith) in
      rw (front, back) (or_else-none o)

  -- The contact is added to the bucket, or to what is left of it.
  pub added-Lookups :
      (b₁ : KBucket)
      → find c.node_id b₁.contacts ≡ some (placed c (find c.node_id b.contacts))
      → ((k : Bytes)
          → bytes_eq c.node_id k ≡ false
          → KeptOrGivenUp (find k b.contacts) (find k b₁.contacts))
      → ((k : Bytes) (d : Contact) → find k b.contacts ≡ some d → covers b k ≡ true)
      → Lookups c
          (λ k. get_among k bs)
          (true, λ k. get_among k (replace_for c.node_id (b₁ ∷ []) bs))
  unfolding get_among
  added-Lookups b₁ self others inside = (
    replaced-look (b₁ ∷ []) c.node_id
        ∙ look-here c.node_id (or_else (find c.node_id b₁.contacts) none) at.here
        ∙ (rw self refl)
        ∙ ap (λ o. some (placed c o))
            (sym (look-here c.node_id (find c.node_id b.contacts) at.here)
              ∙ sym (look-bucket c.node_id)),
    λ k ne. elim (others k ne) [
      | inl kept ↦ inl (
          replaced-look (b₁ ∷ []) k
          ∙ ap (look k) (or_else-none (find k b₁.contacts) ∙ kept)
          ∙ sym (look-bucket k))
      | inr (d, before, doubt, gone) ↦
          let here = inside k d before in
          inr (
            d,
            look-bucket k ∙ look-here k (find k b.contacts) here ∙ before,
            doubt,
            replaced-look (b₁ ∷ []) k
                ∙ look-here k (or_else (find k b₁.contacts) none) here
                ∙ (rw gone refl),
          )
    ],
  )
