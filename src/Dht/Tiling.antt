-- ===== src/Dht/Tiling.antt =====
-- The buckets of a table: ranges that follow one another, each with contacts of its own.
use peer_stream.Prelude.{
  ℕ, suc, ◌≤◌, ◌<◌, ◌≡◌, refl, sym, ap, subst, ◌∙◌, Bool-cases, inl, inr, true, false, Option, none,
  some, List, [], ◌∷◌, ◌++◌, append-nil, length, All, arith, Bytes, bytes_eq, bytes_eq→eq,
  from_bytes, ok,
}
use peer_stream.Dht.Contact.{Contact, find}
use peer_stream.Dht.Bucket.{KBucket, covers}
use peer_stream.Dht.Table.{or_else, get_among, bucket_for, replace_for}
use peer_stream.Dht.Dictionary.{Distinct}
use peer_stream.Dht.Ids.{IsId}

-- The contact is in the range of the bucket and is not the owner of the table.
abbrev pub Holds : Bytes → KBucket → Contact → Type 0
Holds own b c = IsId c.node_id × (covers b c.node_id ≡ true) × (bytes_eq c.node_id own ≡ false)

pub record IsBucket (own : Bytes) (capacity : ℕ) (b : KBucket) : Type 0 where
  pub limit : b.capacity ≡ capacity
  pub size : length b.contacts ≤ capacity
  pub keys : Distinct b.contacts
  pub members : All (Holds own b) b.contacts

abbrev Outside : Bytes → KBucket → Type 0
Outside k b = covers b k ≡ false

pub find-All-none :
    (own : Bytes) (b : KBucket) (k : Bytes) (cs : List Contact)
    → All (Holds own b) cs
    → covers b k ≡ false
    → find k cs ≡ none
unfolding find
find-All-none own b k [] hs outside = refl
find-All-none own b k (c ∷ cs) ((_, here, _), hs) outside = ground (
  arith,
  find-All-none own b k cs hs outside,
  bytes_eq→eq c.node_id k,
  ap (covers b) {x = c.node_id} {y = k},
)

pub or_else-none : (o : Option Contact) → or_else o none ≡ o
or_else-none none = refl
or_else-none (some c) = refl

pub get_among-append :
    (k : Bytes) (xs ys : List KBucket)
    → get_among k (xs ++ ys) ≡ or_else (get_among k xs) (get_among k ys)
unfolding get_among
get_among-append k [] ys = refl
get_among-append k (x ∷ xs) ys =
    ap (or_else (find k x.contacts)) (get_among-append k xs ys)
    ∙ or_else_assoc (find k x.contacts) (get_among k xs) (get_among k ys)
  where
    or_else_assoc : (a b c : Option Contact) → or_else a (or_else b c) ≡ or_else (or_else a b) c
    or_else_assoc none b c = refl
    or_else_assoc (some x) b c = refl

-- The bucket for a key, and how the list changes when it is replaced.
pub record Found (k : Bytes) (bs : List KBucket) (b : KBucket) : Type 0 where
  pub front : List KBucket
  pub back : List KBucket
  pub same : bs ≡ front ++ (b ∷ back)
  pub change : (new : List KBucket) → replace_for k new bs ≡ front ++ (new ++ back)
  pub here : covers b k ≡ true
  pub before : All (Outside k) front

module _ (own : Bytes) (capacity : ℕ) where
  abbrev pub Tiles : ℕ → List KBucket → ℕ → Type 0
  Tiles lo [] hi = lo ≡ hi
  Tiles lo (b ∷ bs) hi =
      (b.low ≡ lo) × (b.low ≤ b.high) × IsBucket own capacity b × Tiles (suc b.high) bs hi

  pub Tiles-replace :
      (lo hi : ℕ) (front : List KBucket) (b : KBucket) (back new : List KBucket)
      → Tiles lo (front ++ (b ∷ back)) hi
      → Tiles b.low new (suc b.high)
      → Tiles lo (front ++ (new ++ back)) hi
  Tiles-replace lo hi (f ∷ front) b back new (low, some_ids, ok_bucket, tiles) ts =
      (low, some_ids, ok_bucket, Tiles-replace (suc f.high) hi front b back new tiles ts)
  Tiles-replace lo hi [] b back new (low, some_ids, ok_bucket, tiles) ts =
      joined lo new (suc b.high) (subst (λ x. Tiles x new (suc b.high)) low ts) tiles
    where
      joined :
          (lo : ℕ) (xs : List KBucket) (mid : ℕ)
          → Tiles lo xs mid
          → Tiles mid back hi
          → Tiles lo (xs ++ back) hi
      joined lo [] mid e rest = subst (λ x. Tiles x back hi) (sym e) rest
      joined lo (x ∷ xs) mid (low, some_ids, is, tiles) rest =
          (low, some_ids, is, joined (suc x.high) xs mid tiles rest)

  pub Tiles-middle :
      (lo hi : ℕ) (front : List KBucket) (b : KBucket) (back : List KBucket)
      → Tiles lo (front ++ (b ∷ back)) hi
      → (b.low ≤ b.high) × IsBucket own capacity b
  Tiles-middle lo hi [] b back (low, some_ids, is, tiles) = (some_ids, is)
  Tiles-middle lo hi (f ∷ front) b back (low, some_ids, is, tiles) =
      Tiles-middle (suc f.high) hi front b back tiles

  Tiles-low :
      (lo hi : ℕ) (front : List KBucket) (b : KBucket) (back : List KBucket)
      → Tiles lo (front ++ (b ∷ back)) hi
      → lo ≤ b.low
  Tiles-low lo hi [] b back (low, some_ids, is, tiles) = omega arith
  Tiles-low lo hi (f ∷ front) b back (low, some_ids, is, tiles) =
      omega (arith, Tiles-low (suc f.high) hi front b back tiles)

  Tiles-le : (lo hi : ℕ) (bs : List KBucket) → Tiles lo bs hi → lo ≤ hi
  Tiles-le lo hi [] tiles = omega arith
  Tiles-le lo hi (b ∷ bs) (low, some_ids, is, tiles) =
      omega (arith, Tiles-le (suc b.high) hi bs tiles)

  pub Tiles-high :
      (lo hi : ℕ) (front : List KBucket) (b : KBucket) (back : List KBucket)
      → Tiles lo (front ++ (b ∷ back)) hi
      → b.high < hi
  Tiles-high lo hi [] b back (low, some_ids, is, tiles) = Tiles-le (suc b.high) hi back tiles
  Tiles-high lo hi (f ∷ front) b back (low, some_ids, is, tiles) =
      Tiles-high (suc f.high) hi front b back tiles

  -- What a bucket covers, no bucket before it and none behind it has.
  pub get_among-front :
      (k : Bytes) (lo hi : ℕ) (front : List KBucket) (b : KBucket) (back : List KBucket)
      → Tiles lo (front ++ (b ∷ back)) hi
      → b.low ≤ from_bytes k
      → get_among k front ≡ none
  unfolding get_among
  get_among-front k lo hi [] b back tiles above = refl
  get_among-front k lo hi (f ∷ front) b back (low, some_ids, is, tiles) above =
      let next = Tiles-low (suc f.high) hi front b back tiles in
      rw
        (
          find-All-none own f k f.contacts is.members (ground arith),
          get_among-front k (suc f.high) hi front b back tiles above,
        )
        refl

  get_among-above :
      (k : Bytes) (lo hi : ℕ) (bs : List KBucket)
      → Tiles lo bs hi
      → from_bytes k < lo
      → get_among k bs ≡ none
  unfolding get_among
  get_among-above k lo hi [] tiles below = refl
  get_among-above k lo hi (b ∷ bs) (low, some_ids, is, tiles) below =
      rw
        (
          find-All-none own b k b.contacts is.members (ground arith),
          get_among-above k (suc b.high) hi bs tiles (omega arith),
        )
        refl

  pub get_among-back :
      (k : Bytes) (lo hi : ℕ) (front : List KBucket) (b : KBucket) (back : List KBucket)
      → Tiles lo (front ++ (b ∷ back)) hi
      → from_bytes k ≤ b.high
      → get_among k back ≡ none
  get_among-back k lo hi [] b back (low, some_ids, is, tiles) below =
      get_among-above k (suc b.high) hi back tiles (omega arith)
  get_among-back k lo hi (f ∷ front) b back (low, some_ids, is, tiles) below =
      get_among-back k (suc f.high) hi front b back tiles below

  pub bucket_for-Found :
      (k : Bytes) (lo hi : ℕ) (bs : List KBucket)
      → Tiles lo bs hi
      → lo ≤ from_bytes k
      → from_bytes k < hi
      → (b : KBucket) × (bucket_for k bs ≡ ok b) × Found k bs b
  unfolding bucket_for replace_for
  bucket_for-Found k lo hi [] tiles low high = absurd (omega arith)
  bucket_for-Found k lo hi (b ∷ []) (from, some_ids, is, upto) low high = (
    b,
    refl,
    record {
      front = [];
      back = [];
      same = refl;
      change = λ new. sym (append-nil new);
      here = ground arith;
      before = tt;
    },
  )
  bucket_for-Found k lo hi (b ∷ b₁ ∷ bs) (from, some_ids, is, tiles) low high =
      elim (Bool-cases (covers b k)) [
        | inl here ↦ (
          b,
          rw here refl,
          record {
            front = [];
            back = b₁ ∷ bs;
            same = refl;
            change = λ new. rw here refl;
            here = here;
            before = tt;
          },
        )
        | inr outside ↦
            let (b₂, is_found, at) =
              bucket_for-Found k (suc b.high) hi (b₁ ∷ bs) tiles (ground arith) high in
            (
              b₂,
              rw outside is_found,
              record {
                front = b ∷ at.front;
                back = at.back;
                same = ap (λ x. b ∷ x) at.same;
                change = λ new. rw outside (ap (λ x. b ∷ x) (at.change new));
                here = at.here;
                before = (outside, at.before);
              },
            )
      ]

pub bucket_for-front :
    (k : Bytes) (front : List KBucket) (b : KBucket) (back : List KBucket)
    → All (Outside k) front
    → bucket_for k (front ++ (b ∷ back)) ≡ bucket_for k (b ∷ back)
unfolding bucket_for
bucket_for-front k [] b back outside = refl
bucket_for-front k (f ∷ []) b back (out, outside) = rw out refl
bucket_for-front k (f ∷ f₁ ∷ front) b back (out, outside) =
    rw out (bucket_for-front k (f₁ ∷ front) b back outside)

pub bucket_for-here :
    (k : Bytes) (b : KBucket) (back : List KBucket)
    → covers b k ≡ true
    → bucket_for k (b ∷ back) ≡ ok b
unfolding bucket_for
bucket_for-here k b [] here = refl
bucket_for-here k b (b₁ ∷ back) here = rw here refl
