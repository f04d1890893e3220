-- ===== src/Dht/Table.antt =====
-- `RoutingTable` of app/discovery/dht/routing.py: what changes it, and `get`.
use peer_stream.Prelude.{
  ℕ, zero, suc, ◌-◌, ◌^◌, String, Bool, true, false, not, ◌||◌, Option, none, some, List, [], ◌∷◌,
  ◌++◌, length, ◌==◌, if◌then◌else◌, Bytes, bytes_eq, Result, ok, err, ◌>>=◌, ◌>>◌, guard,
  dht_error, index_error, out_of_rounds,
}
use peer_stream.Dht.Contact.{
  dht_node_id_size, id_bits, Contact, make_contact, note_success_of, note_failure_of, find, update,
  is_some,
}
use peer_stream.Dht.Bucket.{
  KBucket, make_bucket, with_contacts, is_full, covers, questionable_in, split, add_to, remove_from,
}

pub record RoutingTable : Type 0 where
  pub own_id : Bytes
  pub capacity : ℕ
  pub buckets : List KBucket

unfoldable pub make_table : ℕ → ℕ → Bytes → Result RoutingTable
make_table now capacity own_id = do
  guard (length own_id == dht_node_id_size) dht_error
  ok record {
    own_id = own_id;
    capacity = capacity;
    buckets = make_bucket now capacity 0 (2 ^ id_bits - 1) ∷ [];
  }

abbrev pub with_buckets : List KBucket → RoutingTable → RoutingTable
with_buckets bs t = record t { buckets = bs }

abbrev pub or_else {ℓ} : {A : Type ℓ} → Option A → Option A → Option A
or_else none o = o
or_else (some a) o = some a

unfoldable pub get_among : Bytes → List KBucket → Option Contact
get_among k [] = none
get_among k (b ∷ bs) = or_else (find k b.contacts) (get_among k bs)

abbrev pub get : Bytes → RoutingTable → Option Contact
get k t = get_among k t.buckets

unfoldable pub bucket_for : Bytes → List KBucket → Result KBucket
bucket_for k [] = err index_error
bucket_for k (b ∷ []) = ok b
bucket_for k (b ∷ b₁ ∷ bs) = if covers b k then ok b else bucket_for k (b₁ ∷ bs)

-- The bucket that `bucket_for` gives, changed in its place.
unfoldable pub replace_for : Bytes → List KBucket → List KBucket → List KBucket
replace_for k new [] = []
replace_for k new (b ∷ []) = new
replace_for k new (b ∷ b₁ ∷ bs) =
    if covers b k then new ++ (b₁ ∷ bs) else b ∷ replace_for k new (b₁ ∷ bs)

abbrev pub split_for : ℕ → Bytes → KBucket → RoutingTable → RoutingTable
split_for now k b t =
    with_buckets (replace_for k ((split now b).0 ∷ (split now b).1 ∷ []) t.buckets) t

abbrev pub add_in : ℕ → Contact → KBucket → RoutingTable → RoutingTable
add_in now c b t = with_buckets (replace_for c.node_id (add_to now c b ∷ []) t.buckets) t

-- The end of `add`, for a full bucket without the contact: `again` is the call of `add` after a split.
abbrev pub make_room :
    ℕ
    → Contact
    → KBucket
    → RoutingTable
    → Result (Bool × RoutingTable)
    → Option Contact
    → Result (Bool × RoutingTable)
make_room now c b t again none = if covers b t.own_id then again else ok (false, t)
make_room now c b t again (some stale) = ok (true, add_in now c (remove_from stale.node_id b) t)

-- `add`, on rounds: a call of itself takes one.
unfoldable pub add : ℕ → ℕ → Contact → RoutingTable → Result (Bool × RoutingTable)
add zero now c t = err out_of_rounds
add (suc rounds) now c t =
    if bytes_eq c.node_id t.own_id
    then ok (false, t)
    else bucket_for c.node_id t.buckets >>= λ b.
        let again = add rounds now c (split_for now c.node_id b t) in
        if not (is_full b) || is_some (find c.node_id b.contacts)
        then ok (true, add_in now c b t)
        else make_room now c b t again (questionable_in b)

unfoldable pub add_contact : ℕ → Contact → RoutingTable → Result (Bool × RoutingTable)
unfolding add
add_contact now c t = add (suc id_bits) now c t

unfoldable pub remove_among : Bytes → List KBucket → Bool × List KBucket
remove_among k [] = (false, [])
remove_among k (b ∷ bs) =
    let (removed, rest) = remove_among k bs in
    if is_some (find k b.contacts) then (true, remove_from k b ∷ bs) else (removed, b ∷ rest)

abbrev pub remove : Bytes → RoutingTable → Bool × RoutingTable
remove k t = let (removed, bs) = remove_among k t.buckets in (removed, with_buckets bs t)

-- A change of the contact that `get` gives.
unfoldable pub update_among : Bytes → (Contact → Contact) → List KBucket → List KBucket
update_among k change [] = []
update_among k change (b ∷ bs) =
    let rest = update_among k change bs in
    if is_some (find k b.contacts)
    then with_contacts (update k change b.contacts) b ∷ bs
    else b ∷ rest

abbrev pub new_contact : ℕ → Bytes → String × ℕ → Contact
new_contact now k (host, port) = record {
  node_id = k;
  host = host;
  port = port;
  last_seen = now;
  failures = 0;
  questionable = false;
}

-- `note_success` for what `get` gives; no address is one of which a part is missing
abbrev pub refresh_or_add :
    ℕ → Bytes → Option (String × ℕ) → RoutingTable → Option Contact → Result RoutingTable
refresh_or_add now k address t (some c) =
    ok (with_buckets (update_among k (note_success_of now) t.buckets) t)
refresh_or_add now k none t none = ok t
refresh_or_add now k (some address) t none = do
  c ← make_contact (new_contact now k address)
  (added, after) ← add_contact now c t
  ok after

unfoldable pub note_success : ℕ → Bytes → Option (String × ℕ) → RoutingTable → Result RoutingTable
note_success now k address t = refresh_or_add now k address t (get k t)

unfoldable pub note_failure : Bytes → RoutingTable → RoutingTable
note_failure k t = with_buckets (update_among k note_failure_of t.buckets) t
