-- ===== src/Dht/Bucket.antt =====
-- `KBucket` of app/discovery/dht/routing.py.
use peer_stream.Prelude.{
  ℕ, suc, ◌+◌, ◌/◌, Bool, ◌&&◌, ◌||◌, Option, none, some, List, [], ◌∷◌, length, filter, ltb, leb,
  ◌==◌, if◌then◌else◌, Bytes, from_bytes,
}
use peer_stream.Dht.Contact.{Contact, note_success_of, find, store, pop, update, is_some}

pub record KBucket : Type 0 where
  pub low : ℕ
  pub high : ℕ
  pub capacity : ℕ
  pub contacts : List Contact
  pub last_changed : ℕ

abbrev pub make_bucket : ℕ → ℕ → ℕ → ℕ → KBucket
make_bucket now capacity low high = record {
  low = low;
  high = high;
  capacity = capacity;
  contacts = [];
  last_changed = now;
}

abbrev pub with_contacts : List Contact → KBucket → KBucket
with_contacts cs b = record b { contacts = cs }

abbrev pub is_full : KBucket → Bool
is_full b = leb b.capacity (length b.contacts)

-- `KBucket.contains`
abbrev pub covers : KBucket → Bytes → Bool
covers b k = leb b.low (from_bytes k) && leb (from_bytes k) b.high

-- `max(candidates, key=...)`: the first of the worst
abbrev pub is_worse : Contact → Contact → Bool
is_worse c d =
    ltb d.failures c.failures || ((c.failures == d.failures) && ltb c.last_seen d.last_seen)

unfoldable pub worst : Contact → List Contact → Contact
worst c [] = c
worst c (d ∷ ds) = worst (if is_worse d c then d else c) ds

abbrev pub worst_of : List Contact → Option Contact
worst_of [] = none
worst_of (c ∷ cs) = some (worst c cs)

abbrev pub is_questionable : Contact → Bool
is_questionable c = c.questionable

-- `KBucket.questionable`
abbrev pub questionable_in : KBucket → Option Contact
questionable_in b = worst_of (filter is_questionable b.contacts)

-- The loop of `split`: a contact goes to the half that covers it.
abbrev pub file_into : Contact → KBucket × KBucket → KBucket × KBucket
file_into c (left, right) =
    if covers left c.node_id
    then (with_contacts (store c left.contacts) left, right)
    else (left, with_contacts (store c right.contacts) right)

unfoldable pub distribute : List Contact → KBucket × KBucket → KBucket × KBucket
distribute [] halves = halves
distribute (c ∷ cs) halves = distribute cs (file_into c halves)

unfoldable pub split : ℕ → KBucket → KBucket × KBucket
split now b = distribute b.contacts (
  make_bucket now b.capacity b.low ((b.low + b.high) / 2),
  make_bucket now b.capacity (suc ((b.low + b.high) / 2)) b.high,
)

-- `KBucket.add`, which returns `True`
unfoldable pub add_to : ℕ → Contact → KBucket → KBucket
add_to now c b = record b {
  contacts =
      if is_some (find c.node_id b.contacts)
      then update c.node_id (note_success_of c.last_seen) b.contacts
      else store c b.contacts;
  last_changed = now;
}

abbrev pub remove_from : Bytes → KBucket → KBucket
remove_from k b = with_contacts (pop k b.contacts) b
