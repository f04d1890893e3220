-- ===== src/Dht/Closest.antt =====
-- The reading of a table in app/discovery/dht/routing.py: `contacts`, `closest` and `stale_buckets`.
use peer_stream.Prelude.{
  ℕ, ◌+◌, ◌-◌, Bool, not, List, [], ◌∷◌, ◌++◌, length, take, filter, ltb, leb, if◌then◌else◌, Bytes,
  bytes_eq, from_bytes, Result, ok, ◌>>=◌,
}
use peer_stream.Prelude.Sorting.{sort_by}
use peer_stream.Dht.Contact.{Contact, distance, xor_bytes}
use peer_stream.Dht.Bucket.{KBucket, is_questionable}
use peer_stream.Dht.Table.{RoutingTable}

-- `KBucket.contacts`: the last seen first
abbrev pub is_later : Contact → Contact → Bool
is_later c d = ltb d.last_seen c.last_seen

abbrev pub contacts_in : KBucket → List Contact
contacts_in b = sort_by is_later b.contacts

unfoldable pub contacts_among : List KBucket → List Contact
contacts_among [] = []
contacts_among (b ∷ bs) = contacts_in b ++ contacts_among bs

abbrev pub contacts : RoutingTable → List Contact
contacts t = contacts_among t.buckets

-- `RoutingTable.size`
unfoldable pub size_among : List KBucket → ℕ
size_among [] = 0
size_among (b ∷ bs) = length b.contacts + size_among bs

-- The keys of the sort, which may raise.
unfoldable pub distances : Bytes → List Contact → Result (List ℕ)
distances target [] = ok []
distances target (c ∷ cs) = do
  gap ← distance c.node_id target
  gaps ← distances target cs
  ok (gap ∷ gaps)

unfoldable pub gap : Bytes → Contact → ℕ
gap target c = from_bytes (xor_bytes c.node_id target)

abbrev pub is_nearer : Bytes → Contact → Contact → Bool
is_nearer target c d = ltb (gap target c) (gap target d)

abbrev pub is_other : Bytes → Contact → Bool
is_other target c = not (bytes_eq c.node_id target)

abbrev pub is_healthy : Contact → Bool
is_healthy c = not (is_questionable c)

abbrev pub pool_of : ℕ → List Contact → List Contact
pool_of count known =
    if leb count (length (filter is_healthy known)) then filter is_healthy known else known

unfoldable pub closest : Bytes → ℕ → RoutingTable → Result (List Contact)
closest target count t = do
  gaps ← distances target (pool_of count (filter (is_other target) (contacts t)))
  ok (
      take count
        (sort_by (is_nearer target) (pool_of count (filter (is_other target) (contacts t)))))

-- `stale_buckets`; the time is not before `older_than`
abbrev pub stale_buckets : ℕ → ℕ → RoutingTable → List KBucket
stale_buckets now older_than t = filter (λ b. ltb b.last_changed (now - older_than)) t.buckets
