-- ===== src/Examples/Nodes.antt =====
-- A routing table with room for one contact in a bucket.
use peer_stream.Prelude.{
  List, ℕ, ◌-◌, ◌^◌, ◌≡◌, refl, Bool, true, false, none, [], ◌∷◌, replicate, leb→le, Bytes,
  IsBytes-replicate, ok,
}
use peer_stream.Dht.Contact.{Contact, find, store, id_bits}
use peer_stream.Dht.Bucket.{KBucket, make_bucket, add_to}
use peer_stream.Dht.Table.{RoutingTable, make_table, add_contact, add, bucket_for, replace_for, get}
use peer_stream.Dht.Tiling.{IsBucket}
use peer_stream.Dht.Placing.{IsTable, Lookups}
use peer_stream.Dht.Outcome.{add_contact-Lookups}
use peer_stream.Dht.Closest.{closest}
use peer_stream.Dht.Nearest.{IsClosest, closest-IsClosest}
use peer_stream.Dht.Lifetime.{Reach, makes, calls, adds, Reach-IsTable}

abbrev own : Bytes
own = replicate 20 0

abbrev contact_of : ℕ → Contact
contact_of b = record {
  node_id = replicate 20 b;
  host = "192.0.2.1";
  port = 6881;
  last_seen = 1;
  failures = 0;
  questionable = false;
}

abbrev far : Contact
far = contact_of 200

abbrev near : Contact
near = contact_of 3

abbrev one : KBucket
one = record {
  low = 0;
  high = 2 ^ id_bits - 1;
  capacity = 1;
  contacts = far ∷ [];
  last_changed = 2;
}

abbrev table_of : KBucket → RoutingTable
table_of b = record { own_id = own; capacity = 1; buckets = b ∷ [] }

made_table : make_table 1 1 own ≡ ok (table_of (make_bucket 1 1 0 (2 ^ id_bits - 1)))
unfolding make_table
made_table = refl

far_added :
    add_contact 2 far (table_of (make_bucket 1 1 0 (2 ^ id_bits - 1))) ≡ ok (true, table_of one)
unfolding add_contact add bucket_for replace_for add_to find store
far_added = refl

one-Reach : Reach (table_of one)
one-Reach =
    calls (makes 1 1 own (IsBytes-replicate 20 0 (leb→le 1 256 refl)) made_table)
      (adds 2 far true (refl, IsBytes-replicate 20 200 (leb→le 201 256 refl)) far_added)

Reach-IsTable_example : IsTable (table_of one) × (get own (table_of one) ≡ none)
Reach-IsTable_example = Reach-IsTable (table_of one) one-Reach

add_contact-Lookups_example :
    (added : Bool) × (after : RoutingTable) × (add_contact 3 near (table_of one)
      ≡ ok (added, after))
    × IsTable after
    × Lookups near (λ k. get k (table_of one)) (added, λ k. get k after)
add_contact-Lookups_example =
    add_contact-Lookups 3 near (table_of one) Reach-IsTable_example.0
      (refl, IsBytes-replicate 20 3 (leb→le 4 256 refl))

one-IsBucket : IsBucket own 1 one
unfolding find
one-IsBucket = record {
  limit = refl;
  size = leb→le 1 1 refl;
  keys = (refl, tt);
  members = (((refl, IsBytes-replicate 20 200 (leb→le 201 256 refl)), refl, refl), tt);
}

closest-IsClosest_example :
    (cs : List Contact) × (closest near.node_id 8 (table_of one) ≡ ok cs)
    × IsClosest near.node_id 8 (table_of one) cs
closest-IsClosest_example =
    closest-IsClosest near.node_id 8 (table_of one) Reach-IsTable_example.0 refl
