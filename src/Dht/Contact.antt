-- ===== src/Dht/Contact.antt =====
-- The node ids, the contacts and the dictionary of a bucket: the first part of
-- app/discovery/dht/routing.py.
use peer_stream.Prelude.{
  ℕ, suc, ◌*◌, String, Bool, true, false, ◌&&◌, ◌||◌, Option, none, some, List, [], ◌∷◌, length,
  leb, ◌==◌, if◌then◌else◌, Bytes, bytes_eq, from_bytes, Result, ok, ◌>>◌, guard, dht_error,
}
use Prim.Native.Nat.{bit_xor}

abbrev pub dht_node_id_size : ℕ
dht_node_id_size = 20

abbrev pub dht_k : ℕ
dht_k = 8

abbrev pub min_port : ℕ
min_port = 1

abbrev pub max_port : ℕ
max_port = 65535

abbrev pub id_bits : ℕ
id_bits = dht_node_id_size * 8

abbrev pub failures_before_questionable : ℕ
failures_before_questionable = 2

abbrev pub xor_bytes : Bytes → Bytes → Bytes
xor_bytes (a ∷ left) (b ∷ right) = bit_xor a b ∷ xor_bytes left right
xor_bytes _ _ = []

unfoldable pub distance : Bytes → Bytes → Result ℕ
distance left right = do
  guard ((length left == dht_node_id_size) && (length right == dht_node_id_size)) dht_error
  ok (from_bytes (xor_bytes left right))

pub record Contact : Type 0 where
  pub node_id : Bytes
  pub host : String
  pub port : ℕ
  pub last_seen : ℕ
  pub failures : ℕ
  pub questionable : Bool

-- `DhtContact(...)` with `__post_init__`
unfoldable pub make_contact : Contact → Result Contact
make_contact c = do
  guard (length c.node_id == dht_node_id_size) dht_error
  guard (leb min_port c.port && leb c.port max_port) dht_error
  ok c

abbrev pub note_success_of : ℕ → Contact → Contact
note_success_of now c = record c { last_seen = now; failures = 0; questionable = false }

abbrev pub note_failure_of : Contact → Contact
note_failure_of c = record c {
  failures = suc c.failures;
  questionable = leb failures_before_questionable (suc c.failures) || c.questionable;
}

-- The dictionary: `_contacts.get(node_id)`, `_contacts[c.node_id] = c`, `_contacts.pop(node_id, None)`
-- and a change of the object under a key.
unfoldable pub find : Bytes → List Contact → Option Contact
find k [] = none
find k (c ∷ cs) = if bytes_eq c.node_id k then some c else find k cs

unfoldable pub store : Contact → List Contact → List Contact
store c [] = c ∷ []
store c (d ∷ ds) = if bytes_eq d.node_id c.node_id then c ∷ ds else d ∷ store c ds

unfoldable pub pop : Bytes → List Contact → List Contact
pop k [] = []
pop k (c ∷ cs) = if bytes_eq c.node_id k then cs else c ∷ pop k cs

unfoldable pub update : Bytes → (Contact → Contact) → List Contact → List Contact
update k change [] = []
update k change (c ∷ cs) = if bytes_eq c.node_id k then change c ∷ cs else c ∷ update k change cs

abbrev pub is_some {ℓ} : {A : Type ℓ} → Option A → Bool
is_some none = false
is_some (some a) = true
