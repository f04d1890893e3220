-- ===== src/Download/Scheduler/Planning/Rounds.antt =====
-- What a pass does to the pipelines of the peers.
use peer_stream.Prelude.{
  ℕ, suc, ◌≡◌, refl, sym, ap, ◌∙◌, String, Bool-cases, Option-cases, inl, inr, true, false, ◌||◌,
  none, List, [], ◌∷◌, ◌++◌, map, append_assoc, length, if◌then◌else◌, arith,
}
use peer_stream.Prelude.Dicts.{IsEquality, get, put, get-put}
use peer_stream.Peer.Messages.{Message, request}
use peer_stream.Download.Endgame.{BlockKey, same_key}
use peer_stream.Download.Endgame.Fetching.{same_key-IsEquality}
use peer_stream.Download.Pipeline.{PeerView, PeerSlot, pipeline, add, is_some, stamp}
use peer_stream.Download.Scheduler.{Scheduler, same_name, slot_of, with_slot, open_slot, has_key}
use peer_stream.Download.Scheduler.Planning.{Assignment, open_slots}
use text.Mathlib.TextEquality.{eq_iff}

pub same_name-IsEquality : IsEquality same_name
same_name-IsEquality a b = eq_iff a b

abbrev pub keys_in : PeerSlot → List BlockKey
keys_in slot = map (λ entry. entry.0) slot.outstanding

abbrev pub requested : Message → List BlockKey
requested (request index begin size) = (index, begin) ∷ []
requested _ = []

-- The blocks asked of a peer, in order.
abbrev pub requests_to : String → List Assignment → List BlockKey
requests_to name [] = []
requests_to name (a ∷ more) =
    (if same_name name a.peer.key then requested a.message else []) ++ requests_to name more

-- No block stands twice.
abbrev pub Once : List BlockKey → Type 0
Once [] = Unit
Once (key ∷ keys) = (has_key key keys ≡ false) × Once keys

pub slot_of-with_slot :
    (key name : String) (slot : PeerSlot) (s : Scheduler)
    → slot_of name (with_slot key slot s) ≡ (if same_name name key then slot else slot_of name s)
slot_of-with_slot key name slot s =
    rw (get-put same_name same_name-IsEquality key name slot s.slots)
      (elim (Bool-cases (same_name name key)) [ inl e ↦ rw e refl | inr e ↦ rw e refl ])

pub slot_of-open_slot :
    (key name : String) (s : Scheduler) → slot_of name (open_slot key s) ≡ slot_of name s
slot_of-open_slot key name s =
    slot_of-with_slot key name (slot_of key s) s ∙ (elim (Bool-cases (same_name name key)) [
      | inl e ↦ rw e (ap (λ n. slot_of n s) (sym ((eq_iff name key).0 e)))
      | inr e ↦ rw e refl
    ])

pub slot_of-open_slots :
    (name : String) (peers : List PeerView) (s : Scheduler)
    → slot_of name (open_slots peers s) ≡ slot_of name s
slot_of-open_slots name [] s = refl
slot_of-open_slots name (peer ∷ peers) s =
    slot_of-open_slots name peers (open_slot peer.key s) ∙ slot_of-open_slot peer.key name s

pub requests_to-append :
    (name : String) (more bs : List Assignment)
    → requests_to name (more ++ bs) ≡ requests_to name more ++ requests_to name bs
requests_to-append name [] bs = refl
requests_to-append name (a ∷ more) bs =
    ap (λ r. (if same_name name a.peer.key then requested a.message else []) ++ r)
      (requests_to-append name more bs)
    ∙ sym (append_assoc (if same_name name a.peer.key then requested a.message else []) _ _)

has_key-append :
    (key k : BlockKey) (keys : List BlockKey)
    → has_key key (keys ++ k ∷ []) ≡ (has_key key keys || same_key key k)
has_key-append key k [] = ground arith
has_key-append key k (j ∷ keys) = ground (arith, has_key-append key k keys)

pub Once-append :
    (key : BlockKey) (keys : List BlockKey)
    → has_key key keys ≡ false
    → Once keys
    → Once (keys ++ key ∷ [])
Once-append key [] new once = (refl, tt)
Once-append key (k ∷ keys) new (first, once) = (
  ground (
    arith,
    has_key-append k key keys,
    first,
    new,
    same_key-IsEquality k key,
    same_key-IsEquality key k,
  ),
  Once-append key keys (ground (arith, new)) once,
)

has_key-none :
    (key : BlockKey) (slot : PeerSlot)
    → is_some (stamp key slot) ≡ false
    → has_key key (keys_in slot) ≡ false
has_key-none key slot = go slot.outstanding
  where
    go :
        (l : List (BlockKey × ℕ))
        → is_some (get same_key key l) ≡ false
        → has_key key (map (λ e. e.0) l) ≡ false
    go [] h = refl
    go ((k, at) ∷ l) h = ground (arith, go l, h)

-- What a slot gains by a request.
pub record IsGain (key : BlockKey) (before after : PeerSlot) : Type 0 where
  pub appended : keys_in after ≡ keys_in before ++ key ∷ []
  pub was_absent : has_key key (keys_in before) ≡ false
  pub longer : pipeline after ≡ suc (pipeline before)

map-put_new :
    (key : BlockKey) (now : ℕ) (l : List (BlockKey × ℕ))
    → get same_key key l ≡ none
    → (map (λ e. e.0) (put same_key key now l) ≡ map (λ e. e.0) l ++ key ∷ [])
      × (length (put same_key key now l) ≡ suc (length l))
map-put_new key now [] h = (refl, refl)
map-put_new key now ((k, at) ∷ l) h =
    let ih = map-put_new key now l in
    elim (Bool-cases (same_key key k)) [
      | inl e ↦ cc (rw e at h)
      | inr e ↦ rw e (ap (λ r. k ∷ r) (ih (rw e at h)).0, ap suc (ih (rw e at h)).1)
    ]

pub add-IsGain :
    (key : BlockKey) (now : ℕ) (slot : PeerSlot)
    → (add key now slot).0 ≡ true
    → IsGain key slot (add key now slot).1
unfolding add
add-IsGain key now slot added = elim (Option-cases (stamp key slot)) [
  | inl absent ↦
      let (appended, longer) = map-put_new key now slot.outstanding absent in
      rw absent (record {
        appended = appended;
        was_absent = has_key-none key slot (ap is_some absent);
        longer = longer;
      })
  | inr (at, pending) ↦ cc
]

pub add-refused :
    (key : BlockKey) (now : ℕ) (slot : PeerSlot)
    → (add key now slot).0 ≡ false
    → (add key now slot).1 ≡ slot
unfolding add
add-refused key now slot refused = ground arith
