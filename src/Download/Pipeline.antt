-- ===== src/Download/Pipeline.antt =====
-- What app/download/scheduler.py keeps for one peer. A peer is known by its key; what the source
-- reads of a connection is a `PeerView`. A time is a number of ticks.
use peer_stream.Prelude.{
  ℕ, ◌+◌, String, Bool, true, false, Option, none, some, List, [], map, length, filter, ltb, leb,
  if◌then◌else◌,
}
use peer_stream.Prelude.Dicts.{get, put, remove}
use peer_stream.Peer.Bitfield.{Bitfield}
use peer_stream.Download.Endgame.{BlockKey, same_key}

pub record PeerView : Type 0 where
  pub key : String
  pub bitfield : Option Bitfield
  pub choked : Bool
  pub connected : Bool

-- The blocks asked of one peer, each with the time of its request.
pub record PeerSlot : Type 0 where
  pub key : String
  pub outstanding : List (BlockKey × ℕ)

abbrev pub new_slot : String → PeerSlot
new_slot key = record { key = key; outstanding = [] }

-- `__len__`
abbrev pub pipeline : PeerSlot → ℕ
pipeline slot = length slot.outstanding

unfoldable pub can_request : ℕ → PeerSlot → Bool
can_request limit slot = ltb (pipeline slot) limit

abbrev pub is_some {ℓ} : {A : Type ℓ} → Option A → Bool
is_some none = false
is_some (some a) = true

abbrev pub stamp : BlockKey → PeerSlot → Option ℕ
stamp key slot = get same_key key slot.outstanding

unfoldable pub add : BlockKey → ℕ → PeerSlot → Bool × PeerSlot
add key now slot =
    if is_some (stamp key slot)
    then (false, slot)
    else (true, record slot { outstanding = put same_key key now slot.outstanding })

unfoldable pub discard : BlockKey → PeerSlot → Bool × PeerSlot
discard key slot =
    (is_some (stamp key slot), record slot { outstanding = remove same_key key slot.outstanding })

unfoldable pub clear : PeerSlot → List BlockKey × PeerSlot
clear slot = (map (λ entry. entry.0) slot.outstanding, record slot { outstanding = [] })

unfoldable pub expired : ℕ → ℕ → PeerSlot → List BlockKey
expired timeout now slot =
    map (λ entry. entry.0) (filter (λ entry. leb (entry.1 + timeout) now) slot.outstanding)
