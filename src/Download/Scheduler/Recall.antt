-- ===== src/Download/Scheduler/Recall.antt =====
-- The bookkeeping of app/download/scheduler.py: what becomes of a request that was answered, given up
-- or lost with its peer. Peers are given by their keys.
use peer_stream.Prelude.{
  ℕ, String, Bool, Option, none, some, List, [], ◌∷◌, ◌++◌, filter, not, map, ◌==◌, if◌then◌else◌,
}
use peer_stream.Prelude.Dicts.{get, put}
use peer_stream.Download.Endgame.{BlockKey, same_key, note_received as endgame_received, note_lost}
use peer_stream.Download.Pipeline.{PeerView, PeerSlot, discard, clear, expired}
use peer_stream.Download.Scheduler.{
  Scheduler, same_name, slot_of, with_slot, forget, unclaim, peer_for,
}

-- `self.slot(peer).discard(key)`
abbrev pub discard_from : String → BlockKey → Scheduler → Scheduler
discard_from peer key s = with_slot peer (discard key (slot_of peer s)).1 s

-- `self._asked.get(peer, set()).discard(key)`
abbrev pub forget_asked_of : Option (List BlockKey) → String → BlockKey → Scheduler → Scheduler
forget_asked_of none peer key s = s
forget_asked_of (some keys) peer key s = record s {
  asked = put same_name peer (filter (λ k. not (same_key key k)) keys) s.asked;
}

abbrev pub forget_asked : String → BlockKey → Scheduler → Scheduler
forget_asked peer key s = forget_asked_of (get same_name peer s.asked) peer key s

-- `self._slots.get(other, PeerSlot(key=other)).discard(key)`: a slot that is not there stays away.
abbrev pub withdraw_of : Option PeerSlot → String → BlockKey → Scheduler → Scheduler
withdraw_of none peer key s = s
withdraw_of (some slot) peer key s = with_slot peer (discard key slot).1 s

abbrev pub withdraw : String → BlockKey → Scheduler → Scheduler
withdraw peer key s = withdraw_of (get same_name peer s.slots) peer key s

abbrev pub withdraw_all : List String → BlockKey → Scheduler → Scheduler
withdraw_all [] key s = s
withdraw_all (peer ∷ peers) key s = withdraw_all peers key (withdraw peer key s)

-- The peers that are known by the keys.
abbrev pub known_of : Option PeerView → List PeerView
known_of none = []
known_of (some peer) = peer ∷ []

abbrev pub known_peers : List String → Scheduler → List PeerView
known_peers [] s = []
known_peers (key ∷ keys) s = known_of (peer_for key s) ++ known_peers keys s

unfoldable pub note_received : String → BlockKey → Scheduler → List PeerView × Scheduler
note_received peer key s =
    let (others, endgame) = endgame_received key peer s.endgame in
    let noted = record (forget_asked peer key (discard_from peer key s)) { endgame = endgame } in
    (known_peers others s, withdraw_all others key noted)

-- Give one request up: the endgame forgets it, and the piece takes the block back.
abbrev pub give_back : String → BlockKey → Scheduler → Scheduler
give_back peer key s =
    unclaim key.0 key.1 peer (record s { endgame = (note_lost key peer s.endgame).1 })

abbrev pub give_back_all : String → List BlockKey → Scheduler → Scheduler
give_back_all peer [] s = s
give_back_all peer (key ∷ keys) s = give_back_all peer keys (give_back peer key s)

-- A round of the inner loop of `cancel_piece`
abbrev pub cancel_key :
    ℕ
    → String
    → BlockKey
    → List (PeerView × BlockKey) × Scheduler
    → List (PeerView × BlockKey) × Scheduler
cancel_key index peer key done =
    if key.0 == index
    then (
      done.0 ++ map (λ view. (view, key)) (known_of (peer_for peer done.1)),
      give_back peer key (discard_from peer key done.1),
    )
    else done

abbrev pub cancel_keys :
    ℕ
    → String
    → List BlockKey
    → List (PeerView × BlockKey) × Scheduler
    → List (PeerView × BlockKey) × Scheduler
cancel_keys index peer [] done = done
cancel_keys index peer (key ∷ keys) done =
    cancel_keys index peer keys (cancel_key index peer key done)

abbrev pub cancel_slots :
    ℕ
    → List (String × PeerSlot)
    → List (PeerView × BlockKey) × Scheduler
    → List (PeerView × BlockKey) × Scheduler
cancel_slots index [] done = done
cancel_slots index (entry ∷ slots) done =
    cancel_slots index slots (cancel_keys index entry.0 (clear entry.1).0 done)

unfoldable pub cancel_piece : ℕ → Scheduler → List (PeerView × BlockKey) × Scheduler
cancel_piece index s = cancel_slots index s.slots ([], s)

unfoldable pub note_orphaned : String → BlockKey → Scheduler → Bool × Scheduler
note_orphaned peer key s =
    let (lost, endgame) = note_lost key peer s.endgame in
    let noted = record (discard_from peer key s) { endgame = endgame } in
    (lost, if lost then unclaim key.0 key.1 peer noted else noted)

unfoldable pub drop_peer : String → Scheduler → List BlockKey × Scheduler
drop_peer peer s =
    let (keys, slot) = clear (slot_of peer s) in
    (keys, forget peer (give_back_all peer keys (with_slot peer slot s)))

abbrev pub orphan_all : String → List BlockKey → Scheduler → Scheduler
orphan_all peer [] s = s
orphan_all peer (key ∷ keys) s = orphan_all peer keys (note_orphaned peer key s).1

-- `peer_key(self._peers.get(key, slot))`: a slot has no address, and goes by the name that its
-- identity gives, which is an argument.
abbrev pub holder : (String → String) → String → Option PeerView → String
holder identity key none = identity key
holder identity key (some peer) = peer.key

abbrev pub expire_keys :
    String
    → String
    → List BlockKey
    → List (String × List BlockKey) × Scheduler
    → List (String × List BlockKey) × Scheduler
expire_keys key peer [] (known, s) = (known, s)
expire_keys key peer (k ∷ keys) (known, s) =
    (put same_name key (k ∷ keys) known, orphan_all peer (k ∷ keys) s)

abbrev pub expire_slots :
    (String → String)
    → ℕ
    → ℕ
    → List (String × PeerSlot)
    → List (String × List BlockKey) × Scheduler
    → List (String × List BlockKey) × Scheduler
expire_slots identity timeout now [] done = done
expire_slots identity timeout now (entry ∷ slots) done = expire_slots identity timeout now slots (
    expire_keys entry.0 (holder identity entry.0 (peer_for entry.0 done.1))
      (expired timeout now entry.1) done)

abbrev pub or_timeout : Option ℕ → ℕ → ℕ
or_timeout none timeout = timeout
or_timeout (some limit) timeout = limit

unfoldable pub expire :
    (String → String) → Option ℕ → ℕ → Scheduler → List (String × List BlockKey) × Scheduler
expire identity timeout now s =
    expire_slots identity (or_timeout timeout s.config.block_timeout) now s.slots ([], s)
