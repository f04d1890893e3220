-- ===== src/Download/Scheduler/Accounting/Recalled.antt =====
-- The count under the calls that take requests back.
use peer_stream.Prelude.{
  ℕ, ◌≡◌, refl, ◌∙◌, String, Bool-cases, inl, inr, Option, none, some, List, [], ◌∷◌, ◌==◌,
}
use peer_stream.Prelude.Dicts.{get}
use peer_stream.Download.Endgame.{BlockKey, note_received as endgame_received, note_lost}
use peer_stream.Download.Pipeline.{PeerView, PeerSlot, clear as clear_pipeline, expired}
use peer_stream.Download.Scheduler.{Scheduler, same_name, with_slot, slot_of, forget, peer_for}
use peer_stream.Download.Scheduler.Accounting.{IsAccounted, IsAccounted-same}
use peer_stream.Download.Scheduler.Accounting.Claims.{unclaim-IsAccounted}
use peer_stream.Download.Scheduler.Recall.{
  discard_from, forget_asked_of, forget_asked, withdraw_of, withdraw, withdraw_all, note_received,
  give_back, give_back_all, cancel_key, cancel_keys, cancel_slots, note_orphaned, drop_peer,
  orphan_all, holder, expire_keys, expire_slots,
}

-- The same pieces, and the same count.
abbrev pub SameCount : Scheduler → Scheduler → Type 0
SameCount before after = (after.pieces ≡ before.pieces) × (after.unclaimed ≡ before.unclaimed)

withdraw_all-SameCount :
    (peers : List String) (key : BlockKey) (s : Scheduler) → SameCount s (withdraw_all peers key s)
withdraw_all-SameCount [] key s = (refl, refl)
withdraw_all-SameCount (peer ∷ peers) key s =
    let (pieces, count) = withdraw_all-SameCount peers key (withdraw peer key s) in
    let (pieces', count') = one (get same_name peer s.slots) in (pieces ∙ pieces', count ∙ count')
  where
    one : (slot : Option PeerSlot) → SameCount s (withdraw_of slot peer key s)
    one none = (refl, refl)
    one (some slot) = (refl, refl)

pub note_received-SameCount :
    (peer : String) (key : BlockKey) (s : Scheduler) → SameCount s (note_received peer key s).1
unfolding note_received
note_received-SameCount peer key s =
    let t = discard_from peer key s in
    let (others, endgame) = endgame_received key peer s.endgame in
    let noted : Scheduler = record (forget_asked peer key t) { endgame = endgame } in
    let (pieces, count) = withdraw_all-SameCount others key noted in
    let (pieces', count') = asked (get same_name peer t.asked) in (pieces ∙ pieces', count ∙ count')
  where
    asked :
        (keys : Option (List BlockKey))
        → SameCount s (forget_asked_of keys peer key (discard_from peer key s))
    asked none = (refl, refl)
    asked (some keys) = (refl, refl)

pub note_received-IsAccounted :
    (peer : String) (key : BlockKey) (s : Scheduler)
    → IsAccounted s
    → IsAccounted (note_received peer key s).1
note_received-IsAccounted peer key s a =
    let (pieces, count) = note_received-SameCount peer key s in
    IsAccounted-same s (note_received peer key s).1 pieces count a

give_back-IsAccounted :
    (peer : String) (key : BlockKey) (s : Scheduler)
    → IsAccounted s
    → IsAccounted (give_back peer key s)
give_back-IsAccounted peer key s a =
    unclaim-IsAccounted key.0 key.1 peer (record s { endgame = (note_lost key peer s.endgame).1 })
      (IsAccounted-same s (record s { endgame = (note_lost key peer s.endgame).1 }) refl refl a)

give_back_all-IsAccounted :
    (peer : String) (keys : List BlockKey) (s : Scheduler)
    → IsAccounted s
    → IsAccounted (give_back_all peer keys s)
give_back_all-IsAccounted peer [] s a = a
give_back_all-IsAccounted peer (key ∷ keys) s a =
    give_back_all-IsAccounted peer keys (give_back peer key s) (give_back-IsAccounted peer key s a)

cancel_key-IsAccounted :
    (index : ℕ) (peer : String) (key : BlockKey) (done : List (PeerView × BlockKey) × Scheduler)
    → IsAccounted done.1
    → IsAccounted (cancel_key index peer key done).1
cancel_key-IsAccounted index peer key done a = elim (Bool-cases (key.0 == index)) [
  | inl e ↦ rw e (
      give_back-IsAccounted peer key (discard_from peer key done.1)
        (IsAccounted-same done.1 (discard_from peer key done.1) refl refl a))
  | inr e ↦ rw e a
]

cancel_keys-IsAccounted :
    (index : ℕ) (peer : String) (keys : List BlockKey)
    (done : List (PeerView × BlockKey) × Scheduler)
    → IsAccounted done.1
    → IsAccounted (cancel_keys index peer keys done).1
cancel_keys-IsAccounted index peer [] done a = a
cancel_keys-IsAccounted index peer (key ∷ keys) done a =
    cancel_keys-IsAccounted index peer keys (cancel_key index peer key done)
      (cancel_key-IsAccounted index peer key done a)

pub cancel_slots-IsAccounted :
    (index : ℕ) (slots : List (String × PeerSlot)) (done : List (PeerView × BlockKey) × Scheduler)
    → IsAccounted done.1
    → IsAccounted (cancel_slots index slots done).1
cancel_slots-IsAccounted index [] done a = a
cancel_slots-IsAccounted index (entry ∷ slots) done a =
    let keys = (clear_pipeline entry.1).0 in
    cancel_slots-IsAccounted index slots (cancel_keys index entry.0 keys done)
      (cancel_keys-IsAccounted index entry.0 keys done a)

pub note_orphaned-IsAccounted :
    (peer : String) (key : BlockKey) (s : Scheduler)
    → IsAccounted s
    → IsAccounted (note_orphaned peer key s).1
unfolding note_orphaned
note_orphaned-IsAccounted peer key s a =
    let noted : Scheduler = record (discard_from peer key s) {
      endgame = (note_lost key peer s.endgame).1;
    } in
    let b = IsAccounted-same s noted refl refl a in
    elim (Bool-cases (note_lost key peer s.endgame).0) [
      | inl lost ↦ rw lost (unclaim-IsAccounted key.0 key.1 peer noted b)
      | inr raced ↦ rw raced b
    ]

pub drop_peer-IsAccounted :
    (peer : String) (s : Scheduler) → IsAccounted s → IsAccounted (drop_peer peer s).1
unfolding drop_peer forget
drop_peer-IsAccounted peer s a =
    let (keys, slot) = clear_pipeline (slot_of peer s) in
    let given = give_back_all peer keys (with_slot peer slot s) in
    IsAccounted-same given (forget peer given) refl refl (
      give_back_all-IsAccounted peer keys (with_slot peer slot s)
        (IsAccounted-same s (with_slot peer slot s) refl refl a))

orphan_all-IsAccounted :
    (peer : String) (keys : List BlockKey) (s : Scheduler)
    → IsAccounted s
    → IsAccounted (orphan_all peer keys s)
orphan_all-IsAccounted peer [] s a = a
orphan_all-IsAccounted peer (key ∷ keys) s a =
    orphan_all-IsAccounted peer keys (note_orphaned peer key s).1
      (note_orphaned-IsAccounted peer key s a)

expire_keys-IsAccounted :
    (key peer : String) (keys : List BlockKey) (done : List (String × List BlockKey) × Scheduler)
    → IsAccounted done.1
    → IsAccounted (expire_keys key peer keys done).1
expire_keys-IsAccounted key peer [] (known, s) a = a
expire_keys-IsAccounted key peer (k ∷ keys) (known, s) a =
    orphan_all-IsAccounted peer (k ∷ keys) s a

pub expire_slots-IsAccounted :
    (identity : String → String) (timeout now : ℕ) (slots : List (String × PeerSlot))
    (done : List (String × List BlockKey) × Scheduler)
    → IsAccounted done.1
    → IsAccounted (expire_slots identity timeout now slots done).1
expire_slots-IsAccounted identity timeout now [] done a = a
expire_slots-IsAccounted identity timeout now (entry ∷ slots) done a =
    let next =
      expire_keys entry.0 (holder identity entry.0 (peer_for entry.0 done.1))
        (expired timeout now entry.1) done in
    expire_slots-IsAccounted identity timeout now slots next (
      expire_keys-IsAccounted entry.0 (holder identity entry.0 (peer_for entry.0 done.1))
        (expired timeout now entry.1) done a)
