-- ===== src/Upload/Choke/Interested.antt =====
-- The peers that compete for the slots.
use peer_stream.Prelude.{
  ℕ, ◌+◌, ◌≡◌, refl, sym, String, Bool-cases, inl, inr, true, List, [], ◌∷◌, length, if◌then◌else◌,
  arith,
}
use peer_stream.Prelude.Sets.{contains}
use text.Mathlib.Text.{◌==◌ as ◌same_text◌}
use text.Mathlib.TextEquality.{eq_iff}
use peer_stream.Prelude.Sorting.{In}
use peer_stream.Upload.Choke.{PeerAccounting, keys_of, wanted_of}

-- An interested peer is known by the key.
pub record IsInterested (peers : List (String × PeerAccounting)) (k : String) : Type 0 where
  pub name : String
  pub peer : PeerAccounting
  pub present : In (name, peer) peers
  pub itself : peer.key ≡ k
  pub interested : peer.interested ≡ true

abbrev pub count_interested : List (String × PeerAccounting) → ℕ
count_interested [] = 0
count_interested ((name, p) ∷ peers) = (if p.interested then 1 else 0) + count_interested peers

pub length-wanted_of :
    (peers : List (String × PeerAccounting)) → length (wanted_of peers) ≡ count_interested peers
length-wanted_of [] = refl
length-wanted_of ((name, p) ∷ peers) = ground (arith, length-wanted_of peers)

IsInterested-behind :
    (entry : String × PeerAccounting) (peers : List (String × PeerAccounting)) (k : String)
    → IsInterested peers k
    → IsInterested (entry ∷ peers) k
IsInterested-behind entry peers k w = record {
  name = w.name;
  peer = w.peer;
  present = inr w.present;
  itself = w.itself;
  interested = w.interested;
}

pub wanted_of-IsInterested :
    (peers : List (String × PeerAccounting)) (k : String)
    → contains k (keys_of (wanted_of peers)) ≡ true
    → IsInterested peers k
wanted_of-IsInterested [] k h = cc
wanted_of-IsInterested ((name, p) ∷ peers) k h = elim (Bool-cases p.interested) [
  | inr bored ↦
      IsInterested-behind (name, p) peers k (wanted_of-IsInterested peers k (rw bored at h))
  | inl keen ↦ elim (Bool-cases (k same_text p.key)) [
    | inl e ↦ record {
      name = name;
      peer = p;
      present = inl refl;
      itself = sym ((eq_iff k p.key).0 e);
      interested = keen;
    }
    | inr e ↦
        IsInterested-behind (name, p) peers k
          (wanted_of-IsInterested peers k (rw e at (rw keen at h)))
  ]
]
