-- ===== src/Download/Endgame/Tables.antt =====
-- The table of the tracker, read as who is fetching which block.
use peer_stream.Prelude.{
  ◌≡◌, ◌≢◌, ◌↔◌, inl, inr, refl, sym, ap, ◌∙◌, String, Bool, Bool-cases, true, false, not, ◌&&◌,
  ◌||◌, none, some, List, [], ◌∷◌, if◌then◌else◌, arith,
}
use peer_stream.Prelude.Dicts.{get, put, remove, get-put, get-remove}
use peer_stream.Prelude.Sets.{contains, insert, discard, contains-insert, contains-discard}
use peer_stream.Prelude.Sorting.{insert_by, sort_by}
use peer_stream.Download.Piece.{is_nil}
use peer_stream.Download.Endgame.{BlockKey, same_key, EndgameTracker, or_empty, fetchers}
use peer_stream.Download.Endgame.Fetching.{same_key-IsEquality, IsFree, IsTracker}
use text.Mathlib.Text.{◌==◌ as ◌same_text◌}
use text.Mathlib.TextEquality.{eq_iff}

pub contains-insert_by :
    (first : String → String → Bool) (q p : String) (ps : List String)
    → contains q (insert_by first p ps) ≡ (q same_text p || contains q ps)
contains-insert_by first q p [] = refl
contains-insert_by first q p (r ∷ ps) = ground (arith, contains-insert_by first q p ps)

pub contains-sort_by :
    (first : String → String → Bool) (q : String) (ps : List String)
    → contains q (sort_by first ps) ≡ contains q ps
contains-sort_by first q [] = refl
contains-sort_by first q (p ∷ ps) =
    contains-insert_by first q p (sort_by first ps)
    ∙ ap (λ b. q same_text p || b) (contains-sort_by first q ps)

pub is_nil-contains : (ps : List String) → is_nil ps ≡ true → (q : String) → contains q ps ≡ false
is_nil-contains [] h q = refl
is_nil-contains (p ∷ ps) h q = cc

pub contains-is_nil : (ps : List String) → ((q : String) → contains q ps ≡ false) → is_nil ps ≡ true
contains-is_nil [] h = refl
contains-is_nil (p ∷ ps) h = ground (arith, h p, eq_iff p p)

pub contains-fetchers :
    (k : BlockKey) (t : EndgameTracker)
    → IsTracker t
    → get same_key k t.fetching ≡ none
    → IsFree (λ q. contains q (fetchers k t))
contains-fetchers k t valid e q = rw e refl

pub insert-ne : (p : String) (ps : List String) → insert p ps ≢ []
insert-ne p ps h = ground (arith, contains-insert p p ps, eq_iff p p, ap (contains p) h)

-- The fetchers of a block after the table changed at one.
pub fetchers-put :
    (key k : BlockKey) (ps : List String) (d : List (BlockKey × List String)) (q : String)
    → contains q (or_empty (get same_key k (put same_key key ps d)))
      ≡ (if same_key k key then contains q ps else contains q (or_empty (get same_key k d)))
fetchers-put key k ps d q =
    rw (get-put same_key same_key-IsEquality key k ps d)
      (elim (Bool-cases (same_key k key)) [ inl e ↦ rw e refl | inr e ↦ rw e refl ])

pub fetchers-remove :
    (key k : BlockKey) (d : List (BlockKey × List String)) (q : String)
    → contains q (or_empty (get same_key k (remove same_key key d)))
      ≡ (not (same_key k key) && contains q (or_empty (get same_key k d)))
fetchers-remove key k d q =
    rw (get-remove same_key same_key-IsEquality key k d)
      (elim (Bool-cases (same_key k key)) [ inl e ↦ rw e refl | inr e ↦ rw e refl ])

pub put-IsTracker :
    (key : BlockKey) (ps : List String) (d : List (BlockKey × List String))
    → ps ≢ []
    → ((k : BlockKey) → get same_key k d ≢ some [])
    → (k : BlockKey) → get same_key k (put same_key key ps d) ≢ some []
put-IsTracker key ps d full valid k h = elim (Bool-cases (same_key k key)) [
  | inl e ↦ full (ap or_empty (rw (get-put same_key same_key-IsEquality key k ps d, e) at h))
  | inr e ↦ valid k (rw (get-put same_key same_key-IsEquality key k ps d, e) at h)
]

pub remove-IsTracker :
    (key : BlockKey) (d : List (BlockKey × List String))
    → ((k : BlockKey) → get same_key k d ≢ some [])
    → (k : BlockKey) → get same_key k (remove same_key key d) ≢ some []
remove-IsTracker key d valid k h = elim (Bool-cases (same_key k key)) [
  | inl e ↦ cc (rw (get-remove same_key same_key-IsEquality key k d, e) at h)
  | inr e ↦ valid k (rw (get-remove same_key same_key-IsEquality key k d, e) at h)
]

-- A tracked block is not free, and it becomes free with the loss of its last peer.
pub discard-IsFree :
    (peer : String) (peers : List String)
    → peers ≢ []
    → (is_nil (discard peer peers) ≡ true)
      ↔ ((¬ IsFree (λ q. contains q peers)) × ((q : String) → contains q peers ≡ true → q ≡ peer))
discard-IsFree peer peers full = (
  λ gone. (
    λ free. full (nil_of_is_nil peers (contains-is_nil peers free)),
    λ q known. ground (
      arith,
      known,
      contains-discard peer q peers,
      is_nil-contains (discard peer peers) gone q,
      eq_iff peer q,
    ),
  ),
  λ (busy, only). contains-is_nil (discard peer peers) (λ q. elim (Bool-cases (contains q peers)) [
    | inl known ↦ contains-discard peer q peers ∙ rw ((eq_iff peer q).1 (sym (only q known))) refl
    | inr new ↦ ground (arith, contains-discard peer q peers, new)
  ]),
)
  where
    nil_of_is_nil : (ps : List String) → is_nil ps ≡ true → ps ≡ []
    nil_of_is_nil [] h = refl
    nil_of_is_nil (p ∷ ps) h = cc
