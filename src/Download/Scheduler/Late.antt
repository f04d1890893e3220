-- ===== src/Download/Scheduler/Late.antt =====
-- What becomes of the count when a block comes in late, as in `on_block` of
-- app/download/manager.py: its piece takes the block, and then the scheduler is told.
use peer_stream.Prelude.{
  ℕ, suc, ◌≡◌, refl, sym, ap, ◌∙◌, String, Bool, true, false, ◌&&◌, Option, some, List, Bytes,
  arith, length,
}
use peer_stream.Prelude.Int.{ℤ, pos}
use peer_stream.Prelude.Dicts.{get, put}
use peer_stream.Prelude.Sets.{contains, discard, contains-discard}
use peer_stream.Peer.Availability.{increase}
use peer_stream.Download.Block.{BlockState}
use peer_stream.Download.Piece.{
  Piece, Slot, is_nil, is_missing, is_received, is_requested, finished, find_slot, mark_orphaned,
  orphan_slot, add_block,
}
use peer_stream.Download.Endgame.{BlockKey, same_key}
use peer_stream.Download.Endgame.Tables.{contains-is_nil}
use peer_stream.Download.Scheduler.{
  Scheduler, same_index, adjust, sum_unclaimed, counted, unclaimed_count, with_piece,
}
use peer_stream.Download.Scheduler.Accounting.{IsAccounted, AllSound-get, sum_unclaimed-put, one_if}
use peer_stream.Download.Scheduler.Accounting.Recalled.{
  note_orphaned-IsAccounted, note_received-SameCount,
}
use peer_stream.Download.Scheduler.Accounting.Arrivals.{add_block-weight}
use peer_stream.Download.Scheduler.Orphans.{last-note_orphaned, mark_orphaned-find_slot}
use peer_stream.Download.Scheduler.Lost.{orphan_slot-IsOpen}
use peer_stream.Download.Scheduler.Recall.{note_orphaned, note_received}
use text.Mathlib.TextEquality.{eq_iff}

-- Where a piece takes a missing block, the count is one too high.
missing_block-unclaimed_count :
    (s : Scheduler) (index offset : ℕ) (block : Bytes) (source : Option String) (p : Piece)
    (slot : Slot) (n : ℤ)
    → IsAccounted s
    → s.unclaimed ≡ some n
    → get same_index index s.pieces ≡ some p
    → finished p ≡ false
    → find_slot offset p.slots ≡ some slot
    → is_missing slot.state ≡ true
    → (add_block offset block source p).0 ≡ true
    → let after = with_piece index (add_block offset block source p).1 s in
      unclaimed_count after ≡ pos (suc (sum_unclaimed after.pieces))
missing_block-unclaimed_count s index offset block source p slot n a count found undone there
      missing taken =
    let q = (add_block offset block source p).1 in
    let (sound, less) =
      add_block-weight index offset block source p slot there undone
        (AllSound-get index p s.pieces found a.sound) in
    let one : one_if (is_missing slot.state && (add_block offset block source p).0) ≡ 1 =
      rw (missing, taken) refl in
    ap (λ c. counted c (put same_index index q s.pieces)) count
    ∙ a.exact n count
    ∙ ap pos {x = sum_unclaimed s.pieces}
        (omega (arith, less, one, sum_unclaimed-put index p q s.pieces found))

-- A block that is missing is taken if it has its size.
missing-add_block :
    (offset : ℕ) (block : Bytes) (source : Option String) (p : Piece) (slot : Slot)
    → find_slot offset p.slots ≡ some slot
    → slot.state ≡ BlockState.missing
    → length block ≡ slot.block.size
    → (add_block offset block source p).0 ≡ true
unfolding add_block
missing-add_block offset block source p slot found missing size =
    let state : is_received slot.state ≡ false = ap is_received missing in
    rw found (ground (arith, state, size))

mark_orphaned-finished :
    (offset : ℕ) (peer : String) (p : Piece) (slot : Slot)
    → find_slot offset p.slots ≡ some slot
    → finished p ≡ false
    → finished (mark_orphaned offset peer p).1 ≡ false
unfolding mark_orphaned finished
mark_orphaned-finished offset peer p slot found undone = rw found undone

only-discard :
    (peer : String) (peers : List String)
    → ((q : String) → contains q peers ≡ true → q ≡ peer)
    → is_nil (discard peer peers) ≡ true
only-discard peer peers only = contains-is_nil (discard peer peers) (λ q. nobody q)
  where
    nobody : (q : String) → contains q (discard peer peers) ≡ false
    nobody q = ground (arith, contains-discard peer q peers, only q, eq_iff peer q)

-- The count stays a number.
adjust-some :
    (change : ℤ → ℤ) (b : Bool) (n : ℤ) (count : Option ℤ)
    → count ≡ some n
    → (m : ℤ) × (adjust change b count ≡ some m)
adjust-some change true n count e = (change n, ap (adjust change true) e)
adjust-some change false n count e = (n, e)

-- In an accounted scheduler that keeps the count, a requested block of a piece that is not verified
-- was asked of one peer alone, by the piece and by the endgame. Giving that request up leaves the
-- count right. If the peer sends the block then all the same, with the right size, its piece takes
-- it; and once the scheduler is told, `unclaimed_blocks` gives one more than there are.
pub late_block-unclaimed_count :
    (s : Scheduler) (key : BlockKey) (peer : String) (peers : List String) (p : Piece) (slot : Slot)
    (block : Bytes) (n : ℤ)
    → IsAccounted s
    → s.unclaimed ≡ some n
    → get same_key key s.endgame.fetching ≡ some peers
    → ((q : String) → contains q peers ≡ true → q ≡ peer)
    → get same_index key.0 s.pieces ≡ some p
    → finished p ≡ false
    → find_slot key.1 p.slots ≡ some slot
    → is_requested slot.state ≡ true
    → ((q : String) → contains q slot.requesters ≡ true → q ≡ peer)
    → length block ≡ slot.block.size
    → let given_up = (note_orphaned peer key s).1 in
      (unclaimed_count given_up ≡ pos (sum_unclaimed given_up.pieces))
      × (q : Piece) × (get same_index key.0 given_up.pieces ≡ some q)
      × ((add_block key.1 block (some peer) q).0 ≡ true)
      × (let after =
            (note_received peer key
              (with_piece key.0 (add_block key.1 block (some peer) q).1 given_up)).1 in
          unclaimed_count after ≡ pos (suc (sum_unclaimed after.pieces)))
late_block-unclaimed_count s key peer peers p slot block n a count tracked sole known undone found
      requested only size =
    let given_up = (note_orphaned peer key s).1 in
    let q = (mark_orphaned key.1 peer p).1 in
    let (known', _, count') =
      last-note_orphaned s key peer peers p tracked (only-discard peer peers sole) known in
    let (m, kept) = adjust-some increase (mark_orphaned key.1 peer p).0 n s.unclaimed count in
    let found' = mark_orphaned-find_slot key.1 peer p slot found in
    let (_, missing) =
      orphan_slot-IsOpen peer slot (only-discard peer slot.requesters only) requested in
    let taken =
      missing-add_block key.1 block (some peer) q (orphan_slot peer slot) found' missing size in
    let a' = note_orphaned-IsAccounted peer key s a in
    let arrived = with_piece key.0 (add_block key.1 block (some peer) q).1 given_up in
    let (pieces, same) = note_received-SameCount peer key arrived in
    (
      ap (λ c. counted c given_up.pieces) (count' ∙ kept) ∙ a'.exact m (count' ∙ kept),
      q,
      known',
      taken,
      (λ i. counted (same i) (pieces i))
          ∙ missing_block-unclaimed_count given_up key.0 key.1 block (some peer) q
              (orphan_slot peer slot) m a' (count' ∙ kept) known'
              (mark_orphaned-finished key.1 peer p slot found undone) found' (ap is_missing missing)
              taken
          ∙ ap (λ ps. pos (suc (sum_unclaimed ps))) (sym pieces),
    )
