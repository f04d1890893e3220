-- ===== src/Download/Scheduler/Histories.antt =====
-- The count of the unclaimed blocks over the life of a download.
use peer_stream.Prelude.{
  ℕ, ◌≡◌, refl, ap, String, Bool, true, false, ◌&&◌, Option, some, List, [], Bytes, ok, arith,
}
use peer_stream.Prelude.Int.{pos}
use peer_stream.Prelude.Dicts.{get}
use peer_stream.Peer.Availability.{PieceAvailability}
use peer_stream.Download.Piece.{
  Piece, Slot, find_slot, is_missing, complete, finished, add_block, mark_verifying, mark_verified,
  mark_failed, reset, build_pieces,
}
use peer_stream.Download.Endgame.{BlockKey}
use peer_stream.Download.Pipeline.{PeerView}
use peer_stream.Download.Scheduler.{
  DownloadConfig, Scheduler, same_index, sum_unclaimed, unclaimed_count, make_scheduler, with_piece,
  register, forget, note_piece_reset,
}
use peer_stream.Download.Scheduler.Accounting.{
  IsAccounted, AllSound-get, one_if, IsAccounted-same, remember_unclaimed-IsAccounted,
}
use peer_stream.Download.Scheduler.Accounting.Initial.{make_scheduler-IsAccounted}
use peer_stream.Download.Scheduler.Recall.{
  note_received, cancel_piece, note_orphaned, drop_peer, or_timeout, expire,
}
use peer_stream.Download.Scheduler.Planning.{Readings, Assignment, plan}
use peer_stream.Download.Scheduler.Planning.Requests.{plan-IsDue}
use peer_stream.Download.Scheduler.Accounting.Recalled.{
  note_received-IsAccounted, cancel_slots-IsAccounted, note_orphaned-IsAccounted,
  drop_peer-IsAccounted, expire_slots-IsAccounted,
}
use peer_stream.Download.Scheduler.Accounting.Arrivals.{
  with_piece-IsAccounted, reset_piece-IsAccounted, reset-IsSound, verifying-kept, verified-kept,
  add_block-weight,
}

-- What happens to a scheduler and its pieces. A block arrives for a piece that is not finished; it
-- was asked for, and is not given up.
pub data Step : Scheduler → Scheduler → Type 0 where
  plans :
      {s after : Scheduler} (readings : Readings) (now : ℕ) (peers : List PeerView)
      (availability : Option PieceAvailability) (limit : Option ℕ) (assignments : List Assignment)
      → plan readings now peers availability limit s ≡ ok (assignments, after)
      → Step s after
  registers : {s : Scheduler} (peer : PeerView) → Step s (register peer s)
  forgets : {s : Scheduler} (peer : String) → Step s (forget peer s)
  arrives :
      {s : Scheduler} (index offset : ℕ) (block : Bytes) (source : Option String) (p : Piece)
      (slot : Slot)
      → get same_index index s.pieces ≡ some p
      → finished p ≡ false
      → find_slot offset p.slots ≡ some slot
      → is_missing slot.state ≡ false
      → Step s (with_piece index (add_block offset block source p).1 s)
  receives : {s : Scheduler} (peer : String) (key : BlockKey) → Step s (note_received peer key s).1
  gives_up : {s : Scheduler} (peer : String) (key : BlockKey) → Step s (note_orphaned peer key s).1
  cancels : {s : Scheduler} (index : ℕ) → Step s (cancel_piece index s).1
  drops : {s : Scheduler} (peer : String) → Step s (drop_peer peer s).1
  expires :
      {s : Scheduler} (identity : String → String) (timeout : Option ℕ) (now : ℕ)
      → Step s (expire identity timeout now s).1
  verifies :
      {s : Scheduler} (index : ℕ) (p : Piece)
      → get same_index index s.pieces ≡ some p
      → complete p ≡ true
      → Step s (with_piece index (mark_verifying p) s)
  passes :
      {s : Scheduler} (index : ℕ) (p : Piece)
      → get same_index index s.pieces ≡ some p
      → complete p ≡ true
      → Step s (with_piece index (mark_verified p) s)
  fails :
      {s : Scheduler} (index : ℕ) (p : Piece)
      → get same_index index s.pieces ≡ some p
      → Step s (note_piece_reset index (with_piece index (reset (mark_failed p)) s))

pub data Reach (start : Scheduler) : Scheduler → Type 0 where
  here : Reach start start
  next : {s t : Scheduler} → Reach start s → Step s t → Reach start t

Step-IsAccounted : {s t : Scheduler} → Step s t → IsAccounted s → IsAccounted t
unfolding register forget cancel_piece expire
Step-IsAccounted {s} {t} (plans readings now peers availability limit assignments planned) a =
    (plan-IsDue readings now peers availability limit s assignments t a planned).1
Step-IsAccounted {s} (registers peer) a = IsAccounted-same s (register peer s) refl refl a
Step-IsAccounted {s} (forgets peer) a = IsAccounted-same s (forget peer s) refl refl a
Step-IsAccounted {s} (arrives index offset block source p slot found undone there asked) a =
    let (sound, same) =
      add_block-weight index offset block source p slot there undone
        (AllSound-get index p s.pieces found a.sound) in
    with_piece-IsAccounted index p (add_block offset block source p).1 s found sound
      (omega (arith, same, ap (λ b. one_if (b && (add_block offset block source p).0)) asked)) a
Step-IsAccounted {s} (receives peer key) a = note_received-IsAccounted peer key s a
Step-IsAccounted {s} (gives_up peer key) a = note_orphaned-IsAccounted peer key s a
Step-IsAccounted {s} (cancels index) a = cancel_slots-IsAccounted index s.slots ([], s) a
Step-IsAccounted {s} (drops peer) a = drop_peer-IsAccounted peer s a
Step-IsAccounted {s} (expires identity timeout now) a =
    expire_slots-IsAccounted identity (or_timeout timeout s.config.block_timeout) now s.slots
      ([], s) a
Step-IsAccounted {s} (verifies index p found done) a =
    let (sound, same) = verifying-kept index p done (AllSound-get index p s.pieces found a.sound) in
    with_piece-IsAccounted index p (mark_verifying p) s found sound same a
Step-IsAccounted {s} (passes index p found done) a =
    let (sound, same) = verified-kept index p done (AllSound-get index p s.pieces found a.sound) in
    with_piece-IsAccounted index p (mark_verified p) s found sound same a
Step-IsAccounted {s} (fails index p found) a =
    reset_piece-IsAccounted index p (reset (mark_failed p)) s found
      (reset-IsSound index p (AllSound-get index p s.pieces found a.sound)) a

Reach-IsAccounted : {s t : Scheduler} → Reach s t → IsAccounted s → IsAccounted t
Reach-IsAccounted here a = a
Reach-IsAccounted (next r st) a = Step-IsAccounted st (Reach-IsAccounted r a)

-- From the scheduler of a torrent's pieces on, as `build_pieces` gives them, whatever passes,
-- arrivals of requested blocks, timeouts, cancels, lost peers, checks and failed checks there are:
-- what `unclaimed_blocks` gives is the number of the blocks of unfinished pieces that nobody was
-- asked for.
pub Reach-unclaimed_count :
    (block_size : ℕ) (is_done : ℕ → Bool) (sizes : List ℕ) (hashes : List Bytes)
    (pieces : List Piece) (config : DownloadConfig) (s : Scheduler)
    → build_pieces block_size is_done sizes hashes ≡ ok pieces
    → Reach (make_scheduler pieces config) s
    → unclaimed_count s ≡ pos (sum_unclaimed s.pieces)
Reach-unclaimed_count block_size is_done sizes hashes pieces config s built reach =
    let start = make_scheduler-IsAccounted block_size is_done sizes hashes pieces config built in
    (remember_unclaimed-IsAccounted s (Reach-IsAccounted reach start)).exact (unclaimed_count s)
      refl
