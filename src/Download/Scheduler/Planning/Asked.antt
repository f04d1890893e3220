-- ===== src/Download/Scheduler/Planning/Asked.antt =====
-- What may be asked of whom in a pass.
use peer_stream.Prelude.{
  ℕ, ◌<◌, ◌≡◌, ◌≢◌, refl, sym, ap, ◌∙◌, Bool, not, ◌&&◌, Option-cases, arith, inl, inr, true, false,
  Option, some, ok,
}
use peer_stream.Prelude.Sorting.{In}
use peer_stream.Prelude.Dicts.{get}
use peer_stream.Prelude.Sets.{contains}
use peer_stream.Peer.Bitfield
use peer_stream.Peer.Bitfield.{Bitfield, holds as holds_bit}
use peer_stream.Peer.Messages.{request}
use peer_stream.Download.Block.{Block, BlockState}
use peer_stream.Download.Piece.{Piece, PieceState, Slot, is_received, is_verified, finished}
use peer_stream.Download.Pipeline.{PeerView}
use peer_stream.Download.Scheduler.{Scheduler, same_index}
use peer_stream.Download.Scheduler.Planning.{Assignment, usable, may_hold}
use peer_stream.Download.Scheduler.Planning.Offers.{IsOffer}

-- A peer that may be asked.
pub record IsReady (peer : PeerView) : Type 0 where
  pub field : Bitfield
  pub is_connected : peer.connected ≡ true
  pub unchoked : peer.choked ≡ false
  pub told : peer.bitfield ≡ some field

usable-IsReady : (peer : PeerView) → usable peer ≡ true → IsReady peer
unfolding usable
usable-IsReady peer h = elim (Option-cases peer.bitfield) [
  | inl silent ↦ absurd (refused peer.connected peer.choked (rw silent at h))
  | inr (field, told) ↦ record {
    field = field;
    is_connected = ground (arith, h);
    unchoked = ground (arith, h);
    told = told;
  }
]
  where
    refused : (connected choked : Bool) → (connected && (not choked && false)) ≡ true → ⊥
    refused false choked h = cc
    refused true false h = cc
    refused true true h = cc

-- A peer that is told to hold a piece has it in its field.
may_hold-holds :
    (told : Option Bitfield) (field : Bitfield) (index : ℕ)
    → told ≡ some field
    → may_hold told index ≡ ok true
    → (index < field.piece_count) × (holds_bit field index ≡ true)
unfolding Bitfield.has Bitfield.check
may_hold-holds told field index known h =
    let has : Bitfield.has field index ≡ ok true = ap (λ o. may_hold o index) (sym known) ∙ h in
    (ground (arith, has), ground (arith, has))

-- What may be asked of whom: the peer is connected, does not choke us and has sent a field, in which
-- the piece of the block is set; the piece is one of the scheduler's and not verified, and the
-- block is one of its blocks, which has not arrived and for which the peer stands not among those
-- asked.
pub record IsDue (s : Scheduler) (a : Assignment) : Type 0 where
  pub ready : IsReady a.peer
  pub block : Block
  pub asks : a.message ≡ request block.index block.offset block.size
  pub in_range : block.index < ready.field.piece_count
  pub held : holds_bit ready.field block.index ≡ true
  pub piece : Piece
  pub known : get same_index block.index s.pieces ≡ some piece
  pub unverified : piece.state ≢ PieceState.verified
  pub slot : Slot
  pub inside : In slot piece.slots
  pub itself : slot.block ≡ block
  pub unreceived : slot.state ≢ BlockState.received
  pub unasked : contains a.peer.key slot.requesters ≡ false

finished-verified : (p : Piece) → finished p ≡ false → p.state ≢ PieceState.verified
unfolding finished
finished-verified p undone e = cc (ap is_verified (sym e) ∙ undone)

pub IsOffer-IsDue :
    (s : Scheduler) (peer : PeerView) (block : Block)
    → usable peer ≡ true
    → IsOffer s peer block
    → IsDue s (record { peer = peer; message = request block.index block.offset block.size })
IsOffer-IsDue s peer block use' offer =
    let ready = usable-IsReady peer use' in
    let (range, bit) = may_hold-holds peer.bitfield ready.field block.index ready.told offer.held in
    record {
      ready = ready;
      block = block;
      asks = refl;
      in_range = range;
      held = bit;
      piece = offer.piece;
      known = offer.known;
      unverified = finished-verified offer.piece offer.undone;
      slot = offer.slot;
      inside = offer.inside;
      itself = offer.itself;
      unreceived = λ e. cc (ap is_received (sym e) ∙ offer.unreceived);
      unasked = offer.unasked;
    }
