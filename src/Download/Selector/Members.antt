-- ===== src/Download/Selector/Members.antt =====
-- What is selected, whatever the order.
use peer_stream.Prelude.{
  ℕ, ◌≡◌, refl, ◌∙◌, ◌&&◌, Option, none, some, List, length, ltb, ==_iff, Result, ok, arith,
}
use peer_stream.Peer.Bitfield.{Bitfield, holds}
use peer_stream.Peer.Availability.{PieceAvailability}
use peer_stream.Peer.Availability.Rarest.{is_in, candidates_from-eq-ok, rarest-InOrder}
use peer_stream.Download.Selector.{
  PieceStrategy, PieceSelector, in_sequence, by_rarity, ordered, select,
}

-- The indices are those of the wanted pieces.
abbrev pub IsWanted : Bitfield → Result (List ℕ) → Type 0
IsWanted wanted found =
    (is : List ℕ) × (found ≡ ok is)
    × ((i : ℕ) → is_in i is ≡ (ltb i wanted.piece_count && holds wanted i))

-- The availability, if there is any, counts the pieces of the same torrent.
abbrev pub FitsField : Option PieceAvailability → Bitfield → Type 0
FitsField none wanted = Unit
FitsField (some a) wanted = wanted.piece_count ≡ length a.counts

in_sequence-IsWanted :
    (wanted : Bitfield) (selector : PieceSelector)
    → wanted.piece_count ≡ selector.piece_count
    → IsWanted wanted (in_sequence wanted selector)
unfolding in_sequence
in_sequence-IsWanted wanted selector same =
    let (is, found, members) = candidates_from-eq-ok wanted 0 selector.piece_count (omega arith) in
    (is, found, λ i. members i ∙ (rw same (ground arith)))

ordered-IsWanted :
    (strategy : PieceStrategy) (shuffle : List ℕ → List ℕ) (wanted : Bitfield)
    (availability : Option PieceAvailability) (selector : PieceSelector)
    → ((is : List ℕ) (i : ℕ) → is_in i (shuffle is) ≡ is_in i is)
    → FitsField availability wanted
    → wanted.piece_count ≡ selector.piece_count
    → IsWanted wanted (ordered strategy shuffle wanted availability selector)
unfolding by_rarity
ordered-IsWanted PieceStrategy.sequential shuffle wanted availability selector keeps fits same =
    in_sequence-IsWanted wanted selector same
ordered-IsWanted PieceStrategy.random shuffle wanted availability selector keeps fits same =
    let (is, found, members) = in_sequence-IsWanted wanted selector same in
    (shuffle is, rw found refl, λ i. keeps is i ∙ members i)
ordered-IsWanted PieceStrategy.rarest_first shuffle wanted none selector keeps fits same =
    in_sequence-IsWanted wanted selector same
ordered-IsWanted PieceStrategy.rarest_first shuffle wanted (some a) selector keeps fits same =
    let (is, found, in_order, members) = rarest-InOrder wanted a fits in (is, found, members)

-- Where the wanted pieces are a field of the size of the torrent, and so are the counts, if there
-- are any: whatever the strategy, a selection without a limit succeeds and gives exactly the wanted
-- pieces. The shuffle is asked to keep the members of a list.
pub select-IsWanted :
    (shuffle : List ℕ → List ℕ) (wanted : Bitfield) (availability : Option PieceAvailability)
    (selector : PieceSelector)
    → ((is : List ℕ) (i : ℕ) → is_in i (shuffle is) ≡ is_in i is)
    → FitsField availability wanted
    → wanted.piece_count ≡ selector.piece_count
    → IsWanted wanted (select shuffle wanted availability none selector)
unfolding select
select-IsWanted shuffle wanted availability selector keeps fits same =
    let (is, found, members) =
      ordered-IsWanted selector.strategy shuffle wanted availability selector keeps fits same in
    (is, rw ((==_iff wanted.piece_count selector.piece_count).1 same, found) refl, members)
