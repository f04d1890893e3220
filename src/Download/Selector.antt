-- ===== src/Download/Selector.antt =====
-- app/download/selector.py: the order in which pieces are requested. The shuffle of the random
-- generator is an argument.
pub mod Members
use peer_stream.Prelude.{
  ℕ, Option, none, some, List, take, ◌==◌, Result, ok, ◌>>=◌, ◌>>◌, guard, value_error,
}
use peer_stream.Peer.Bitfield.{Bitfield}
use peer_stream.Peer.Availability.{PieceAvailability, candidates_from, rarest}

pub data PieceStrategy : Type 0 where
  rarest_first sequential random : PieceStrategy

pub record PieceSelector : Type 0 where
  pub piece_count : ℕ
  pub strategy : PieceStrategy

unfoldable pub in_sequence : Bitfield → PieceSelector → Result (List ℕ)
in_sequence wanted selector = candidates_from wanted 0 selector.piece_count

unfoldable pub by_rarity : Bitfield → Option PieceAvailability → PieceSelector → Result (List ℕ)
unfolding in_sequence
by_rarity wanted none selector = in_sequence wanted selector
by_rarity wanted (some availability) selector = rarest wanted none availability

abbrev pub ordered :
    PieceStrategy
    → (List ℕ → List ℕ)
    → Bitfield
    → Option PieceAvailability
    → PieceSelector
    → Result (List ℕ)
ordered sequential shuffle wanted availability selector = in_sequence wanted selector
ordered random shuffle wanted availability selector =
    in_sequence wanted selector >>= λ indices. ok (shuffle indices)
ordered rarest_first shuffle wanted availability selector = by_rarity wanted availability selector

abbrev pub up_to : Option ℕ → List ℕ → List ℕ
up_to none indices = indices
up_to (some limit) indices = take limit indices

unfoldable pub select :
    (List ℕ → List ℕ)
    → Bitfield
    → Option PieceAvailability
    → Option ℕ
    → PieceSelector
    → Result (List ℕ)
unfolding in_sequence by_rarity
select shuffle wanted availability limit selector = do
  guard (wanted.piece_count == selector.piece_count) value_error
  indices ← ordered selector.strategy shuffle wanted availability selector
  ok (up_to limit indices)
