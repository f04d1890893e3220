-- ===== src/Examples/Rarity.antt =====
-- Three pieces, of which a peer holds the first and the last.
use peer_stream.Prelude.{ℕ, ◌≡◌, refl, ◌&&◌, none, List, [], ◌∷◌, get_elem?, ltb, ok}
use peer_stream.Prelude.Int.{pos}
use peer_stream.Peer.Bitfield.{Bitfield, holds}
use peer_stream.Peer.Availability.{PieceAvailability, increase, add_field, remove_field, rarest}
use peer_stream.Peer.Availability.Counts.{changed, remove_field-add_field}
use peer_stream.Peer.Availability.Rarest.{InOrder, is_in, rarest-InOrder}

abbrev two_held : Bitfield
two_held = record { piece_count = 3; bits = 0xA0 ∷ [] }

abbrev some_counts : PieceAvailability
some_counts = record { counts = pos 2 ∷ pos 0 ∷ pos 1 ∷ [] }

remove_field-add_field_example :
    (b : PieceAvailability) × (add_field two_held some_counts ≡ ok b)
    × ((index : ℕ)
        → get_elem? b.counts index
          ≡ changed (holds two_held index) increase (get_elem? some_counts.counts index))
    × (remove_field two_held b ≡ ok some_counts)
remove_field-add_field_example = remove_field-add_field two_held some_counts refl

rarest-InOrder_example :
    (is : List ℕ) × (rarest two_held none some_counts ≡ ok is)
    × InOrder some_counts.counts is
    × ((index : ℕ) → is_in index is ≡ (ltb index 3 && holds two_held index))
rarest-InOrder_example = rarest-InOrder two_held some_counts refl
