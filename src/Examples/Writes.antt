-- ===== src/Examples/Writes.antt =====
-- The plan of a write at a concrete input.
use peer_stream.Prelude.{◌≡◌, refl, List, [], ◌∷◌, arith, ok}
use peer_stream.Storage.{FileLayout, Chunk, plan}
use peer_stream.Storage.Chunks.{joined, plan-joined}

-- Three files of two, no and four bytes.
abbrev three_files : FileLayout
three_files = record {
  files =
      record { path = "a"; size = 2; offset = 0 }
      ∷ record { path = "empty"; size = 0; offset = 2 }
      ∷ record { path = "b"; size = 4; offset = 2 }
      ∷ [];
  total_length = 6;
}

plan-joined_example :
    (chunks : List Chunk) × (plan 1 (7 ∷ 8 ∷ 9 ∷ []) three_files ≡ ok chunks)
    × (joined chunks ≡ 7 ∷ 8 ∷ 9 ∷ [])
plan-joined_example =
    plan-joined three_files 1 (7 ∷ 8 ∷ 9 ∷ []) (refl, (refl, (refl, refl))) (omega arith)
