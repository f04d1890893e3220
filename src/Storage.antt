-- ===== src/Storage.antt =====
-- app/storage/files.py: a torrent is one byte stream, and its files are windows onto it. A path is a
-- text here. The checks of paths, which resolve them on the file system, and the input and output
-- are not modelled.
pub mod Chunks
use peer_stream.Prelude.{
  ℕ, ◌+◌, ◌-◌, min, max, String, Bool, not, ◌||◌, Option, none, some, List, [], ◌∷◌, length, take,
  drop, ltb, leb, ◌==◌, if◌then◌else◌, Bytes, Result, ok, err, ◌>>=◌, ◌>>◌, guard,
  storage_path_error,
}

pub record MappedFile : Type 0 where
  pub path : String
  pub size : ℕ
  pub offset : ℕ

abbrev pub end_offset : MappedFile → ℕ
end_offset f = f.offset + f.size

abbrev pub clip : ℕ → ℕ → MappedFile → Option (ℕ × ℕ)
clip first last f =
    if f.size == 0 || (leb last f.offset || leb (end_offset f) first)
    then none
    else some (max first f.offset - f.offset, min last (end_offset f) - f.offset)

pub record FileLayout : Type 0 where
  pub files : List MappedFile
  pub total_length : ℕ

unfoldable pub file_count : FileLayout → ℕ
file_count layout = length layout.files

abbrev pub validate_range : ℕ → ℕ → FileLayout → Result (Unit {0})
validate_range first size layout = guard (leb (first + size) layout.total_length) storage_path_error

pub record Span : Type 0 where
  pub file : MappedFile
  pub local_start : ℕ
  pub local_end : ℕ

-- `yield`, before what the rest of the loop yields
abbrev pub with_span : MappedFile → Option (ℕ × ℕ) → List Span → List Span
with_span f none rest = rest
with_span f (some (local_start, local_end)) rest =
    if ltb local_start local_end
    then record { file = f; local_start = local_start; local_end = local_end } ∷ rest
    else rest

abbrev pub spans_of : ℕ → ℕ → List MappedFile → List Span
spans_of first last [] = []
spans_of first last (f ∷ files) = with_span f (clip first last f) (spans_of first last files)

unfoldable pub spans : ℕ → ℕ → FileLayout → Result (List Span)
spans first size layout = do
  validate_range first size layout
  ok (if size == 0 then [] else spans_of first (first + size) layout.files)

pub record Chunk : Type 0 where
  pub file : MappedFile
  pub local_offset : ℕ
  pub bytes : Bytes

-- The loop of `plan`: the chunks, and how much of the view is consumed.
abbrev pub cut : List Span → ℕ → Bytes → List Chunk × ℕ
cut [] consumed view = ([], consumed)
cut (s ∷ spans) consumed view =
    let size = s.local_end - s.local_start in
    let rest = cut spans (consumed + size) view in
    (
      record { file = s.file; local_offset = s.local_start; bytes = take size (drop consumed view) }
          ∷ rest.0,
      rest.1,
    )

unfoldable pub plan : ℕ → Bytes → FileLayout → Result (List Chunk)
unfolding spans
plan offset view layout = do
  found ← spans offset (length view) layout
  guard ((cut found 0 view).1 == length view) storage_path_error
  ok (cut found 0 view).0
