-- ===== src/Torrent/Paths.antt =====
-- app/torrent/path_safety.py. A text is the list of its code points. Python's codecs, its upper case
-- and its white space are a parameter, `Unicode`. A path is the list of its parts; `resolve_within`
-- asks the file system and is not modelled.
pub mod Inside
use peer_stream.Prelude.{
  ℕ, zero, suc, Bool, true, false, not, ◌&&◌, ◌||◌, Option, none, some, List, [], ◌∷◌, ◌++◌, length,
  ltb, leb, ◌==◌, if◌then◌else◌, Bytes, bytes_eq, Result, ok, err, ◌>>=◌, ◌>>◌, guard,
  unsafe_path_error,
}

abbrev pub Text : Type 0
Text = List ℕ

-- `bytes.decode("utf-8")`, `len(str.encode("utf-8"))`, `str.upper` and `str.isspace` of a character
pub record Unicode : Type 0 where
  pub decode_utf8 : Bytes → Option Text
  pub utf8_size : Text → ℕ
  pub upper : Text → Text
  pub is_space : ℕ → Bool

abbrev pub max_component_length : ℕ
max_component_length = 255

abbrev pub max_path_length : ℕ
max_path_length = 4096

-- `==` on texts
abbrev pub text_eq : Text → Text → Bool
text_eq = bytes_eq

abbrev pub any_of : (ℕ → Bool) → Text → Bool
any_of test [] = false
any_of test (c ∷ text) = test c || any_of test text

abbrev pub is_forbidden : ℕ → Bool
is_forbidden c = c == b'/' || ((c == 0x5c) || (c == 0))

abbrev pub is_control : ℕ → Bool
is_control c = ltb c 0x20 || (c == 0x7f)

abbrev pub is_letter : ℕ → Bool
is_letter c = (leb b'A' c && leb c b'Z') || (leb b'a' c && leb c b'z')

-- `_DRIVE_PATTERN.match`
abbrev pub is_drive : Text → Bool
is_drive (c ∷ d ∷ text) = is_letter c && (d == b':')
is_drive _ = false

-- `component.split(".")[0]`
abbrev pub before_dot : Text → Text
before_dot [] = []
before_dot (c ∷ text) = let rest = before_dot text in if c == b'.' then [] else c ∷ rest

-- `COM1` to `COM9`, and `LPT1` to `LPT9`
abbrev pub is_port_name : Text → Bool
is_port_name (a ∷ b ∷ c ∷ d ∷ []) =
    (text_eq (a ∷ b ∷ c ∷ []) (b'C' ∷ b'O' ∷ b'M' ∷ [])
      || text_eq (a ∷ b ∷ c ∷ []) (b'L' ∷ b'P' ∷ b'T' ∷ []))
    && (leb b'1' d && leb d b'9')
is_port_name _ = false

abbrev pub is_reserved : Text → Bool
is_reserved name =
    text_eq name (b'C' ∷ b'O' ∷ b'N' ∷ [])
    || (text_eq name (b'P' ∷ b'R' ∷ b'N' ∷ [])
        || (text_eq name (b'A' ∷ b'U' ∷ b'X' ∷ [])
            || (text_eq name (b'N' ∷ b'U' ∷ b'L' ∷ []) || is_port_name name)))

abbrev pub drop_spaces : (ℕ → Bool) → Text → Text
drop_spaces is_space [] = []
drop_spaces is_space (c ∷ text) =
    let rest = drop_spaces is_space text in if is_space c then rest else c ∷ text

abbrev pub reverse : Text → Text
reverse [] = []
reverse (c ∷ text) = reverse text ++ (c ∷ [])

abbrev pub strip : (ℕ → Bool) → Text → Text
strip is_space text = reverse (drop_spaces is_space (reverse (drop_spaces is_space text)))

-- `component.endswith((".", " "))`
abbrev pub ends_badly : Text → Bool
ends_badly [] = false
ends_badly (c ∷ []) = (c == b'.') || (c == b' ')
ends_badly (c ∷ d ∷ text) = ends_badly (d ∷ text)

abbrev pub is_blank : Text → Bool
is_blank [] = true
is_blank (c ∷ text) = false

abbrev pub dot : Text
dot = b'.' ∷ []

abbrev pub dot_dot : Text
dot_dot = b'.' ∷ b'.' ∷ []

module _ (unicode : Unicode) where
  unfoldable pub validate_component : Text → Result (Unit {0})
  validate_component component = do
    guard (not (is_blank component)) unsafe_path_error
    guard (not (text_eq component dot || text_eq component dot_dot)) unsafe_path_error
    guard (not (any_of is_forbidden component)) unsafe_path_error
    guard (not (any_of is_control component)) unsafe_path_error
    guard (not (is_drive component)) unsafe_path_error
    guard (not (is_reserved (unicode.upper (before_dot component)))) unsafe_path_error
    guard (text_eq component (strip unicode.is_space component)) unsafe_path_error
    guard (not (ends_badly component)) unsafe_path_error
    guard (leb (unicode.utf8_size component) max_component_length) unsafe_path_error

  -- UTF-8, or else Latin-1, in which a byte is its code point
  abbrev pub text_of : Bytes → Option Text → Text
  text_of raw none = raw
  text_of raw (some text) = text

  abbrev pub decode_component : Bytes → Result Text
  unfolding validate_component
  decode_component raw = do
    validate_component (text_of raw (unicode.decode_utf8 raw))
    ok (text_of raw (unicode.decode_utf8 raw))

  unfoldable pub decode_components : List Bytes → Result (List Text)
  decode_components [] = ok []
  decode_components (raw ∷ raws) = do
    part ← decode_component raw
    parts ← decode_components raws
    ok (part ∷ parts)

  -- `str(PurePosixPath(*parts))`, for parts that are not empty and have no slash
  abbrev pub joined : List Text → Text
  joined [] = []
  joined (part ∷ []) = part
  joined (part ∷ next ∷ parts) = part ++ (b'/' ∷ joined (next ∷ parts))

  unfoldable pub sanitize_path_components : List Bytes → Result (List Text)
  sanitize_path_components raws = do
    guard (ltb 0 (length raws)) unsafe_path_error
    parts ← decode_components raws
    guard (leb (unicode.utf8_size (joined parts)) max_path_length) unsafe_path_error
    ok parts
