-- ===== src/Examples/Paths.antt =====
-- A path of two names.
use peer_stream.Prelude.{◌≡◌, refl, some, List, [], ◌∷◌, ◌++◌, length, All, ok, Bytes, ◌==◌}
use peer_stream.Torrent.Paths.{
  Unicode, validate_component, decode_components, sanitize_path_components, joined,
}
use peer_stream.Torrent.Paths.Inside.{IsSafe, walk, cut_at_slash, sanitize_path_components-IsSafe}

-- ASCII, with the upper case left out
abbrev ascii : Unicode
ascii = record {
  decode_utf8 = λ raw. some raw;
  utf8_size = λ text. length text;
  upper = λ text. text;
  is_space = λ c. c == b' ';
}

abbrev names : List Bytes
names = (b'a' ∷ []) ∷ (b'b' ∷ b'.' ∷ b'c' ∷ []) ∷ []

names-accepted : sanitize_path_components ascii names ≡ ok names
unfolding sanitize_path_components decode_components validate_component
names-accepted = refl

sanitize_path_components-IsSafe_example :
    (length names ≡ length names)
    × All IsSafe names
    × (walk ((b'd' ∷ []) ∷ []) (cut_at_slash (joined ascii names)) ≡ ((b'd' ∷ []) ∷ []) ++ names)
sanitize_path_components-IsSafe_example =
    sanitize_path_components-IsSafe ascii names names ((b'd' ∷ []) ∷ []) names-accepted
