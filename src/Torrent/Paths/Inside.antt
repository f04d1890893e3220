-- ===== src/Torrent/Paths/Inside.antt =====
-- A path that is accepted stays below the directory that it is joined to.
use peer_stream.Prelude.{
  ℕ, suc, ◌<◌, ◌≡◌, refl, sym, ap, subst, ◌∙◌, Bool, true, false, not, ◌||◌, List, [], ◌∷◌, ◌++◌,
  append_assoc, append-nil, length, All, ltb, leb, ltb→lt, ◌==◌, if◌then◌else◌, arith, Bytes, ok,
  >>=-eq-ok, guard-eq-ok, guard, unsafe_path_error,
}
use peer_stream.Torrent.Paths.{
  Text, Unicode, text_eq, any_of, is_forbidden, is_control, is_drive, is_blank, is_reserved,
  before_dot, strip, ends_badly, dot, dot_dot, max_component_length, max_path_length,
  validate_component, text_of, decode_component, decode_components, joined,
  sanitize_path_components,
}

-- What an accepted name is not.
pub record IsSafe (component : Text) : Type 0 where
  pub some_text : is_blank component ≡ false
  pub not_dot : text_eq component dot ≡ false
  pub not_dot_dot : text_eq component dot_dot ≡ false
  pub no_separator : any_of is_forbidden component ≡ false
  pub no_control : any_of is_control component ≡ false
  pub no_drive : is_drive component ≡ false
  pub good_end : ends_badly component ≡ false

-- How a file system goes from a directory along a path: it cuts the path at the slashes, stays where a
-- part is empty or a dot, and goes up where it is two dots.
abbrev pub onto_first : ℕ → List Text → List Text
onto_first c [] = (c ∷ []) ∷ []
onto_first c (part ∷ parts) = (c ∷ part) ∷ parts

unfoldable pub cut_at_slash : Text → List Text
cut_at_slash [] = [] ∷ []
cut_at_slash (c ∷ text) =
    let rest = cut_at_slash text in if c == b'/' then [] ∷ rest else onto_first c rest

abbrev pub up : List Text → List Text
up [] = []
up (d ∷ []) = []
up (d ∷ e ∷ dir) = d ∷ up (e ∷ dir)

abbrev pub enter : List Text → Text → List Text
enter dir part =
    if is_blank part || text_eq part dot
    then dir
    else if text_eq part dot_dot
    then up dir
    else dir ++ (part ∷ [])

abbrev pub walk : List Text → List Text → List Text
walk dir [] = dir
walk dir (part ∷ parts) = walk (enter dir part) parts

walk-safe : (dir parts : List Text) → All IsSafe parts → walk dir parts ≡ dir ++ parts
walk-safe dir [] safe = sym (append-nil dir)
walk-safe dir (part ∷ parts) (h, safe) =
    ap (λ d. walk d parts) (step h)
    ∙ walk-safe (dir ++ (part ∷ [])) parts safe
    ∙ append_assoc dir (part ∷ []) parts
  where
    step : IsSafe part → enter dir part ≡ dir ++ (part ∷ [])
    step h = rw (h.some_text, h.not_dot, h.not_dot_dot) refl

cut_at_slash-plain :
    (part : Text) → any_of is_forbidden part ≡ false → cut_at_slash part ≡ part ∷ []
unfolding cut_at_slash
cut_at_slash-plain [] plain = refl
cut_at_slash-plain (c ∷ part) plain =
    let here : (c == b'/') ≡ false = ground arith in
    let rest : any_of is_forbidden part ≡ false = ground arith in
    rw (here, cut_at_slash-plain part rest) refl

cut_at_slash-append :
    (part text : Text)
    → any_of is_forbidden part ≡ false
    → cut_at_slash (part ++ (b'/' ∷ text)) ≡ part ∷ cut_at_slash text
unfolding cut_at_slash
cut_at_slash-append [] text plain = refl
cut_at_slash-append (c ∷ part) text plain =
    let here : (c == b'/') ≡ false = ground arith in
    let rest : any_of is_forbidden part ≡ false = ground arith in
    rw (here, cut_at_slash-append part text rest) refl

module _ (unicode : Unicode) where
  cut_at_slash-joined :
      (part : Text) (parts : List Text)
      → All IsSafe (part ∷ parts)
      → cut_at_slash (joined unicode (part ∷ parts)) ≡ part ∷ parts
  cut_at_slash-joined part [] (h, safe) = cut_at_slash-plain part h.no_separator
  cut_at_slash-joined part (next ∷ parts) (h, safe) =
      cut_at_slash-append part (joined unicode (next ∷ parts)) h.no_separator
      ∙ ap (λ x. part ∷ x) (cut_at_slash-joined next parts safe)

  not-true : (b : Bool) → not b ≡ true → b ≡ false
  not-true true h = sym h
  not-true false h = refl

  neither_left : (a b : Bool) → not (a || b) ≡ true → a ≡ false
  neither_left true b h = sym h
  neither_left false b h = refl

  neither_right : (a b : Bool) → not (a || b) ≡ true → b ≡ false
  neither_right true b h = cc
  neither_right false b h = not-true b h

  validate_component-IsSafe :
      (component : Text) → validate_component unicode component ≡ ok tt → IsSafe component
  unfolding validate_component
  validate_component-IsSafe component valid =
      let (some_text, v₁) = guard-eq-ok (not (is_blank component)) unsafe_path_error _ valid in
      let (no_dots, v₂) =
        guard-eq-ok (not (text_eq component dot || text_eq component dot_dot)) unsafe_path_error _
          v₁ in
      let (no_separator, v₃) =
        guard-eq-ok (not (any_of is_forbidden component)) unsafe_path_error _ v₂ in
      let (no_control, v₄) =
        guard-eq-ok (not (any_of is_control component)) unsafe_path_error _ v₃ in
      let (no_drive, v₅) = guard-eq-ok (not (is_drive component)) unsafe_path_error _ v₄ in
      let (not_reserved, v₆) =
        guard-eq-ok (not (is_reserved (unicode.upper (before_dot component)))) unsafe_path_error _
          v₅ in
      let (stripped, v₇) =
        guard-eq-ok (text_eq component (strip unicode.is_space component)) unsafe_path_error _ v₆ in
      let (good_end, v₈) =
        guard-eq-ok (not (ends_badly component)) unsafe_path_error
          (guard (leb (unicode.utf8_size component) max_component_length) unsafe_path_error) v₇ in
      record {
        some_text = not-true _ some_text;
        not_dot = neither_left (text_eq component dot) (text_eq component dot_dot) no_dots;
        not_dot_dot = neither_right (text_eq component dot) (text_eq component dot_dot) no_dots;
        no_separator = not-true _ no_separator;
        no_control = not-true _ no_control;
        no_drive = not-true _ no_drive;
        good_end = not-true _ good_end;
      }

  decode_components-IsSafe :
      (raws : List Bytes) (parts : List Text)
      → decode_components unicode raws ≡ ok parts
      → (length parts ≡ length raws) × All IsSafe parts
  unfolding decode_components validate_component
  decode_components-IsSafe [] parts done =
      (let e : [] ≡ parts = cc in subst (λ x. (length x ≡ 0) × All IsSafe x) e (refl, tt))
  decode_components-IsSafe (raw ∷ raws) parts done =
      let text = text_of unicode raw (unicode.decode_utf8 raw) in
      let (part, decoded, next) = >>=-eq-ok (decode_component unicode raw) _ done in
      let (parts₁, rest, last) = >>=-eq-ok (decode_components unicode raws) _ next in
      let (unit, valid, same) = >>=-eq-ok (validate_component unicode text) _ decoded in
      let (size, safe) = decode_components-IsSafe raws parts₁ rest in
      let e : text ≡ part = cc in
      let e₁ : part ∷ parts₁ ≡ parts = cc in
      subst (λ x. (length x ≡ suc (length raws)) × All IsSafe x) e₁
        (ap suc size, (subst IsSafe e (validate_component-IsSafe text valid), safe))

  -- When the components of a path are accepted, there is a part for each, no part is empty, a dot, two
  -- dots or a drive, or has a separator, NUL or control character, and the joined path leads from any
  -- directory to the place below it that the parts name. This holds for any codec and upper case.
  pub sanitize_path_components-IsSafe :
      (raws : List Bytes) (parts dir : List Text)
      → sanitize_path_components unicode raws ≡ ok parts
      → (length parts ≡ length raws)
        × All IsSafe parts
        × (walk dir (cut_at_slash (joined unicode parts)) ≡ dir ++ parts)
  unfolding sanitize_path_components
  sanitize_path_components-IsSafe raws parts dir done =
      let (some_parts, next) = guard-eq-ok (ltb 0 (length raws)) unsafe_path_error _ done in
      let (parts₁, decoded, checked) = >>=-eq-ok (decode_components unicode raws) _ next in
      let (short, last) =
        guard-eq-ok (leb (unicode.utf8_size (joined unicode parts₁)) max_path_length)
          unsafe_path_error (ok parts₁) checked in
      let e : parts₁ ≡ parts = cc in
      let (size, safe) = decode_components-IsSafe raws parts (decoded ∙ ap ok e) in
      (size, safe, inside parts (omega (arith, size, ltb→lt _ _ some_parts)) safe)
    where
      inside :
          (parts : List Text)
          → 0 < length parts
          → All IsSafe parts
          → walk dir (cut_at_slash (joined unicode parts)) ≡ dir ++ parts
      inside [] some_parts safe = absurd (omega arith)
      inside (part ∷ parts) some_parts safe =
          ap (walk dir) (cut_at_slash-joined part parts safe) ∙ walk-safe dir (part ∷ parts) safe
