-- ===== src/Uri/Parse.antt =====
-- tsukuyomi/src/uri.rs: `Uri` and `Uri::parse`.
use tsukuyomi.Prelude.{
  ℕ, ◌-◌, Bool, false, Option, none, some, List, [], ◌∷◌, ◌++◌, Bytes, ◌==◌, ltb, any, all, codes,
  eq_bytes, starts_with, length, take, drop, if◌then◌else◌, Result, ok, err, ◌>>=◌,
}
use tsukuyomi.Uri.Names.{
  UriError, not_ascii, no_leading_slash, wildcard_already_set, empty_segment, invalid_character,
  CaptureNames, default, is_kind, push,
}

pub data Uri : Type 0 where
  root : Uri
  segments : Bytes → Option CaptureNames → Uri

abbrev pub slash : Bytes
slash = codes "/"

unfoldable pub as_str : Uri → Bytes
as_str root = slash
as_str (segments s names) = s

unfoldable pub capture_names : Uri → Option CaptureNames
capture_names root = none
capture_names (segments s names) = names

-- `s.ends_with('/')`
abbrev pub ends_with_slash : Bytes → Bool
ends_with_slash [] = false
ends_with_slash (c ∷ []) = c == b'/'
ends_with_slash (c ∷ d ∷ s) = ends_with_slash (d ∷ s)

abbrev pub push_head : ℕ → List Bytes → List Bytes
push_head c [] = (c ∷ []) ∷ []
push_head c (x ∷ xs) = (c ∷ x) ∷ xs

-- `s.split('/')`
unfoldable pub split_slash : Bytes → List Bytes
split_slash [] = [] ∷ []
split_slash (c ∷ s) = if c == b'/' then [] ∷ split_slash s else push_head c (split_slash s)

abbrev pub wildcard_set : Option CaptureNames → Bool
wildcard_set none = false
wildcard_set (some names) = names.has_wildcard

abbrev pub get_names : Option CaptureNames → CaptureNames
get_names none = default
get_names (some names) = names

-- The body of the loop over the segments.
unfoldable pub parse_segment : Option CaptureNames → Bytes → Result UriError (Option CaptureNames)
unfolding push
parse_segment names segment =
    if wildcard_set names then err wildcard_already_set else elim segment [
      | [] ↦ err empty_segment
      | c ∷ s ↦
          if any is_kind s
          then err invalid_character
          else if is_kind c
          then (push (get_names names) (c ∷ s) >>= λ names'. ok (some names'))
          else ok names
    ]

unfoldable pub parse_segments :
    Option CaptureNames → List Bytes → Result UriError (Option CaptureNames)
unfolding parse_segment
parse_segments names [] = ok names
parse_segments names (s ∷ ss) = parse_segment names s >>= λ names'. parse_segments names' ss

-- The string that is split, without a trailing slash.
abbrev pub body : Bytes → Bytes
body s = if ends_with_slash s then take (length s - 1) s else s

unfoldable pub parse : Bytes → Result UriError Uri
unfolding parse_segments split_slash
parse s =
    if all (λ c. ltb c 128) s
    then (if starts_with s slash
        then (if eq_bytes s slash
            then ok root
            else (parse_segments none (split_slash (drop 1 (body s))) >>= λ names.
                ok (segments (if ends_with_slash s then body s ++ slash else body s) names)))
        else err no_leading_slash)
    else err not_ascii
