-- ===== src/Uri/Join.antt =====
-- tsukuyomi/src/uri.rs: `Uri::join`.
use tsukuyomi.Prelude.{
  Option, none, some, [], ◌∷◌, ◌++◌, Bytes, ◌==◌, if◌then◌else◌, Result, ok, ◌>>=◌,
}
use tsukuyomi.Uri.Names.{UriError, CaptureNames, extend}
use tsukuyomi.Uri.Parse.{Uri, root, segments, ends_with_slash}

-- `s.trim_left_matches('/')`
unfoldable pub trim_left_slash : Bytes → Bytes
trim_left_slash [] = []
trim_left_slash (c ∷ s) = let rest = trim_left_slash s in if c == b'/' then rest else c ∷ s

unfoldable pub join_names :
    Option CaptureNames → Option CaptureNames → Result UriError (Option CaptureNames)
unfolding extend
join_names (some names) (some other) = extend names other.params >>= λ names'. ok (some names')
join_names none (some other) = ok (some other)
join_names names none = ok names

unfoldable pub join_text : Bytes → Bytes → Bytes
unfolding trim_left_slash
join_text s t = s ++ (if ends_with_slash s then trim_left_slash t else t)

unfoldable pub join : Uri → Uri → Result UriError Uri
unfolding join_names join_text
join root other = ok other
join (segments s names) root = ok (segments s names)
join (segments s names) (segments t other) =
    join_names names other >>= λ names'. ok (segments (join_text s t) names')
