-- ===== src/Uri/Tests.antt =====
-- tsukuyomi/src/uri.rs: cases of its test module, run on the model, and witnesses.
use tsukuyomi.Prelude.{
  ◌≡◌, refl, true, none, some, [], ◌∷◌, Bytes, codes, drop, ok, err, ◌>>=◌, inl,
}
use tsukuyomi.Uri.Names.{
  CaptureNames, empty_segment, invalid_character, duplicated_name, wildcard_already_set,
}
use tsukuyomi.Uri.Parse.{Uri, segments, as_str, capture_names, split_slash, body, parse}
use tsukuyomi.Uri.Join.{join}
use tsukuyomi.Uri.ParseLaws.{as_str-parse}
use tsukuyomi.Uri.NameLaws.{declared, params_of, AreNames, capture_names-parse}
use tsukuyomi.Uri.JoinLaws.{join_assoc}

parse_uri_static_has_trailing_slash :
    parse (codes "/path/to/lib/") ≡ ok (segments (codes "/path/to/lib/") none)
unfolding parse
parse_uri_static_has_trailing_slash = refl

parse_uri_has_wildcard_params :
    parse (codes "/api/v1/:param/*path")
    ≡ ok (
        segments
          (codes "/api/v1/:param/*path")
          (some (record { params = codes "param" ∷ codes "path" ∷ []; has_wildcard = true })))
unfolding parse
parse_uri_has_wildcard_params = refl

parse_uri_failcase_duplicated_slashes : parse (codes "//foo/bar/") ≡ err empty_segment
unfolding parse
parse_uri_failcase_duplicated_slashes = refl

parse_uri_failcase_invalid_wildcard_specifier_pos : parse (codes "/pa:th") ≡ err invalid_character
unfolding parse
parse_uri_failcase_invalid_wildcard_specifier_pos = refl

parse_uri_failcase_duplicated_param_name : parse (codes "/:id/:id") ≡ err duplicated_name
unfolding parse
parse_uri_failcase_duplicated_param_name = refl

parse_uri_failcase_after_wildcard_name : parse (codes "/path/to/*a/id") ≡ err wildcard_already_set
unfolding parse
parse_uri_failcase_after_wildcard_name = refl

join_trailing_slash_before_static_2 :
    join (segments (codes "/path/") none) (segments (codes "/to") none)
    ≡ ok (segments (codes "/path/to") none)
unfolding join
join_trailing_slash_before_static_2 = refl

-- What a run of the parser looks through.
runs : Unit {0}
unfolding parse join declared capture_names
runs = tt

abbrev user_post : Bytes
user_post = codes "/:user/*post"

abbrev user_post_names : CaptureNames
user_post_names = record { params = codes "user" ∷ codes "post" ∷ []; has_wildcard = true }

abbrev user_post_uri : Uri
user_post_uri = segments user_post (some user_post_names)

as_str-parse_example : as_str (segments (codes "/a/") none) ≡ codes "/a/"
unfolding runs
as_str-parse_example = as_str-parse (codes "/a/") (segments (codes "/a/") none) refl

capture_names-parse_example :
    (params_of (capture_names user_post_uri) ≡ declared (split_slash (drop 1 (body user_post))))
    × AreNames (params_of (capture_names user_post_uri))
unfolding runs
capture_names-parse_example = capture_names-parse user_post user_post_uri refl

join_assoc_example :
    (join (segments (codes "/a/") none) (segments (codes "/b/") none) >>= λ u. join u user_post_uri)
    ≡ (join (segments (codes "/b/") none) user_post_uri >>= λ u.
        join (segments (codes "/a/") none) u)
unfolding runs
join_assoc_example =
    join_assoc (codes "/a/") (codes "/b/") user_post (segments (codes "/a/") none)
      (segments (codes "/b/") none) user_post_uri refl refl refl (inl refl)
