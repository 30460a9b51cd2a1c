-- ===== src/Files/Tests.antt =====
-- tsukuyomi/src/fs.rs: requests for a file, and witnesses.
use tsukuyomi.Prelude.{
  ℕ, ◌≡◌, refl, true, false, none, some, [], ◌∷◌, ◌++◌, Bytes, codes, inl, take, drop, ok,
  take-append-drop,
}
use tsukuyomi.Future.{ready, Poll}
use tsukuyomi.Http.Sample.{Entries, get_entry, sample}
use tsukuyomi.Files.{
  Etag, from_str, to_string, Dates, NamedFileResponse, reading, serve, into_response, is_modified,
}
use tsukuyomi.Files.EtagLaws.{from_str-to_string}
use tsukuyomi.Files.ModifiedLaws.{into_response-etag}
use tsukuyomi.Files.Stream.{collect_chunks, collect_chunks-whole}

abbrev tag : Etag
tag = record { weak = true; tag = codes "1f-5d.0" }

from_str-to_string_example : from_str (to_string tag) ≡ some tag
from_str-to_string_example = from_str-to_string tag refl (inl refl)

-- A strong empty tag prints as two quotes, which are refused.
empty_tag : from_str (to_string (record { weak = false; tag = [] })) ≡ none
unfolding from_str to_string
empty_tag = refl

-- "*", which matches any tag, is refused.
any_tag : from_str (codes "*") ≡ none
unfolding from_str
any_tag = refl

abbrev dates : Dates ℕ
dates = record {
  if_none_match = 30;
  if_modified_since = 31;
  content_type_name = 32;
  cache_control_name = 33;
  last_modified_name = 34;
  etag_name = 35;
  parse_http_date = λ s. some (record { seconds = 93; nanoseconds = 0 });
  strftime = λ t. some (codes "date");
  decimal = λ n. codes "n";
}

-- Modified at second 93, and half a second more.
abbrev page : NamedFileResponse Bytes
page = record {
  file = codes "hello";
  len = 5;
  blksize = 2;
  content_type = codes "text/plain";
  etag = tag;
  last_modified = record { seconds = 93; nanoseconds = 500000000 };
  config = record { chunk_size = none; max_age = none };
}

abbrev sends_tag : Entries
sends_tag = (30, codes "W/\"1f-5d.0\"") ∷ []

into_response-etag_example :
    into_response sample dates page sends_tag
    ≡ ok (record { status = 304; headers = []; body = none })
unfolding get_entry to_string
into_response-etag_example =
    into_response-etag sample dates page sends_tag (codes "W/\"1f-5d.0\"") refl refl refl (inl refl)

-- The same tag without its mark of weakness counts as modified.
strong_tag : is_modified sample dates page ((30, codes "\"1f-5d.0\"") ∷ []) ≡ ok true
unfolding get_entry is_modified
strong_tag = refl

-- The date of the last modification, which has whole seconds, counts as modified.
same_date : is_modified sample dates page ((31, codes "date") ∷ []) ≡ ok true
unfolding get_entry is_modified
same_date = refl

-- A file is what is left of its text.
abbrev read_text : Bytes → ℕ → Bytes × Poll ℕ Bytes
read_text s n = (drop n s, ok (ready (take n s)))

empty_take : (s : Bytes) → take 2 s ≡ [] → s ≡ []
empty_take [] e = refl
empty_take (c ∷ s) e = cc

collect_chunks-whole_example :
    let (got, s) = collect_chunks read_text 2 [] (reading (codes "hello") 2) in
    got ++ drop 4 (codes "hello") ≡ codes "hello"
unfolding collect_chunks
collect_chunks-whole_example =
    collect_chunks-whole read_text (λ s. s) 2 (λ s. (take-append-drop 2 s, empty_take s)) 2 []
      (codes "hello") (reading (codes "hello") 2) refl refl

-- The tail of a path is joined to the directory as it is.
joins_parent :
    serve
      (λ root path. root ++ path)
      (record { path = codes "dir/"; config = none; extract_path = true })
      (some (codes "../secret"))
    ≡ ok (record { path = codes "dir/../secret"; config = none })
unfolding serve
joins_parent = refl
