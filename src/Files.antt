-- ===== src/Files.antt =====
-- tsukuyomi/src/fs.rs: entity tags, `NamedFile`, the stream of a file and `ServeFile`. The file system,
-- the formats of dates and the guess of a type are parameters.
use tsukuyomi.Prelude.{
  ℕ, Bool, true, false, not, ◌&&◌, ◌||◌, ltb, leb, ◌==◌, Option, none, some, List, [], ◌∷◌, ◌++◌,
  Bytes, codes, eq_bytes, length, drop, if◌then◌else◌, Result, ok, err, ◌>>=◌, or_fail,
}
use tsukuyomi.Http.{Http}
use tsukuyomi.Input.Cookies.{bad_request_status}
use tsukuyomi.Extractor.{internal_server_error_status}
use tsukuyomi.Future.{Async, ready, not_ready, Poll}
use tsukuyomi.Cors.Builder.{Duration}
pub mod EtagLaws
pub mod Stream
pub mod ModifiedLaws
mod Tests

-- `ETag`
pub record Etag : Type 0 where
  pub weak : Bool
  pub tag : Bytes

abbrev pub is_quote : ℕ → Bool
is_quote c = c == b'"'

-- `starts_with('"')` and `ends_with('"')`
abbrev pub starts_quoted : Bytes → Bool
starts_quoted [] = false
starts_quoted (c ∷ s) = is_quote c

abbrev pub ends_quoted : Bytes → Bool
ends_quoted [] = false
ends_quoted (c ∷ []) = is_quote c
ends_quoted (c ∷ d ∷ s) = ends_quoted (d ∷ s)

-- All but the last, for `s[1..s.len() - 1]`
abbrev pub init : Bytes → Bytes
init [] = []
init (c ∷ []) = []
init (c ∷ d ∷ s) = c ∷ init (d ∷ s)

abbrev pub is_ascii : Bytes → Bool
is_ascii [] = true
is_ascii (c ∷ s) = ltb c 128 && is_ascii s

-- `ETag::parse_inner`
unfoldable pub parse_inner : Bool → Bytes → Option Etag
parse_inner weak s =
    if ltb (length s) 2
    then none
    else if not (starts_quoted s) || not (ends_quoted s)
    then none
    else if not (is_ascii (init (drop 1 s)))
    then none
    else some (record { weak = weak; tag = init (drop 1 s) })

-- Whether a character ends before the byte: `s.get(0..3)` asks it.
abbrev pub is_boundary : Bytes → Bool
is_boundary [] = true
is_boundary (c ∷ s) = not (leb 128 c && leb c 191)

-- The match on the first three bytes
abbrev pub parse_prefix : Bytes → ℕ → ℕ → ℕ → Option Etag
parse_prefix s a b c =
    if (a == b'W') && ((b == b'/') && is_quote c)
    then parse_inner true (drop 2 s)
    else if is_quote a
    then parse_inner false s
    else none

-- `ETag::from_str`
unfoldable pub from_str : Bytes → Option Etag
unfolding parse_inner
from_str (a ∷ b ∷ c ∷ s) = if is_boundary s then parse_prefix (a ∷ b ∷ c ∷ s) a b c else none
from_str _ = none

-- `fmt::Display for ETag`
unfoldable pub to_string : Etag → Bytes
to_string etag = (if etag.weak then codes "W/" else []) ++ b'"' ∷ (etag.tag ++ b'"' ∷ [])

-- `ETag::eq`
abbrev pub eq_etag : Etag → Etag → Bool
eq_etag self other = eq_bytes self.tag other.tag && (self.weak || not other.weak)

-- `FileTime`, with its order; times before 1970 are left out.
pub record FileTime : Type 0 where
  pub seconds : ℕ
  pub nanoseconds : ℕ

abbrev pub later : FileTime → FileTime → Bool
later t u = ltb u.seconds t.seconds || ((t.seconds == u.seconds) && ltb u.nanoseconds t.nanoseconds)

pub record OpenConfig : Type 0 where
  pub chunk_size : Option ℕ
  pub max_age : Option Duration

-- `NamedFileResponse`, with the length and the size of a block of its `meta`
pub record NamedFileResponse (File : Type 0) : Type 0 where
  pub file : File
  pub len : ℕ
  pub blksize : ℕ
  pub content_type : Bytes
  pub etag : Etag
  pub last_modified : FileTime
  pub config : OpenConfig

-- The names of headers, the dates of HTTP and the text of a number.
pub record Dates (Name : Type 0) : Type 0 where
  pub if_none_match : Name
  pub if_modified_since : Name
  pub content_type_name : Name
  pub cache_control_name : Name
  pub last_modified_name : Name
  pub etag_name : Name
  pub parse_http_date : Bytes → Option FileTime
  pub strftime : FileTime → Option Bytes
  pub decimal : ℕ → Bytes

abbrev pub min_of : ℕ → ℕ → ℕ
min_of a b = if leb a b then a else b

-- `finalize_block_size`
abbrev pub finalize_block_size : Option ℕ → ℕ → ℕ → ℕ
finalize_block_size (some n) len blksize = min_of len n
finalize_block_size none len blksize = min_of len blksize

-- `State` of a `ReadStream`
pub data State (File : Type 0) : Type 0 where
  reading : File → ℕ → State File
  eof : State File

-- `ReadStream::new`
abbrev pub read_stream : {File : Type 0} → File → ℕ → ℕ → Option ℕ → State File
read_stream file len blksize chunk = reading file (finalize_block_size chunk len blksize)

-- `Response<ResponseBody>`: the body is empty or a stream.
pub record FileReply (Headers File : Type 0) : Type 0 where
  pub status : ℕ
  pub headers : Headers
  pub body : Option (State File)

abbrev pub not_modified_status : ℕ
not_modified_status = 304

module _ {Uri Method Name Value Headers File : Type 0} (h : Http Uri Method Name Value Headers)
    (dates : Dates Name) (self : NamedFileResponse File) where
  abbrev pub text_of : Value → Result ℕ Bytes
  text_of v = or_fail bad_request_status (h.to_str v)

  -- `If-None-Match`
  abbrev pub none_match : Value → Result ℕ Bool
  none_match v = text_of v >>= λ s.
      or_fail bad_request_status (from_str s) >>= λ etag. ok (not (eq_etag etag self.etag))

  -- `If-Modified-Since`
  abbrev pub modified_since : Value → Result ℕ Bool
  modified_since v = text_of v >>= λ s.
      or_fail bad_request_status (dates.parse_http_date s) >>= λ since.
      ok (later self.last_modified since)

  abbrev pub since_or_modified : Option Value → Result ℕ Bool
  since_or_modified (some v) = modified_since v
  since_or_modified none = ok true

  abbrev pub match_or_since : Headers → Option Value → Result ℕ Bool
  match_or_since headers (some v) = none_match v
  match_or_since headers none = since_or_modified (h.get_header headers dates.if_modified_since)

  -- `NamedFileResponse::is_modified`
  unfoldable pub is_modified : Headers → Result ℕ Bool
  unfolding from_str
  is_modified headers = match_or_since headers (h.get_header headers dates.if_none_match)

  -- `NamedFileResponse::cache_control`
  abbrev pub cache_control_of : Option Duration → Bytes
  cache_control_of (some max_age) = codes "public, max-age=" ++ dates.decimal max_age.as_secs
  cache_control_of none = codes "public"

  abbrev pub file_headers : Bytes → Headers
  file_headers last_modified =
      h.append_header
        (h.append_header
          (h.append_header
            (h.append_header h.empty dates.content_type_name
              (h.from_shared_unchecked self.content_type))
            dates.cache_control_name
            (h.from_shared_unchecked (cache_control_of self.config.max_age)))
          dates.last_modified_name (h.from_shared_unchecked last_modified))
        dates.etag_name (h.from_shared_unchecked (to_string self.etag))

  abbrev pub reply_modified : Bool → Result ℕ (FileReply Headers File)
  reply_modified false =
      ok (record { status = not_modified_status; headers = h.empty; body = none })
  reply_modified true =
      or_fail internal_server_error_status (dates.strftime self.last_modified) >>= λ last_modified.
      ok (record {
        status = 200;
        headers = file_headers last_modified;
        body = some (read_stream self.file self.len self.blksize self.config.chunk_size);
      })

  -- `NamedFileResponse::into_response`
  unfoldable pub into_response : Headers → Result ℕ (FileReply Headers File)
  unfolding is_modified to_string
  into_response headers = is_modified headers >>= reply_modified

-- `NamedFile` and `ServeFile`; paths are joined by the standard library.
pub record NamedFile (P : Type 0) : Type 0 where
  pub path : P
  pub config : Option OpenConfig

pub record ServeFile (P : Type 0) : Type 0 where
  pub path : P
  pub config : Option OpenConfig
  pub extract_path : Bool

module _ {P : Type 0} (join : P → Bytes → P) where
  abbrev pub serve_path : P → Bool → Option Bytes → Result ℕ P
  serve_path root false catch_all = ok root
  serve_path root true catch_all =
      or_fail internal_server_error_status catch_all >>= λ path. ok (join root path)

  -- `ServeFile::poll_ready`, with the catch-all of the parameters
  unfoldable pub serve : ServeFile P → Option Bytes → Result ℕ (NamedFile P)
  serve self catch_all = serve_path self.path self.extract_path catch_all >>= λ path.
      ok (record { path = path; config = self.config })
