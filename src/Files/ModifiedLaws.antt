-- ===== src/Files/ModifiedLaws.antt =====
-- tsukuyomi/src/fs.rs: a client that sends the entity tag of a file back is not sent the file.
use tsukuyomi.Prelude.{
  ◌<◌, ◌≡◌, refl, ap, ◌∙◌, Bool, true, false, not, ◌||◌, none, some, Bytes, eq_bytes_refl, length,
  ◌⊎◌, ok, ◌>>=◌, or_fail,
}
use tsukuyomi.Http.{Http}
use tsukuyomi.Input.Cookies.{bad_request_status}
use tsukuyomi.Files.{
  Etag, is_ascii, from_str, to_string, eq_etag, Dates, NamedFileResponse, not_modified_status,
  reply_modified, match_or_since, is_modified, into_response,
}
use tsukuyomi.Files.EtagLaws.{from_str-to_string}

excluded : (b : Bool) → (b || not b) ≡ true
excluded true = refl
excluded false = refl

eq_etag_refl : (e : Etag) → eq_etag e e ≡ true
eq_etag_refl e = rw (eq_bytes_refl e.tag) (excluded e.weak)

module _ {Uri Method Name Value Headers File : Type 0} (h : Http Uri Method Name Value Headers)
    (dates : Dates Name) (self : NamedFileResponse File) where
  is_modified-match :
      (headers : Headers) (v : Value) (s : Bytes) (etag : Etag)
      → h.get_header headers dates.if_none_match ≡ some v
      → h.to_str v ≡ some s
      → from_str s ≡ some etag
      → is_modified h dates self headers ≡ ok (not (eq_etag etag self.etag))
  unfolding is_modified
  is_modified-match headers v s etag has text parses =
      ap (match_or_since h dates self headers) has
      ∙ ap
          (λ o. or_fail bad_request_status o >>= λ t.
            or_fail bad_request_status (from_str t) >>= λ e. ok (not (eq_etag e self.etag)))
          text
      ∙ ap (λ o. or_fail bad_request_status o >>= λ e. ok (not (eq_etag e self.etag))) parses

  -- Where the first `If-None-Match` of a request is the text of the entity tag of the file, of ASCII
  -- characters, and weak or not empty, the answer is 304, without a body, whatever the dates are.
  pub into_response-etag :
      (headers : Headers) (v : Value)
      → h.get_header headers dates.if_none_match ≡ some v
      → h.to_str v ≡ some (to_string self.etag)
      → is_ascii self.etag.tag ≡ true
      → (self.etag.weak ≡ true) ⊎ (0 < length self.etag.tag)
      → into_response h dates self headers
        ≡ ok (record { status = not_modified_status; headers = h.empty; body = none })
  unfolding into_response
  into_response-etag headers v has text ascii printable =
      ap (λ r. r >>= reply_modified h dates self)
        (is_modified-match headers v (to_string self.etag) self.etag has text
            (from_str-to_string self.etag ascii printable)
          ∙ ap (λ b. ok (not b)) (eq_etag_refl self.etag))
