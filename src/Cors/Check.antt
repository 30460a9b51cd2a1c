-- ===== src/Cors/Check.antt =====
-- tsukuyomi-cors/src/lib.rs: the methods of `Inner`, which check a request and write the headers
-- of the response.
use tsukuyomi.Prelude.{
  Bool, Option, none, some, List, [], ◌∷◌, ◌++◌, Bytes, set_contains, set_insert, all,
  if◌then◌else◌, Result, ok, err, ◌>>=◌, or_fail, trim, split_comma, codes, ℕ,
}
use tsukuyomi.Http.{Http}
use tsukuyomi.Input.{Request, Input, Response}
use tsukuyomi.Cors.Builder.{Inner}

pub data CorsErrorKind : Type 0 where
  invalid_origin disallowed_origin : CorsErrorKind
  invalid_request_method disallowed_request_method : CorsErrorKind
  invalid_request_headers disallowed_request_headers : CorsErrorKind

pub data AllowedOrigin (Value : Type 0) : Type 0 where
  exact : Value → AllowedOrigin Value
  any_origin : AllowedOrigin Value

module _ {Uri Method Name Value Headers : Type 0} (h : Http Uri Method Name Value Headers) where
  -- `Into<HeaderValue> for AllowedOrigin`
  unfoldable pub into_value : AllowedOrigin Value → Value
  into_value (exact v) = v
  into_value any_origin = h.any_value

  -- `parsed_origin`
  unfoldable pub parse_origin : Value → Result CorsErrorKind Uri
  parse_origin origin = or_fail invalid_origin (h.to_str origin) >>= λ s.
      (or_fail invalid_origin (h.parse_uri s) >>= λ uri.
      (if h.has_scheme uri
        then (if h.has_host uri then ok uri else err invalid_origin)
        else err invalid_origin))

  -- The loop that collects the names of the request.
  unfoldable pub parse_names : List Name → List Bytes → Result CorsErrorKind (List Name)
  parse_names names [] = ok names
  parse_names names (s ∷ ss) = or_fail invalid_request_headers (h.parse_name (trim s)) >>= λ n.
      parse_names (set_insert h.eq_name names n) ss

  -- `HashSet::is_superset`
  abbrev pub is_superset : List Name → List Name → Bool
  is_superset names others = all (set_contains h.eq_name names) others

  module _ (cors : Inner Uri Method Name Value) where
    unfoldable pub validate_origin :
        Request Method Headers → Result CorsErrorKind (Option (AllowedOrigin Value))
    unfolding parse_origin
    validate_origin request = elim (h.get_header request.headers h.origin) [
      | none ↦ ok none
      | some origin ↦ parse_origin origin >>= λ parsed. elim cors.origins [
        | some origins ↦
            if set_contains h.eq_uri origins parsed
            then ok (some (exact origin))
            else err disallowed_origin
        | none ↦ if cors.allow_credentials then ok (some (exact origin)) else ok (some any_origin)
      ]
    ]

    unfoldable pub validate_request_method :
        Request Method Headers → Result CorsErrorKind (Option Value)
    validate_request_method request = elim (h.get_header request.headers h.request_method) [
      | none ↦ ok none
      | some v ↦ or_fail invalid_request_method (h.to_str v) >>= λ s.
          (or_fail invalid_request_method (h.parse_method s) >>= λ method.
          (if set_contains h.eq_method cors.methods method
            then ok (some cors.methods_value)
            else err disallowed_request_method))
    ]

    unfoldable pub validate_request_headers :
        Request Method Headers → Result CorsErrorKind (Option Value)
    unfolding parse_names split_comma
    validate_request_headers request = elim (h.get_header request.headers h.request_headers) [
      | none ↦ ok none
      | some v ↦ elim cors.headers [
        | none ↦ ok (some v)
        | some headers ↦ or_fail invalid_request_headers (h.to_str v) >>= λ s.
            (parse_names [] (split_comma s) >>= λ names.
            (if is_superset headers names
              then ok cors.headers_value
              else err disallowed_request_headers))
      ]
    ]

    abbrev pub insert_some : Name → Option Value → Headers → Headers
    insert_some name none m = m
    insert_some name (some v) m = h.insert_header m name v

    abbrev pub max_age_value : Option Value
    max_age_value = elim cors.max_age [ none ↦ none | some d ↦ some (h.from_number d.as_secs) ]

    -- The headers of a preflight response.
    unfoldable pub preflight_headers : AllowedOrigin Value → Option Value → Option Value → Headers
    unfolding into_value
    preflight_headers origin methods headers = insert_some h.max_age max_age_value (
        insert_some h.allow_headers headers (
          insert_some h.allow_methods methods
            (h.insert_header h.empty h.allow_origin (into_value origin))))

    unfoldable pub process_preflight_request :
        Request Method Headers → AllowedOrigin Value → Result CorsErrorKind (Response Headers)
    unfolding validate_request_method validate_request_headers preflight_headers
    process_preflight_request request origin = validate_request_method request >>= λ methods.
        (validate_request_headers request >>= λ headers.
        ok (record { status = 204; headers = preflight_headers origin methods headers }))

    -- `hdrs` as it is left, on an error too.
    unfoldable pub process_simple_request :
        Request Method Headers
        → AllowedOrigin Value
        → Headers
        → Headers × Result CorsErrorKind (Unit {0})
    unfolding into_value
    process_simple_request request origin hdrs =
        if set_contains h.eq_method cors.methods request.method
        then (let hdrs' = h.append_header hdrs h.allow_origin (into_value origin) in
            (
              (if cors.allow_credentials
                  then h.append_header hdrs' h.allow_credentials h.true_value
                  else hdrs'),
              ok tt,
            ))
        else (hdrs, err disallowed_request_method)

    abbrev pub headers_or_default : Option Headers → Headers
    headers_or_default none = h.empty
    headers_or_default (some m) = m

    module _ {Rest : Type 0} where
      -- `input` as it is left, on an error too.
      unfoldable pub process_request :
          Request Method Headers
          → Input Headers Rest
          → Input Headers Rest × Result CorsErrorKind (Option (Response Headers))
      unfolding validate_origin process_preflight_request process_simple_request
      process_request request input = elim (validate_origin request) [
        | err e ↦ (input, err e)
        | ok none ↦ (input, ok none)
        | ok (some origin) ↦
            if h.eq_method request.method h.options
            then (input, (process_preflight_request request origin >>= λ r. ok (some r)))
            else (let (hdrs, outcome) =
                  process_simple_request request origin
                    (headers_or_default input.response_headers) in
                (record input { response_headers = some hdrs }, (outcome >>= λ u. ok none)))
      ]

-- The texts of `#[fail(display = ..)]`
abbrev pub kind_text : CorsErrorKind → Bytes
kind_text invalid_origin = codes "the provided Origin is not a valid value."
kind_text disallowed_origin = codes "the provided Origin is not allowed."
kind_text invalid_request_method =
    codes "the provided Access-Control-Request-Method is not a valid value."
kind_text disallowed_request_method =
    codes "the provided Access-Control-Request-Method is not allowed."
kind_text invalid_request_headers =
    codes "the provided Access-Control-Request-Headers is not a valid value."
kind_text disallowed_request_headers =
    codes "the provided Access-Control-Request-Headers is not allowed."

-- `CORSError::into_response`: the status and the body.
abbrev pub error_response : CorsErrorKind → ℕ × Bytes
error_response kind = (403, codes "Invalid CORS request: " ++ kind_text kind)
