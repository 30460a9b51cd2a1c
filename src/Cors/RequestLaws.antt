-- ===== src/Cors/RequestLaws.antt =====
-- tsukuyomi-cors/src/lib.rs: `Inner::process_request`, on each of its ways.
use tsukuyomi.Prelude.{
  ◌≡◌, refl, sym, ap, ◌∙◌, subst, Bool, true, false, Option, none, some, set_contains,
  if◌then◌else◌, inl, inr, Bool-cases, Result-cases, Result, ok, err, ◌>>=◌,
}
use tsukuyomi.Http.{Http, IsHttp}
use tsukuyomi.Input.{Request, Input, Response}
use tsukuyomi.Cors.Builder.{Inner}
use tsukuyomi.Cors.Check.{
  CorsErrorKind, disallowed_request_method, AllowedOrigin, into_value, validate_origin,
  process_preflight_request, process_simple_request, headers_or_default, process_request,
}
use tsukuyomi.Cors.OriginLaws.{IsAllowed, validate_origin-IsAllowed, validate_origin-none}

module _ {Uri Method Name Value Headers Rest : Type 0} (h : Http Uri Method Name Value Headers)
    (cors : Inner Uri Method Name Value) (request : Request Method Headers)
    (input : Input Headers Rest) where
  request-refused :
      (e : CorsErrorKind)
      → validate_origin h cors request ≡ err e
      → process_request h cors request input ≡ (input, err e)
  unfolding process_request
  request-refused e bad = rw (bad, process_request) refl

  request-past :
      validate_origin h cors request ≡ ok none
      → process_request h cors request input ≡ (input, ok none)
  unfolding process_request
  request-past past = rw (past, process_request) refl

  request-preflight :
      (o : AllowedOrigin Value)
      → validate_origin h cors request ≡ ok (some o)
      → h.eq_method request.method h.options ≡ true
      → process_request h cors request input
        ≡ (input, (process_preflight_request h cors request o >>= λ r. ok (some r)))
  unfolding process_request
  request-preflight o good options = rw (good, options, process_request) refl

  abbrev simple_headers : Headers
  simple_headers = headers_or_default h cors input.response_headers

  request-simple :
      (o : AllowedOrigin Value)
      → validate_origin h cors request ≡ ok (some o)
      → h.eq_method request.method h.options ≡ false
      → process_request h cors request input ≡ (
        record input {
          response_headers = some (process_simple_request h cors request o simple_headers).0;
        },
        ((process_simple_request h cors request o simple_headers).1 >>= λ u. ok none),
      )
  unfolding process_request
  request-simple o good other = rw (good, other, process_request) refl

  simple-refused :
      (o : AllowedOrigin Value)
      → set_contains h.eq_method cors.methods request.method ≡ false
      → process_simple_request h cors request o simple_headers
        ≡ (simple_headers, err disallowed_request_method)
  unfolding process_simple_request
  simple-refused o bad = rw (bad, process_simple_request) refl

  abbrev written : AllowedOrigin Value → Headers
  written o = h.append_header simple_headers h.allow_origin (into_value h o)

  simple-written :
      (o : AllowedOrigin Value)
      → set_contains h.eq_method cors.methods request.method ≡ true
      → process_simple_request h cors request o simple_headers ≡ (
        (if cors.allow_credentials
            then h.append_header (written o) h.allow_credentials h.true_value
            else written o),
        ok tt,
      )
  unfolding process_simple_request
  simple-written o here = rw (here, process_simple_request) refl

  -- Nothing is written for a request that is refused.
  abbrev pub LeavesInput :
      Input Headers Rest × Result CorsErrorKind (Option (Response Headers)) → Type 0
  LeavesInput (input', err e) =
      (headers_or_default h cors input'.response_headers ≡ simple_headers)
      × (input'.rest ≡ input.rest)
  LeavesInput (input', ok outcome) = Unit

  untouched : (r : Result CorsErrorKind (Option (Response Headers))) → LeavesInput (input, r)
  untouched (ok outcome) = tt
  untouched (err e) = (refl, refl)

  simple-Leaves :
      (o : AllowedOrigin Value)
      → LeavesInput (
        record input {
          response_headers = some (process_simple_request h cors request o simple_headers).0;
        },
        ((process_simple_request h cors request o simple_headers).1 >>= λ u. ok none),
      )
  simple-Leaves o = elim (Bool-cases (set_contains h.eq_method cors.methods request.method)) [
    | inr bad ↦
        subst
          (λ (r : Headers × Result CorsErrorKind (Unit {0})).
            LeavesInput (record input { response_headers = some r.0 }, (r.1 >>= λ u. ok none)))
          (sym (simple-refused o bad)) (refl, refl)
    | inl here ↦
        subst
          (λ (r : Headers × Result CorsErrorKind (Unit {0})).
            LeavesInput (record input { response_headers = some r.0 }, (r.1 >>= λ u. ok none)))
          (sym (simple-written o here)) tt
  ]

  -- A request that is refused leaves the headers of the response, where none are the same as an
  -- empty map, and the rest of the input as they were.
  pub process_request-Leaves : LeavesInput (process_request h cors request input)
  process_request-Leaves = elim (Result-cases (validate_origin h cors request)) [
    | inl (e, bad) ↦ subst LeavesInput (sym (request-refused e bad)) (refl, refl)
    | inr (none, past) ↦ subst LeavesInput (sym (request-past past)) tt
    | inr (some o, good) ↦ elim (Bool-cases (h.eq_method request.method h.options)) [
      | inl options ↦
          subst LeavesInput (sym (request-preflight o good options))
            (untouched (process_preflight_request h cors request o >>= λ r. ok (some r)))
      | inr other ↦ subst LeavesInput (sym (request-simple o good other)) (simple-Leaves o)
    ]
  ]

  -- A request without an `Origin` header is passed on, and nothing is written for it.
  pub process_request-absent :
      h.get_header request.headers h.origin ≡ none
      → process_request h cors request input ≡ (input, ok none)
  process_request-absent absent = request-past ((validate_origin-none h cors request).1 absent)

  module _ (laws : IsHttp h) where
    written-origin :
        (o : AllowedOrigin Value)
        → h.get_header simple_headers h.allow_origin ≡ none
        → h.get_header (written o) h.allow_origin ≡ some (into_value h o)
    written-origin o fresh =
        laws.get-append simple_headers h.allow_origin h.allow_origin (into_value h o)
        ∙ rw (fresh, laws.eq_self h.allow_origin) refl

    written-credentials :
        (o : AllowedOrigin Value)
        → h.get_header simple_headers h.allow_credentials ≡ none
        → h.get_header (written o) h.allow_credentials ≡ none
    written-credentials o fresh =
        laws.get-append simple_headers h.allow_origin h.allow_credentials (into_value h o)
        ∙ rw (fresh, laws.origin-credentials) refl

    -- What a response to a simple request says of the origin and of credentials.
    abbrev pub Says : Bool → AllowedOrigin Value → Headers → Type 0
    Says credentials o m =
        (h.get_header m h.allow_origin ≡ some (into_value h o))
        × (h.get_header m h.allow_credentials ≡ (if credentials then some h.true_value else none))

    written-Says :
        (credentials : Bool) (o : AllowedOrigin Value)
        → h.get_header simple_headers h.allow_origin ≡ none
        → h.get_header simple_headers h.allow_credentials ≡ none
        → Says credentials o (
            if credentials
            then h.append_header (written o) h.allow_credentials h.true_value
            else written o)
    written-Says false o fresh silent = (written-origin o fresh, written-credentials o silent)
    written-Says true o fresh silent = (
      laws.get-append (written o) h.allow_credentials h.allow_origin h.true_value
          ∙ rw (written-origin o fresh) refl,
      laws.get-append (written o) h.allow_credentials h.allow_credentials h.true_value
          ∙ rw (written-credentials o silent, laws.eq_self h.allow_credentials) refl,
    )

    -- What is left of an input after a simple request with this origin.
    abbrev pub SaysAllowed : Input Headers Rest → Type 0
    SaysAllowed input' =
        (o : AllowedOrigin Value) × IsAllowed h cors request o
        × (set_contains h.eq_method cors.methods request.method ≡ true)
        × ((m : Headers) × (input'.response_headers ≡ some m) × Says cors.allow_credentials o m)

    simple-SaysAllowed :
        (o : AllowedOrigin Value) (input' : Input Headers Rest)
        → IsAllowed h cors request o
        → h.get_header simple_headers h.allow_origin ≡ none
        → h.get_header simple_headers h.allow_credentials ≡ none
        → ◌≡◌ {A = Input Headers Rest × Result CorsErrorKind (Option (Response Headers))}
            (
              record input {
                response_headers = some (process_simple_request h cors request o simple_headers).0;
              },
              ((process_simple_request h cors request o simple_headers).1 >>= λ u. ok none),
            )
            (input', ok none)
        → SaysAllowed input'
    simple-SaysAllowed o input' allowed fresh silent e =
        elim (Bool-cases (set_contains h.eq_method cors.methods request.method)) [
          | inr bad ↦
              let refused : (process_simple_request h cors request o simple_headers).1
                  ≡ err disallowed_request_method =
                ap (λ (r : Headers × Result CorsErrorKind (Unit {0})). r.1)
                  (simple-refused o bad) in
              let passed : ((process_simple_request h cors request o simple_headers).1 >>= λ u.
              ok none)
                  ≡ ok none =
                ap
                  (λ (r : Input Headers Rest × Result CorsErrorKind (Option (Response Headers))).
                    r.1)
                  e in
              absurd (cc (rw refused at passed))
          | inl here ↦
              let m : Headers = (process_simple_request h cors request o simple_headers).0 in
              let put =
                ap (λ (r : Headers × Result CorsErrorKind (Unit {0})). r.0)
                  (simple-written o here) in
              (
                o,
                allowed,
                here,
                (
                  m,
                  sym (
                      ap
                        (λ (r : Input Headers Rest
                            × Result CorsErrorKind (Option (Response Headers))).
                          r.0.response_headers)
                        e),
                  subst (Says cors.allow_credentials o) (sym put)
                      (written-Says cors.allow_credentials o fresh silent),
                ),
              )
        ]

    -- Where the response has no `Access-Control-Allow-Origin` and no
    -- `Access-Control-Allow-Credentials` header yet, a request with an `Origin` header whose method is
    -- not `OPTIONS` is passed on only if its origin is allowed and its method is a configured one; the
    -- response then says which origin is allowed and, exactly if it is configured, that credentials
    -- are.
    pub process_request-SaysAllowed :
        (v : Value) (input' : Input Headers Rest)
        → h.get_header request.headers h.origin ≡ some v
        → h.eq_method request.method h.options ≡ false
        → h.get_header simple_headers h.allow_origin ≡ none
        → h.get_header simple_headers h.allow_credentials ≡ none
        → process_request h cors request input ≡ (input', ok none)
        → SaysAllowed input'
    process_request-SaysAllowed v input' at other fresh silent e =
        elim (Result-cases (validate_origin h cors request)) [
          | inl (x, bad) ↦ absurd (
              cc (
                ap
                  (λ (r : Input Headers Rest × Result CorsErrorKind (Option (Response Headers))).
                    r.1)
                  (sym (request-refused x bad) ∙ e)))
          | inr (none, past) ↦ absurd (cc ((validate_origin-none h cors request).0 past))
          | inr (some o, good) ↦
              simple-SaysAllowed o input' ((validate_origin-IsAllowed h cors request o).0 good)
                fresh silent (sym (request-simple o good other) ∙ e)
        ]
