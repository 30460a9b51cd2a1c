-- ===== src/Cors/ResponseLaws.antt =====
-- tsukuyomi-cors/src/lib.rs: the response headers that the checks write.
use tsukuyomi.Prelude.{
  ◌≡◌, refl, sym, ap, ◌∙◌, subst, true, false, Option, none, some, Bytes, set_contains,
  if◌then◌else◌, inl, inr, Bool-cases, Option-cases, ok, err, ◌>>=◌, passed, or_fail,
}
use tsukuyomi.Http.{Http, IsHttp}
use tsukuyomi.Input.{Request, Response}
use tsukuyomi.Cors.Builder.{Inner}
use tsukuyomi.Cors.Check.{
  invalid_request_method, disallowed_request_method, AllowedOrigin, into_value,
  validate_request_method, validate_request_headers, insert_some, max_age_value, preflight_headers,
  process_preflight_request,
}

or_fail-ok : {E A : Type 0} → (e : E) (o : Option A) (a : A) → or_fail e o ≡ ok a → o ≡ some a
or_fail-ok e none a h = cc
or_fail-ok e (some b) a h = cc

module _ {Uri Method Name Value Headers : Type 0} (h : Http Uri Method Name Value Headers)
    (laws : IsHttp h) (cors : Inner Uri Method Name Value) (request : Request Method Headers) where
  -- A header that is written, or not, under another name.
  insert_some-other :
      (k j : Name) (v : Option Value) (m : Headers)
      → h.eq_name k j ≡ false
      → h.get_header (insert_some h cors k v m) j ≡ h.get_header m j
  insert_some-other k j none m differ = refl
  insert_some-other k j (some v) m differ =
      laws.get-insert m k j v ∙ ap (λ b. if b then some v else h.get_header m j) differ

  insert_some_self :
      (k : Name) (v : Option Value) (m : Headers)
      → h.get_header m k ≡ none
      → h.get_header (insert_some h cors k v m) k ≡ v
  insert_some_self k none m absent = absent
  insert_some_self k (some v) m absent =
      laws.get-insert m k k v ∙ ap (λ b. if b then some v else h.get_header m k) (laws.eq_self k)

  module _ (origin : AllowedOrigin Value) (methods headers : Option Value) where
    abbrev base : Headers
    base = h.insert_header h.empty h.allow_origin (into_value h origin)

    base-other : (j : Name) → h.eq_name h.allow_origin j ≡ false → h.get_header base j ≡ none
    base-other j differ =
        laws.get-insert h.empty h.allow_origin j (into_value h origin)
        ∙ ap (λ b. if b then some (into_value h origin) else h.get_header h.empty j) differ
        ∙ laws.get-empty j

    preflight-origin :
        h.get_header (preflight_headers h cors origin methods headers) h.allow_origin
        ≡ some (into_value h origin)
    unfolding preflight_headers
    preflight-origin =
        insert_some-other h.max_age h.allow_origin (max_age_value h cors) _ laws.origin-max_age
        ∙ insert_some-other h.allow_headers h.allow_origin headers _ laws.origin-headers
        ∙ insert_some-other h.allow_methods h.allow_origin methods _ laws.origin-methods
        ∙ laws.get-insert h.empty h.allow_origin h.allow_origin (into_value h origin)
        ∙ ap (λ b. if b then some (into_value h origin) else h.get_header h.empty h.allow_origin)
            (laws.eq_self h.allow_origin)

    preflight-credentials :
        h.get_header (preflight_headers h cors origin methods headers) h.allow_credentials ≡ none
    unfolding preflight_headers
    preflight-credentials =
        insert_some-other h.max_age h.allow_credentials (max_age_value h cors) _
          laws.credentials-max_age
        ∙ insert_some-other h.allow_headers h.allow_credentials headers _ laws.credentials-headers
        ∙ insert_some-other h.allow_methods h.allow_credentials methods _ laws.credentials-methods
        ∙ base-other h.allow_credentials laws.origin-credentials

    preflight-methods :
        h.get_header (preflight_headers h cors origin methods headers) h.allow_methods ≡ methods
    unfolding preflight_headers
    preflight-methods =
        insert_some-other h.max_age h.allow_methods (max_age_value h cors) _ laws.methods-max_age
        ∙ insert_some-other h.allow_headers h.allow_methods headers _ laws.methods-headers
        ∙ insert_some_self h.allow_methods methods base
            (base-other h.allow_methods laws.methods-origin)

  preflight-steps :
      (origin : AllowedOrigin Value)
      → process_preflight_request h cors request origin ≡ (
          validate_request_method h cors request >>= λ methods.
          (validate_request_headers h cors request >>= λ headers.
          ok (record { status = 204; headers = preflight_headers h cors origin methods headers })))
  unfolding process_preflight_request
  preflight-steps origin = refl

  -- The parts of a success of a preflight request.
  preflight-parts :
      (origin : AllowedOrigin Value) (r : Response Headers)
      → process_preflight_request h cors request origin ≡ ok r
      → (methods headers : Option Value) × (validate_request_method h cors request ≡ ok methods)
        × (validate_request_headers h cors request ≡ ok headers)
        × (r ≡ record { status = 204; headers = preflight_headers h cors origin methods headers })
  preflight-parts origin r e =
      let (methods, good, rest) =
        passed (validate_request_method h cors request) _ (sym (preflight-steps origin) ∙ e) in
      let (headers, fine, same) = passed (validate_request_headers h cors request) _ rest in
      (methods, headers, good, fine, cc)

  -- The method that the request names in its `Access-Control-Request-Method` header, whose text is
  -- that of the header.
  pub record IsAsked (v : Value) (method : Method) : Type 0 where
    pub text : Bytes
    pub has : h.get_header request.headers h.request_method ≡ some v
    pub reads : h.to_str v ≡ some text
    pub parses : h.parse_method text ≡ some method

  -- The method that a preflight request asks for is one of the configured methods, which are then
  -- the answer; without a method there is no answer.
  abbrev pub AnswersMethod : Option Value → Type 0
  AnswersMethod none = h.get_header request.headers h.request_method ≡ none
  AnswersMethod (some v) =
      (asked : Value) × (method : Method) × IsAsked asked method
      × (set_contains h.eq_method cors.methods method ≡ true)
      × (v ≡ cors.methods_value)

  validate_method-end :
      (asked : Value) (method : Method) (m : Option Value)
      → IsAsked asked method
      → (if set_contains h.eq_method cors.methods method
          then ok (some cors.methods_value)
          else err disallowed_request_method)
        ≡ ok m
      → AnswersMethod m
  validate_method-end asked method m is_asked e =
      elim (Bool-cases (set_contains h.eq_method cors.methods method)) [
        | inr bad ↦ absurd (cc (rw bad at e))
        | inl here ↦
            let same : some cors.methods_value ≡ m = cc (rw here at e) in
            subst AnswersMethod same (asked, method, is_asked, here, refl)
      ]

  validate_method-some :
      (v : Value) (m : Option Value)
      → h.get_header request.headers h.request_method ≡ some v
      → validate_request_method h cors request ≡ ok m
      → AnswersMethod m
  unfolding validate_request_method
  validate_method-some v m at e =
      let (s, text, rest) =
        passed (or_fail invalid_request_method (h.to_str v)) _
          (rw (at, validate_request_method) at e) in
      let (method, parsed, done) =
        passed (or_fail invalid_request_method (h.parse_method s)) _ rest in
      let is_asked : IsAsked v method = record {
        text = s;
        has = at;
        reads = or_fail-ok invalid_request_method (h.to_str v) s text;
        parses = or_fail-ok invalid_request_method (h.parse_method s) method parsed;
      } in
      validate_method-end v method m is_asked done

  validate_request_method-Answers :
      (m : Option Value) → validate_request_method h cors request ≡ ok m → AnswersMethod m
  unfolding validate_request_method
  validate_request_method-Answers m e =
      elim (Option-cases (h.get_header request.headers h.request_method)) [
        | inl absent ↦
            let same : none ≡ m = cc (rw (absent, validate_request_method) at e) in
            subst AnswersMethod same absent
        | inr (v, at) ↦ validate_method-some v m at e
      ]

  -- A preflight request that succeeds is answered with status 204 and with the origin that was
  -- allowed; the method that its `Access-Control-Request-Method` header names, if it has one, is
  -- a configured one, and the response has then the configured methods; and the response does not say
  -- that credentials are allowed, whatever the configuration says.
  pub process_preflight_request-ok :
      (origin : AllowedOrigin Value) (r : Response Headers)
      → process_preflight_request h cors request origin ≡ ok r
      → (r.status ≡ 204)
        × (h.get_header r.headers h.allow_origin ≡ some (into_value h origin))
        × AnswersMethod (h.get_header r.headers h.allow_methods)
        × (h.get_header r.headers h.allow_credentials ≡ none)
  process_preflight_request-ok origin r e =
      let (methods, headers, good, fine, same) = preflight-parts origin r e in
      (
        ap (λ (x : Response Headers). x.status) same,
        ap (λ (x : Response Headers). h.get_header x.headers h.allow_origin) same
            ∙ preflight-origin origin methods headers,
        subst AnswersMethod
            (sym (
              ap (λ (x : Response Headers). h.get_header x.headers h.allow_methods) same
              ∙ preflight-methods origin methods headers))
            (validate_request_method-Answers methods good),
        ap (λ (x : Response Headers). h.get_header x.headers h.allow_credentials) same
            ∙ preflight-credentials origin methods headers,
      )
