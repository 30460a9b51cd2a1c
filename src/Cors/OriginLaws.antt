-- ===== src/Cors/OriginLaws.antt =====
-- tsukuyomi-cors/src/lib.rs: which origins `Inner::validate_origin` lets through.
use tsukuyomi.Prelude.{
  ◌≡◌, refl, sym, ap, ◌∙◌, subst, Bool, true, false, Option, none, some, List, Bytes, set_contains,
  if◌then◌else◌, ◌↔◌, ◌≢◌, inl, inr, Bool-cases, Option-cases, Result-cases, Result, ok, err, ◌>>=◌,
}
use tsukuyomi.Http.{Http}
use tsukuyomi.Input.{Request}
use tsukuyomi.Cors.Builder.{Inner}
use tsukuyomi.Cors.Check.{
  CorsErrorKind, disallowed_origin, AllowedOrigin, exact, any_origin, parse_origin, validate_origin,
}

module _ {Uri Method Name Value Headers : Type 0} (h : Http Uri Method Name Value Headers) where
  -- The header is a text that reads as a URI with a scheme and a host.
  abbrev pub ReadsAs : Value → Uri → Type 0
  ReadsAs v u =
      (s : Bytes) × (h.to_str v ≡ some s)
      × (h.parse_uri s ≡ some u)
      × (h.has_scheme u ≡ true)
      × (h.has_host u ≡ true)

  -- What a configuration answers to a well-formed origin: the origin itself, or any.
  abbrev pub Admits : Option (List Uri) → Bool → Value → Uri → AllowedOrigin Value → Type 0
  Admits (some origins) credentials v u o = (set_contains h.eq_uri origins u ≡ true) × (o ≡ exact v)
  Admits none true v u o = o ≡ exact v
  Admits none false v u o = o ≡ any_origin

  parse_origin-ReadsAs : (v : Value) (u : Uri) → parse_origin h v ≡ ok u → ReadsAs v u
  unfolding parse_origin
  parse_origin-ReadsAs v u e = elim (Option-cases (h.to_str v)) [
    | inl absent ↦ absurd (cc (rw (absent, parse_origin) at e))
    | inr (s, text) ↦ elim (Option-cases (h.parse_uri s)) [
      | inl absent ↦ absurd (cc (rw (text, absent, parse_origin) at e))
      | inr (w, parsed) ↦ elim (Bool-cases (h.has_scheme w)) [
        | inr bad ↦ absurd (cc (rw (text, parsed, bad, parse_origin) at e))
        | inl scheme ↦ elim (Bool-cases (h.has_host w)) [
          | inr bad ↦ absurd (cc (rw (text, parsed, scheme, bad, parse_origin) at e))
          | inl host ↦
              let same : w ≡ u = cc (rw (text, parsed, scheme, host, parse_origin) at e) in
              subst (λ x. ReadsAs v x) same (s, text, parsed, scheme, host)
        ]
      ]
    ]
  ]

  ReadsAs-parse_origin : (v : Value) (u : Uri) → ReadsAs v u → parse_origin h v ≡ ok u
  unfolding parse_origin
  ReadsAs-parse_origin v u (s, text, parsed, scheme, host) = rw (text, parsed, scheme, host) refl

  -- The end of `validate_origin`.
  abbrev admit :
      Option (List Uri) → Bool → Value → Uri → Result CorsErrorKind (Option (AllowedOrigin Value))
  admit origins credentials v u = elim origins [
    | some os ↦ if set_contains h.eq_uri os u then ok (some (exact v)) else err disallowed_origin
    | none ↦ if credentials then ok (some (exact v)) else ok (some any_origin)
  ]

  admit-Admits :
      (origins : Option (List Uri)) (credentials : Bool) (v : Value) (u : Uri)
      (o : AllowedOrigin Value)
      → admit origins credentials v u ≡ ok (some o)
      → Admits origins credentials v u o
  admit-Admits (some os) credentials v u o e = elim (Bool-cases (set_contains h.eq_uri os u)) [
    | inr bad ↦ absurd (cc (rw bad at e))
    | inl here ↦ (here, cc (rw here at e))
  ]
  admit-Admits none true v u o e = cc
  admit-Admits none false v u o e = cc

  admit-some :
      (origins : Option (List Uri)) (credentials : Bool) (v : Value) (u : Uri)
      → admit origins credentials v u ≢ ok none
  admit-some (some os) credentials v u e = elim (Bool-cases (set_contains h.eq_uri os u)) [
    | inr bad ↦ absurd (cc (rw bad at e))
    | inl here ↦ absurd (cc (rw here at e))
  ]
  admit-some none true v u e = cc
  admit-some none false v u e = cc

  Admits-admit :
      (origins : Option (List Uri)) (credentials : Bool) (v : Value) (u : Uri)
      (o : AllowedOrigin Value)
      → Admits origins credentials v u o
      → admit origins credentials v u ≡ ok (some o)
  Admits-admit (some os) credentials v u o (here, same) = rw (here, same) refl
  Admits-admit none true v u o same = rw same refl
  Admits-admit none false v u o same = rw same refl

  module _ (cors : Inner Uri Method Name Value) (request : Request Method Headers) where
    -- The origin of the request, if it has one, is well formed and the configuration lets it
    -- through with this answer.
    abbrev pub IsAllowed : AllowedOrigin Value → Type 0
    IsAllowed o =
        (v : Value) × (u : Uri) × (h.get_header request.headers h.origin ≡ some v)
        × ReadsAs v u
        × Admits cors.origins cors.allow_credentials v u o

    validate_origin-at :
        (v : Value)
        → h.get_header request.headers h.origin ≡ some v
        → validate_origin h cors request
          ≡ (parse_origin h v >>= admit cors.origins cors.allow_credentials v)
    unfolding validate_origin
    validate_origin-at v at = rw (at, validate_origin) refl

    validate_origin-absent :
        h.get_header request.headers h.origin ≡ none → validate_origin h cors request ≡ ok none
    unfolding validate_origin
    validate_origin-absent absent = rw (absent, validate_origin) refl

    -- `validate_origin` answers a request exactly as its origin allows.
    pub validate_origin-IsAllowed :
        (o : AllowedOrigin Value) → (validate_origin h cors request ≡ ok (some o)) ↔ IsAllowed o
    validate_origin-IsAllowed o = (there, back)
      where
        there : validate_origin h cors request ≡ ok (some o) → IsAllowed o
        there e = elim (Option-cases (h.get_header request.headers h.origin)) [
          | inl absent ↦ absurd (cc (validate_origin-absent absent))
          | inr (v, at) ↦ elim (Result-cases (parse_origin h v)) [
            | inl (x, bad) ↦
                let refused : validate_origin h cors request ≡ err x =
                  validate_origin-at v at
                  ∙ ap (λ r. r >>= admit cors.origins cors.allow_credentials v) bad in
                absurd (cc)
            | inr (u, good) ↦
                let admitted =
                  sym (ap (λ r. r >>= admit cors.origins cors.allow_credentials v) good)
                  ∙ sym (validate_origin-at v at)
                  ∙ e in
                (
                  v,
                  u,
                  at,
                  parse_origin-ReadsAs v u good,
                  admit-Admits cors.origins cors.allow_credentials v u o admitted,
                )
          ]
        ]

        back : IsAllowed o → validate_origin h cors request ≡ ok (some o)
        back (v, u, at, reads, admits) =
            validate_origin-at v at
            ∙ ap (λ r. r >>= admit cors.origins cors.allow_credentials v)
                (ReadsAs-parse_origin v u reads)
            ∙ Admits-admit cors.origins cors.allow_credentials v u o admits

    -- A request is let past without an answer exactly when it has no `Origin` header.
    pub validate_origin-none :
        (validate_origin h cors request ≡ ok none) ↔ (h.get_header request.headers h.origin ≡ none)
    validate_origin-none = (there, validate_origin-absent)
      where
        there :
            validate_origin h cors request ≡ ok none → h.get_header request.headers h.origin ≡ none
        there e = elim (Option-cases (h.get_header request.headers h.origin)) [
          | inl absent ↦ absent
          | inr (v, at) ↦ elim (Result-cases (parse_origin h v)) [
            | inl (x, bad) ↦
                let refused : validate_origin h cors request ≡ err x =
                  validate_origin-at v at
                  ∙ ap (λ r. r >>= admit cors.origins cors.allow_credentials v) bad in
                absurd (cc)
            | inr (u, good) ↦
                let admitted =
                  sym (ap (λ r. r >>= admit cors.origins cors.allow_credentials v) good)
                  ∙ sym (validate_origin-at v at)
                  ∙ e in
                absurd (admit-some cors.origins cors.allow_credentials v u admitted)
          ]
        ]
