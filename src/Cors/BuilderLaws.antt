-- ===== src/Cors/BuilderLaws.antt =====
-- tsukuyomi-cors/src/lib.rs: what `Builder::build` keeps of the configuration.
use tsukuyomi.Prelude.{
  ◌≡◌, refl, sym, ap, ◌∙◌, subst, true, false, some, set_insert, contains-insert_self, inl, inr,
  Option-cases, Result, ok, join_sep,
}
use tsukuyomi.Prelude.{some_injective}
use tsukuyomi.Http.{Http}
use tsukuyomi.Input.{Request}
use tsukuyomi.Cors.Builder.{
  Builder, Inner, comma, or_default, allow_origin, build, methods_or_default, headers_value_of,
}
use tsukuyomi.Cors.Check.{exact, validate_origin}
use tsukuyomi.Cors.OriginLaws.{ReadsAs, Admits, validate_origin-IsAllowed}

module _ {Uri Method Name Value Headers : Type 0} (h : Http Uri Method Name Value Headers) where
  -- The fields of a built configuration that come from the builder.
  abbrev pub IsBuiltFrom : Builder Uri Method Name → Inner Uri Method Name Value → Type 0
  IsBuiltFrom b cors =
      (cors.origins ≡ b.origins)
      × (cors.methods ≡ methods_or_default h b.methods)
      × (cors.headers ≡ b.headers)
      × (cors.max_age ≡ b.max_age)
      × (cors.allow_credentials ≡ b.allow_credentials)

  -- A built configuration has the origins, the methods (by default the three), the headers, the
  -- age and the flag of its builder.
  pub build-IsBuiltFrom :
      (b : Builder Uri Method Name) (cors : Inner Uri Method Name Value)
      → build h b ≡ some cors
      → IsBuiltFrom b cors
  unfolding build
  build-IsBuiltFrom b cors e =
      elim (Option-cases
        (h.from_shared (join_sep comma h.method_str false (methods_or_default h b.methods)))) [
          | inl bad ↦ absurd (cc (rw (bad, build) at e))
          | inr (v, fine) ↦ elim (Option-cases (headers_value_of h b.headers)) [
            | inl bad ↦ absurd (cc (rw (fine, bad, build) at e))
            | inr (w, known) ↦
                subst (IsBuiltFrom b) (some_injective (rw (fine, known, build) at e))
                  (refl, refl, refl, refl, refl)
          ]
        ]

  -- A request whose `Origin` header reads as a URI that was given to `allow_origin` is let through,
  -- and answered with that origin.
  validate_origin-allow_origin :
      {E U : Type 0} (try_from : U → Result E Uri) (b b' : Builder Uri Method Name) (u : U)
      (o : Uri) (cors : Inner Uri Method Name Value) (request : Request Method Headers) (v : Value)
      → try_from u ≡ ok o
      → h.eq_uri o o ≡ true
      → allow_origin h try_from b u ≡ ok b'
      → build h b' ≡ some cors
      → h.get_header request.headers h.origin ≡ some v
      → ReadsAs h v o
      → validate_origin h cors request ≡ ok (some (exact v))
  unfolding allow_origin
  validate_origin-allow_origin try_from b b' u o cors request v parsed same e built at reads =
      let put : record b { origins = some (set_insert h.eq_uri (or_default b.origins) o) } ≡ b' =
        cc (rw (parsed, allow_origin) at e) in
      let kept = build-IsBuiltFrom b' cors built in
      let origins = ap (λ (x : Builder Uri Method Name). x.origins) put ∙ sym kept.0 in
      (validate_origin-IsAllowed h cors request (exact v)).1 (
        v,
        o,
        at,
        reads,
        subst (λ os. Admits h os cors.allow_credentials v o (exact v)) origins
            (contains-insert_self h.eq_uri (or_default b.origins) o same, refl),
      )
