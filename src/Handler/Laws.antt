-- ===== src/Handler/Laws.antt =====
-- tsukuyomi/src/modifiers.rs: what the modifiers make of a handler.
use tsukuyomi.Prelude.{
  ℕ, suc, ◌≡◌, refl, sym, ap, ◌∙◌, Bool-cases, inl, inr, if◌then◌else◌, true, false, Option, none,
  some, set_contains, set_insert, contains-insert, contains-insert_self, Result, ok, err,
}
use tsukuyomi.Http.{Http, IsHttp}
use tsukuyomi.Input.{Request, Response}
use tsukuyomi.Future.{ready, TryFuture, map_poll, map_err, left, right}
use tsukuyomi.Future.Drive.{drive}
use tsukuyomi.Future.Laws.{through, drive-through}
use tsukuyomi.Handler.{AllowedMethods, extend_methods, to_header_value, Handler}
use tsukuyomi.Handler.Modifiers.{
  with_options, header_value_of, options_response, poll_default_options, default_options,
  poll_map_output,
}

map_err-same {ℓ κ} : {E : Type κ} {A : Type ℓ} (r : Result E A) → map_err (λ (e : E). e) r ≡ r
map_err-same (ok a) = refl
map_err-same (err e) = refl

module _ {S I E A B : Type 0} (f : A → B) (poll : TryFuture S I E A) where
  -- A handle whose output is mapped is driven as the handle inside: it is pending as long, leaves
  -- the same state and input, and its result is the mapped one.
  drive-map_output :
      (n : ℕ) (s : S) (i : I)
      → drive n (poll_map_output f poll) s i ≡ through (λ t. t) f (λ e. e) (drive n poll s i)
  unfolding poll_map_output
  drive-map_output n s i =
      drive-through (λ t. t) f (λ e. e) poll (poll_map_output f poll)
        (λ t j.
          ap (λ p. ((poll t j).0, (poll t j).1, p)) (sym (map_err-same (map_poll f (poll t j).2))))
        n s i

module _ {Uri Method Name Value Headers S I E A : Type 0} (h : Http Uri Method Name Value Headers)
    (handler : Handler Method (Request Method Headers) S I E A)
    (request : Request Method Headers) where
  -- For any other request the handle is driven as the handle inside.
  drive-poll_default_options :
      (n : ℕ) (v : Option Value) (s : S) (i : I)
      → h.eq_method request.method h.options ≡ false
      → drive n
          (poll_default_options h handler.poll request)
          (record { inner = s; allowed_methods_value = v })
          i
        ≡ through
            (λ t. record { inner = t; allowed_methods_value = v })
            right
            (λ e. e)
            (drive n (handler.poll request) s i)
  unfolding poll_default_options
  drive-poll_default_options n v s i other =
      drive-through (λ t. record { inner = t; allowed_methods_value = v }) right (λ e. e)
        (handler.poll request) (poll_default_options h handler.poll request)
        (λ t j. rw other (
          ap
            (λ p. (
              record { inner = (handler.poll request t j).0; allowed_methods_value = v },
              (handler.poll request t j).1,
              p,
            ))
            (sym (map_err-same (map_poll right (handler.poll request t j).2)))))
        n s i

module _ {Uri Method Name Value Headers : Type 0} (h : Http Uri Method Name Value Headers) where
  -- With the modifier, a handler that names its methods names `OPTIONS` and all that it named
  -- before.
  with_options-contains :
      (ms : AllowedMethods Method)
      → h.eq_method h.options h.options ≡ true
      → (ns : AllowedMethods Method) × (with_options h (some ms) ≡ some ns)
        × (set_contains h.eq_method ns h.options ≡ true)
        × ((m : Method)
            → set_contains h.eq_method ms m ≡ true
            → set_contains h.eq_method ns m ≡ true)
  unfolding with_options extend_methods
  with_options-contains ms same = (
    set_insert h.eq_method ms h.options,
    refl,
    contains-insert_self h.eq_method ms h.options same,
    λ m there. contains-insert h.eq_method ms m h.options there,
  )

-- The modifier on a handler that names its methods.
module _ {Uri Method Name Value Headers S I E A : Type 0} (h : Http Uri Method Name Value Headers)
    (handler : Handler Method (Request Method Headers) S I E A)
    (request : Request Method Headers) where
  get_header-allow :
      (v : Value) → IsHttp h → h.get_header (options_response h (some v)).headers h.allow ≡ some v
  get_header-allow v laws = rw (laws.get-append, laws.get-empty, laws.eq_self h.allow) refl

  default_options_handle :
      (n : ℕ) (ns : AllowedMethods Method) (i : I)
      → with_options h handler.allowed_methods ≡ some ns
      → drive
          (suc n)
          ((default_options h handler).poll request)
          (default_options h handler).handle
          i
        ≡ drive
            (suc n)
            (poll_default_options h handler.poll request)
            (record { inner = handler.handle; allowed_methods_value = some (to_header_value h ns) })
            i
  unfolding default_options
  default_options_handle n ns i named =
      ap
        (λ v.
          drive (suc n) (poll_default_options h handler.poll request)
            (record { inner = handler.handle; allowed_methods_value = header_value_of h v }) i)
        named

  default_options_answers :
      (n : ℕ) (v : Option Value) (i : I)
      → h.eq_method request.method h.options ≡ true
      → drive
          (suc n)
          (poll_default_options h handler.poll request)
          (record { inner = handler.handle; allowed_methods_value = v })
          i
        ≡ (
          record { inner = handler.handle; allowed_methods_value = none },
          i,
          ok (ready (left (options_response h v))),
        )
  unfolding poll_default_options drive
  default_options_answers n v i asked = rw asked refl

  default_options_branches :
      (n : ℕ) (ns : AllowedMethods Method) (i : I)
      → drive
          (suc n)
          (poll_default_options h handler.poll request)
          (record { inner = handler.handle; allowed_methods_value = some (to_header_value h ns) })
          i
        ≡ (if h.eq_method request.method h.options
            then (
              record { inner = handler.handle; allowed_methods_value = none },
              i,
              ok (ready (left (options_response h (some (to_header_value h ns))))),
            )
            else through
                (λ t. record { inner = t; allowed_methods_value = some (to_header_value h ns) })
                right
                (λ e. e)
                (drive (suc n) (handler.poll request) handler.handle i))
  default_options_branches n ns i = elim (Bool-cases (h.eq_method request.method h.options)) [
    | inl asked ↦ default_options_answers n (some (to_header_value h ns)) i asked ∙ rw asked refl
    | inr other ↦
        drive-poll_default_options h handler request (suc n) (some (to_header_value h ns))
          handler.handle i other
        ∙ rw other refl
  ]

  -- With the modifier, a handler that names its methods, `m` one of them, names `OPTIONS` and still
  -- names `m`. A request by `OPTIONS` is answered at its first poll by status 204, with the methods
  -- that are now named as its `Allow` header, and the handle inside is not polled; for any other
  -- request the handle is driven as the one inside, with its outputs on the right.
  pub drive-default_options :
      (ms : AllowedMethods Method) (m : Method) (n : ℕ) (i : I)
      → IsHttp h
      → h.eq_method h.options h.options ≡ true
      → handler.allowed_methods ≡ some ms
      → set_contains h.eq_method ms m ≡ true
      → (ns : AllowedMethods Method) × (response : Response Headers) × ((default_options h
            handler).allowed_methods
          ≡ some ns)
        × (set_contains h.eq_method ns h.options ≡ true)
        × (set_contains h.eq_method ns m ≡ true)
        × (response.status ≡ 204)
        × (h.get_header response.headers h.allow ≡ some (to_header_value h ns))
        × (drive
              (suc n)
              ((default_options h handler).poll request)
              (default_options h handler).handle
              i
            ≡ (if h.eq_method request.method h.options
                then (
                  record { inner = handler.handle; allowed_methods_value = none },
                  i,
                  ok (ready (left response)),
                )
                else through
                    (λ t. record { inner = t; allowed_methods_value = some (to_header_value h ns) })
                    right
                    (λ e. e)
                    (drive (suc n) (handler.poll request) handler.handle i)))
  unfolding default_options
  drive-default_options ms m n i laws same named there =
      let (ns, more, has, keeps) = with_options-contains h ms same in
      let all : with_options h handler.allowed_methods ≡ some ns =
        ap (with_options h) named ∙ more in
      (
        ns,
        options_response h (some (to_header_value h ns)),
        all,
        has,
        keeps m there,
        refl,
        get_header-allow (to_header_value h ns) laws,
        default_options_handle n ns i all ∙ default_options_branches n ns i,
      )
