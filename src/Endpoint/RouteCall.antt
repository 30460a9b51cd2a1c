-- ===== src/Endpoint/RouteCall.antt =====
-- tsukuyomi/src/config/path.rs and tsukuyomi/src/config/endpoint.rs together: a route to an
-- endpoint that a builder made.
use tsukuyomi.Prelude.{
  ℕ, suc, ◌≡◌, refl, ap, ◌∙◌, Option, none, some, Result, ok, err, if◌then◌else◌, inl, inr,
  Bool-cases,
}
use tsukuyomi.Http.{Http}
use tsukuyomi.Future.{Poll, TryFuture}
use tsukuyomi.Future.Drive.{drive}
use tsukuyomi.Future.Laws.{through}
use tsukuyomi.Future.Ending.{ending, caught, caught_poll, drive-caught}
use tsukuyomi.Handler.{AllowedMethods, accepts_method}
use tsukuyomi.Endpoint.{method_not_allowed_status}
use tsukuyomi.Endpoint.Laws.{allows}
use tsukuyomi.Endpoint.Builder.{Builder, CallFuture, poll_call, apply_allowed, call}
use tsukuyomi.Endpoint.BuilderLaws.{waiting_call, call_end, drive-poll_call}
use tsukuyomi.Endpoint.Route.{RouteHandle, init, in_flight, poll_route, answered, drive-poll_route}

module _ {Uri Method Name Value Headers X I S E A T C O Error : Type 0}
    (h : Http Uri Method Name Value Headers) (into : Option E → Error) (from_status : ℕ → Error)
    (extract_of : X → S) (combine : T → A → C) (poll : TryFuture S I E A)
    (builder : Builder Method X) (f : C → O) where
  -- The extractor of the builder is driven, and the call ends with the function of the arguments
  -- combined with what was extracted.
  abbrev pub call_result : T → ℕ → I → RouteHandle (CallFuture S C O T) × I × Poll Error O
  call_result args n i =
      let s : S = extract_of builder.extractor in
      through in_flight (λ o. o) into
        (caught_poll (waiting_call combine poll f args s) i (
          some (
            ending (waiting_call combine poll f args) (call_end combine poll f args)
              (drive n poll s i))))

  abbrev pub routed_call :
      Method → ℕ → I → Result ℕ T → RouteHandle (CallFuture S C O T) × I × Poll Error O
  routed_call method n i (ok args) =
      if allows h builder.allowed_methods method
      then call_result args n i
      else (init, i, err (from_status method_not_allowed_status))
  routed_call method n i (err status) = (init, i, err (from_status status))

  answered-call :
      (args : T) (n : ℕ) (i : I)
      → through in_flight
          (λ o. o)
          into
          (drive n
            (caught (poll_call combine poll))
            (waiting_call combine poll f args (extract_of builder.extractor))
            i)
        ≡ call_result args n i
  answered-call args n i = ap (through in_flight (λ o. o) into) (
      drive-caught (poll_call combine poll) n _ i _
        (drive-poll_call combine poll f args n (extract_of builder.extractor) i))

  answered-apply :
      (methods : Option (AllowedMethods Method)) (method : Method) (args : T) (n : ℕ) (i : I)
      → answered into from_status (call h extract_of combine poll builder f) n i (
          apply_allowed h methods
            (λ args'. waiting_call combine poll f args' (extract_of builder.extractor))
            args
            method)
        ≡ (if allows h methods method
            then call_result args n i
            else (init, i, err (from_status method_not_allowed_status)))
  unfolding apply_allowed call
  answered-apply none method args n i = answered-call args n i
  answered-apply (some methods) method args n i =
      elim (Bool-cases (accepts_method h methods method)) [
        | inl allowed ↦ rw allowed (answered-call args n i)
        | inr refused ↦ rw refused refl
      ]

  -- A route to the endpoint of `call`, polled at least once: the error of the parameters, or 405
  -- where the builder does not allow the method, at once; else it is pending as long as the
  -- extractor, leaves the input as that does, and ends with the function of the parameters combined
  -- with what was extracted, or with the error of the extractor, converted. It does not panic.
  pub drive-route_call :
      (method : Method) (args : Result ℕ T) (n : ℕ) (i : I)
      → drive
          (suc n)
          (poll_route into from_status (call h extract_of combine poll builder f) method args)
          init
          i
        ≡ routed_call method (suc n) i args
  unfolding call
  drive-route_call method (ok args) n i =
      drive-poll_route into from_status (call h extract_of combine poll builder f) method (ok args)
        n i
      ∙ answered-apply builder.allowed_methods method args (suc n) i
  drive-route_call method (err status) n i =
      drive-poll_route into from_status (call h extract_of combine poll builder f) method
        (err status) n i
