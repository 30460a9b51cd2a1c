-- ===== src/Cors/Handle.antt =====
-- tsukuyomi-cors/src/lib.rs: the endpoint that answers preflight requests, and the modifier that
-- checks the requests to a handler.
use tsukuyomi.Prelude.{Option, none, some, Result, ok, err, ◌>>=◌, if◌then◌else◌}
use tsukuyomi.Http.{Http}
use tsukuyomi.Input.{Request, Input, Response}
use tsukuyomi.Future.{ready, Poll, TryFuture, map_poll, map_err, Either, left, right}
use tsukuyomi.Handler.{Handler}
use tsukuyomi.Handler.Modifiers.{with_options}
use tsukuyomi.Cors.Builder.{Inner}
use tsukuyomi.Cors.Check.{
  CorsErrorKind, validate_origin, process_preflight_request, process_request,
}

-- `CORSHandle<H>`
pub record CorsHandle (C S : Type 0) : Type 0 where
  pub cors : Option C
  pub handle : S

module _ {Uri Method Name Value Headers Args : Type 0}
    (h : Http Uri Method Name Value Headers) where
  -- `Endpoint::apply`; the error is `method_not_allowed`.
  unfoldable pub apply :
      Inner Uri Method Name Value
      → Args
      → Request Method Headers
      → Result Args (Inner Uri Method Name Value)
  apply cors args request = if h.eq_method request.method h.options then ok cors else err args

module _ {Uri Method Name Value Headers Error : Type 0} (h : Http Uri Method Name Value Headers)
    (from_cors : CorsErrorKind → Error) where
  module _ {I : Type 0} where
    -- `CORSEndpointFuture::poll_ready`
    unfoldable pub poll_endpoint :
        Error
        → Request Method Headers
        → TryFuture (Inner Uri Method Name Value) I Error (Response Headers)
    unfolding validate_origin process_preflight_request
    poll_endpoint not_found request s input = elim (validate_origin h s request) [
      | ok (some origin) ↦ (
        s,
        input,
        map_err from_cors (process_preflight_request h s request origin >>= λ r. ok (ready r)),
      )
      | ok none ↦ (s, input, err not_found)
      | err e ↦ (s, input, err (from_cors e))
    ]

  module _ {S E A Rest : Type 0} (into : E → Error) where
    -- The poll of the handle inside.
    abbrev pub poll_inner :
        TryFuture S (Input Headers Rest) E A
        → TryFuture
            (CorsHandle (Inner Uri Method Name Value) S)
            (Input Headers Rest)
            Error
            (Either (Response Headers) A)
    poll_inner poll s input =
        let (inner, input', polled) = poll s.handle input in
        (record s { handle = inner }, input', map_err into (map_poll right polled))

    -- The rest of the first poll, after the check.
    abbrev pub after_request :
        TryFuture S (Input Headers Rest) E A
        → CorsHandle (Inner Uri Method Name Value) S
        → Input Headers Rest × Result CorsErrorKind (Option (Response Headers))
        → CorsHandle (Inner Uri Method Name Value) S
          × Input Headers Rest
          × Poll Error (Either (Response Headers) A)
    after_request poll s (input, err e) = (s, input, err (from_cors e))
    after_request poll s (input, ok (some output)) = (s, input, ok (ready (left output)))
    after_request poll s (input, ok none) = poll_inner poll s input

    unfoldable pub poll_cors_handle :
        (Request Method Headers → TryFuture S (Input Headers Rest) E A)
        → Request Method Headers
        → TryFuture
            (CorsHandle (Inner Uri Method Name Value) S)
            (Input Headers Rest)
            Error
            (Either (Response Headers) A)
    unfolding process_request
    poll_cors_handle poll request s input = elim s.cors [
      | none ↦ poll_inner (poll request) s input
      | some cors ↦
          after_request (poll request) (record s { cors = none })
            (process_request h cors request input)
    ]

    -- `ModifyHandler::modify`, with `CORSHandler::handle`
    unfoldable pub modify :
        Inner Uri Method Name Value
        → Handler Method (Request Method Headers) S (Input Headers Rest) E A
        → Handler Method
            (Request Method Headers)
            (CorsHandle (Inner Uri Method Name Value) S)
            (Input Headers Rest)
            Error
            (Either (Response Headers) A)
    unfolding poll_cors_handle with_options
    modify cors handler = record {
      allowed_methods = with_options h handler.allowed_methods;
      handle = record { cors = some cors; handle = handler.handle };
      poll = poll_cors_handle handler.poll;
    }
