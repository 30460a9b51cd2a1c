-- ===== src/Handler/Modifiers.antt =====
-- tsukuyomi/src/modifiers.rs: `DefaultOptions` and `MapOutput`.
use tsukuyomi.Prelude.{Option, none, some, [], ◌∷◌, codes, ok, if◌then◌else◌}
use tsukuyomi.Http.{Http}
use tsukuyomi.Input.{Request, Response}
use tsukuyomi.Future.{ready, TryFuture, map_poll, Either, left, right}
use tsukuyomi.Handler.{AllowedMethods, extend_methods, to_header_value, Handler}

-- `HandleDefaultOptions<H>`
pub record HandleDefaultOptions (Value S : Type 0) : Type 0 where
  pub inner : S
  pub allowed_methods_value : Option Value

module _ {Uri Method Name Value Headers : Type 0} (h : Http Uri Method Name Value Headers) where
  -- `allowed_methods().cloned().map(..)`, with `OPTIONS`
  unfoldable pub with_options : Option (AllowedMethods Method) → Option (AllowedMethods Method)
  unfolding extend_methods
  with_options none = none
  with_options (some methods) = some (extend_methods h methods (h.options ∷ []))

  abbrev pub all_methods_value : Value
  all_methods_value =
      h.from_shared_unchecked (codes "GET, POST, PUT, DELETE, HEAD, OPTIONS, CONNECT, PATCH, TRACE")

  abbrev pub value_or_all : Option Value → Value
  value_or_all none = all_methods_value
  value_or_all (some v) = v

  abbrev pub header_value_of : Option (AllowedMethods Method) → Option Value
  header_value_of none = none
  header_value_of (some methods) = some (to_header_value h methods)

  -- The response to `OPTIONS`.
  abbrev pub options_response : Option Value → Response Headers
  options_response v = record {
    status = 204;
    headers = h.append_header h.empty h.allow (value_or_all v);
  }

  module _ {S I E A : Type 0} where
    unfoldable pub poll_default_options :
        (Request Method Headers → TryFuture S I E A)
        → Request Method Headers
        → TryFuture (HandleDefaultOptions Value S) I E (Either (Response Headers) A)
    poll_default_options poll request s input =
        if h.eq_method request.method h.options
        then (
          record s { allowed_methods_value = none },
          input,
          ok (ready (left (options_response s.allowed_methods_value))),
        )
        else (let (inner, input', polled) = poll request s.inner input in
            (record s { inner = inner }, input', map_poll right polled))

    -- `DefaultOptions::modify`
    unfoldable pub default_options :
        Handler Method (Request Method Headers) S I E A
        → Handler Method
            (Request Method Headers)
            (HandleDefaultOptions Value S)
            I
            E
            (Either (Response Headers) A)
    unfolding with_options to_header_value poll_default_options
    default_options handler =
        let allowed = with_options handler.allowed_methods in
        record {
          allowed_methods = allowed;
          handle = record {
            inner = handler.handle;
            allowed_methods_value = header_value_of allowed;
          };
          poll = poll_default_options handler.poll;
        }

module _ {S I E A B : Type 0} where
  unfoldable pub poll_map_output : (A → B) → TryFuture S I E A → TryFuture S I E B
  poll_map_output f poll s i = let (s', i', polled) = poll s i in (s', i', map_poll f polled)

module _ {Method R S I E A B : Type 0} where
  -- `MapOutput::modify`
  unfoldable pub map_output : (A → B) → Handler Method R S I E A → Handler Method R S I E B
  unfolding poll_map_output
  map_output f handler = record {
    allowed_methods = handler.allowed_methods;
    handle = handler.handle;
    poll = λ request. poll_map_output f (handler.poll request);
  }
