-- ===== src/Endpoint/Builder.antt =====
-- tsukuyomi/src/config/endpoint.rs: `Builder`, and the endpoints that it makes. `Combine` is the
-- function `combine`; an extractor is what `extract` and `poll` tell of it.
use tsukuyomi.Prelude.{Option, none, some, [], ◌∷◌, if◌then◌else◌, Result, ok, err, ◌>>=◌}
use tsukuyomi.Http.{Http}
use tsukuyomi.Future.{ready, not_ready, Poll, TryFuture, PartialFuture, map_err}
use tsukuyomi.Future.Ending.{caught}
use tsukuyomi.Handler.{AllowedMethods, from_iter, from_method, accepts_method}
use tsukuyomi.Endpoint.{Endpoint, endpoint}

pub record Builder (Method X : Type 0) : Type 0 where
  pub extractor : X
  pub allowed_methods : Option (AllowedMethods Method)

-- `tsukuyomi::util::Chain`
pub record Chain (L R : Type 0) : Type 0 where
  pub left : L
  pub right : R

module _ {Method : Type 0} where
  -- `Builder::allow_any`, and `any()`
  abbrev pub allow_any : Builder Method (Unit {0})
  allow_any = record { extractor = tt; allowed_methods = none }

  -- `Builder::allow_only`, of the methods as `try_into` gives them
  unfoldable pub allow_only :
      {E : Type 0} → Result E (AllowedMethods Method) → Result E (Builder Method (Unit {0}))
  allow_only methods =
      methods >>= λ allowed. ok (record { extractor = tt; allowed_methods = some allowed })

module _ {Uri Method Name Value Headers : Type 0} (h : Http Uri Method Name Value Headers) where
  -- `get()` and its likes, each with its own method
  abbrev pub of_method : Method → Builder Method (Unit {0})
  of_method method = record { extractor = tt; allowed_methods = some (from_method h method) }

  -- `get_or_head()`
  unfoldable pub get_or_head : Method → Builder Method (Unit {0})
  unfolding from_iter
  get_or_head head = record {
    extractor = tt;
    allowed_methods = some (from_iter h (h.get ∷ head ∷ []));
  }

module _ {Method X Y : Type 0} where
  -- `Builder::extract`
  abbrev pub extract : Builder Method X → Y → Builder Method (Chain X Y)
  extract builder other = record {
    extractor = record { left = builder.extractor; right = other };
    allowed_methods = builder.allowed_methods;
  }

-- `CallFuture`: the future of the extractor, the function, and the arguments until they are taken.
pub record CallFuture (S C O T : Type 0) : Type 0 where
  pub extract : S
  pub f : C → O
  pub args : Option T

module _ {I S E A T C O : Type 0} (combine : T → A → C) (poll : TryFuture S I E A) where
  -- `self.args.take().expect(..)`, and the call
  abbrev pub answer : S → (C → O) → Option T → I → A → Option (CallFuture S C O T × I × Poll E O)
  answer s f none i a = none
  answer s f (some args) i a =
      some (record { extract = s; f = f; args = none }, i, ok (ready (f (combine args a))))

  -- `try_ready!` on the extractor
  abbrev pub call_polled :
      (C → O) → Option T → S × I × Poll E A → Option (CallFuture S C O T × I × Poll E O)
  call_polled f args (s, i, ok (ready a)) = answer s f args i a
  call_polled f args (s, i, ok not_ready) =
      some (record { extract = s; f = f; args = args }, i, ok not_ready)
  call_polled f args (s, i, err e) = some (record { extract = s; f = f; args = args }, i, err e)

  unfoldable pub poll_call : PartialFuture (CallFuture S C O T) I E O
  poll_call s i = call_polled s.f s.args (poll s.extract i)

-- `State`
pub data CallState (S R : Type 0) : Type 0 where
  first : S → CallState S R
  second : R → CallState S R

-- `CallAsyncFuture`
pub record CallAsyncFuture (S R C T : Type 0) : Type 0 where
  pub state : CallState S R
  pub f : C → R
  pub args : Option T

module _ {I S R E F Error A T C O : Type 0} (into : E → Error) (into_action : F → Error)
    (combine : T → A → C) (poll : TryFuture S I E A) (poll_action : R → R × Poll F O) where
  -- The poll of the action in `State::Second`
  abbrev pub action_polled :
      (C → R) → Option T → I → R × Poll F O → CallAsyncFuture S R C T × I × Poll Error O
  action_polled f args i (r, polled) =
      (record { state = second r; f = f; args = args }, i, map_err into_action polled)

  -- `self.args.take().expect(..)`, the call, and the next round of the loop
  abbrev pub start_action :
      (C → R) → Option T → I → A → Option (CallAsyncFuture S R C T × I × Poll Error O)
  start_action f none i a = none
  start_action f (some args) i a = some (action_polled f none i (poll_action (f (combine args a))))

  abbrev pub first_polled :
      (C → R) → Option T → S × I × Poll E A → Option (CallAsyncFuture S R C T × I × Poll Error O)
  first_polled f args (s, i, ok (ready a)) = start_action f args i a
  first_polled f args (s, i, ok not_ready) =
      some (record { state = first s; f = f; args = args }, i, ok not_ready)
  first_polled f args (s, i, err e) =
      some (record { state = first s; f = f; args = args }, i, err (into e))

  abbrev pub poll_state :
      (C → R) → Option T → CallState S R → I → Option (CallAsyncFuture S R C T × I × Poll Error O)
  poll_state f args (first s) i = first_polled f args (poll s i)
  poll_state f args (second r) i = some (action_polled f args i (poll_action r))

  unfoldable pub poll_call_async : PartialFuture (CallAsyncFuture S R C T) I Error O
  poll_call_async s i = poll_state s.f s.args s.state i

module _ {Uri Method Name Value Headers : Type 0} (h : Http Uri Method Name Value Headers) where
  -- The test of the method that both calls make, and the arguments given back.
  unfoldable pub apply_allowed :
      {T S : Type 0} → Option (AllowedMethods Method) → (T → S) → T → Method → Result T S
  apply_allowed none start args method = ok (start args)
  apply_allowed (some methods) start args method =
      if accepts_method h methods method then ok (start args) else err args

  module _ {X I S E A T C O : Type 0} (extract_of : X → S) (combine : T → A → C)
      (poll : TryFuture S I E A) where
    -- `Builder::call`
    unfoldable pub call :
        Builder Method X → (C → O) → Endpoint Method T (CallFuture S C O T) I (Option E) O
    unfolding apply_allowed poll_call caught
    call builder f =
        endpoint
          (apply_allowed builder.allowed_methods
            (λ args. record { extract = extract_of builder.extractor; f = f; args = some args }))
          builder.allowed_methods (caught (poll_call combine poll))

  module _ {X I S R E F Error A T C O : Type 0} (into : E → Error) (into_action : F → Error)
      (extract_of : X → S) (combine : T → A → C) (poll : TryFuture S I E A)
      (poll_action : R → R × Poll F O) where
    -- `Builder::call_async`
    unfoldable pub call_async :
        Builder Method X → (C → R) → Endpoint Method T (CallAsyncFuture S R C T) I (Option Error) O
    unfolding apply_allowed poll_call_async caught
    call_async builder f =
        endpoint
          (apply_allowed builder.allowed_methods (λ args. record {
            state = first (extract_of builder.extractor);
            f = f;
            args = some args;
          }))
          builder.allowed_methods
          (caught (poll_call_async into into_action combine poll poll_action))

module _ {Uri Method Name Value Headers X I S E C O : Type 0}
    (h : Http Uri Method Name Value Headers) (extract_of : X → S)
    (combine : Unit {0} → Unit {0} → C) (poll : TryFuture S I E (Unit {0})) where
  -- `Builder::reply`: the function gives the same output each time.
  abbrev pub reply :
      Builder Method X → O → Endpoint Method (Unit {0}) (CallFuture S C O (Unit {0})) I (Option E) O
  reply builder output = call h extract_of combine poll builder (λ args. output)
