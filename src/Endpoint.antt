-- ===== src/Endpoint.antt =====
-- tsukuyomi/src/endpoint.rs: `Endpoint`, and the chain of two. The methods that an endpoint is
-- asked with come from the `ApplyContext`, which shows nothing else of the input.
use tsukuyomi.Prelude.{ℕ, Bool, true, false, Option, none, some, List, ◌++◌, Result, ok, err}
use tsukuyomi.Http.{Http}
use tsukuyomi.Future.{TryFuture, map_poll, map_err, Either, left, right}
use tsukuyomi.Handler.{AllowedMethods, from_iter}
pub mod Laws
pub mod Builder
pub mod BuilderLaws
pub mod Route
pub mod RouteCall
mod Tests

-- `apply` gives the arguments back where the method is not allowed (`ApplyError`).
pub record Endpoint (Method T S I E A : Type 0) : Type 0 where
  pub apply : T → Method → Result T S
  pub allowed_methods : Option (AllowedMethods Method)
  pub poll : TryFuture S I E A

-- `From<ApplyError> for Error`
abbrev pub method_not_allowed_status : ℕ
method_not_allowed_status = 405

module _ {Method T S I E A : Type 0} where
  -- `endpoint(apply, allowed_methods)`
  abbrev pub endpoint :
      (T → Method → Result T S)
      → Option (AllowedMethods Method)
      → TryFuture S I E A
      → Endpoint Method T S I E A
  endpoint apply allowed poll = record { apply = apply; allowed_methods = allowed; poll = poll }

pub data ChainFuture (L R : Type 0) : Type 0 where
  left_future : L → ChainFuture L R
  right_future : R → ChainFuture L R

module _ {T L R : Type 0} where
  -- `.map(ChainFuture::Right)`
  abbrev pub map_right : Result T R → Result T (ChainFuture L R)
  map_right (ok s) = ok (right_future s)
  map_right (err args) = err args

  -- `.map(ChainFuture::Left)` and `.or_else(..)`, whose second call is made only then.
  abbrev pub or_else : Result T L → (T → Result T R) → Result T (ChainFuture L R)
  or_else (ok s) next = ok (left_future s)
  or_else (err args) next = map_right (next args)

module _ {L R I E F Error A B : Type 0} where
  unfoldable pub poll_chain :
      (E → Error)
      → (F → Error)
      → TryFuture L I E A
      → TryFuture R I F B
      → TryFuture (ChainFuture L R) I Error (Either A B)
  poll_chain into_left into_right poll_left poll_right (left_future s) i =
      let (s', i', polled) = poll_left s i in
      (left_future s', i', map_err into_left (map_poll left polled))
  poll_chain into_left into_right poll_left poll_right (right_future s) i =
      let (s', i', polled) = poll_right s i in
      (right_future s', i', map_err into_right (map_poll right polled))

module _ {Uri Method Name Value Headers : Type 0} (h : Http Uri Method Name Value Headers) where
  -- `allowed_methods` of a chain: none, if one of the two accepts all methods.
  unfoldable pub chain_methods :
      Option (AllowedMethods Method)
      → Option (AllowedMethods Method)
      → Option (AllowedMethods Method)
  unfolding from_iter
  chain_methods none other = none
  chain_methods (some ms) none = none
  chain_methods (some ms) (some ns) = some (from_iter h (ms ++ ns))

module _ {Uri Method Name Value Headers T L R I E F Error A B : Type 0}
    (h : Http Uri Method Name Value Headers) (into_left : E → Error) (into_right : F → Error) where
  -- `Endpoint<T> for Chain<L, R>`
  unfoldable pub chain :
      Endpoint Method T L I E A
      → Endpoint Method T R I F B
      → Endpoint Method T (ChainFuture L R) I Error (Either A B)
  unfolding poll_chain chain_methods
  chain l r = record {
    apply = λ args method. or_else (l.apply args method) (λ args'. r.apply args' method);
    allowed_methods = chain_methods h l.allowed_methods r.allowed_methods;
    poll = poll_chain into_left into_right l.poll r.poll;
  }
