-- ===== src/Endpoint/Route.antt =====
-- tsukuyomi/src/config/path.rs: `Path::to` and `RouteHandle`. `PathExtractor::extract` is a
-- function of the captured parameters, which the macro `path!` writes.
use tsukuyomi.Prelude.{ℕ, suc, ◌≡◌, refl, Bytes, Result, ok, err}
use tsukuyomi.Future.{ready, not_ready, Poll, TryFuture, map_err}
use tsukuyomi.Future.Drive.{drive, onward}
use tsukuyomi.Future.Laws.{through, drive-through}
use tsukuyomi.Handler.{Handler, handler}
use tsukuyomi.Endpoint.{Endpoint, method_not_allowed_status}

-- `Path`, whose extractor is its type
pub record RoutePath (P T : Type 0) : Type 0 where
  pub path : Bytes
  pub extract : P → Result ℕ T

-- `RouteHandleState`
pub data RouteHandle (S : Type 0) : Type 0 where
  init : RouteHandle S
  in_flight : S → RouteHandle S

-- `Route`
pub record Route (H : Type 0) : Type 0 where
  pub path : Bytes
  pub handler : H

module _ {Method T S I E A Error : Type 0} (into : E → Error) (from_status : ℕ → Error)
    (endpoint : Endpoint Method T S I E A) where
  -- The poll in `InFlight`
  abbrev pub flight_polled : S × I × Poll E A → RouteHandle S × I × Poll Error A
  flight_polled (s, i, polled) = (in_flight s, i, map_err into polled)

  -- `endpoint.apply(..)?`, whose error is that of `From<ApplyError>`, and the next round of the loop
  abbrev pub applied : I → Result T S → RouteHandle S × I × Poll Error A
  applied i (ok s) = flight_polled (endpoint.poll s i)
  applied i (err args) = (init, i, err (from_status method_not_allowed_status))

  -- `E::extract(..)?`
  abbrev pub extracted : Method → I → Result ℕ T → RouteHandle S × I × Poll Error A
  extracted method i (ok args) = applied i (endpoint.apply args method)
  extracted method i (err status) = (init, i, err (from_status status))

  -- `RouteHandle::poll_ready`; the parameters and the method stand in the input, and do not change.
  unfoldable pub poll_route : Method → Result ℕ T → TryFuture (RouteHandle S) I Error A
  poll_route method args init i = extracted method i args
  poll_route method args (in_flight s) i = flight_polled (endpoint.poll s i)

  module _ {P R : Type 0} (params_of : R → P) (method_of : R → Method) where
    -- `Path::to`
    abbrev pub to : RoutePath P T → Route (Handler Method R (RouteHandle S) I Error A)
    to path = record {
      path = path.path;
      handler =
          handler (λ request. poll_route (method_of request) (path.extract (params_of request)))
            init endpoint.allowed_methods;
    }

  flight-through : (p : S × I × Poll E A) → flight_polled p ≡ through in_flight (λ a. a) into p
  flight-through (s, i, ok (ready a)) = refl
  flight-through (s, i, ok not_ready) = refl
  flight-through (s, i, err e) = refl

  drive-in_flight :
      (method : Method) (args : Result ℕ T) (n : ℕ) (s : S) (i : I)
      → drive n (poll_route method args) (in_flight s) i
        ≡ through in_flight (λ a. a) into (drive n endpoint.poll s i)
  unfolding poll_route
  drive-in_flight method args n s i =
      drive-through in_flight (λ a. a) into endpoint.poll (poll_route method args)
        (λ t j. flight-through (endpoint.poll t j)) n s i

  onward-flight :
      (method : Method) (args : Result ℕ T) (n : ℕ) (p : S × I × Poll E A)
      → onward (drive n (poll_route method args)) (flight_polled p)
        ≡ through in_flight (λ a. a) into (onward (drive n endpoint.poll) p)
  onward-flight method args n (s, i, ok (ready a)) = refl
  onward-flight method args n (s, i, ok not_ready) = drive-in_flight method args n s i
  onward-flight method args n (s, i, err e) = refl

  -- What the handle of a route comes to: the status of the error where the parameters are refused,
  -- 405 where the endpoint does not apply, and else the future of the endpoint, driven.
  abbrev pub answered : ℕ → I → Result T S → RouteHandle S × I × Poll Error A
  answered n i (ok s) = through in_flight (λ a. a) into (drive n endpoint.poll s i)
  answered n i (err args) = (init, i, err (from_status method_not_allowed_status))

  abbrev pub routed : Method → ℕ → I → Result ℕ T → RouteHandle S × I × Poll Error A
  routed method n i (ok args) = answered n i (endpoint.apply args method)
  routed method n i (err status) = (init, i, err (from_status status))

  drive-applied :
      (method : Method) (args : Result ℕ T) (n : ℕ) (i : I) (r : Result T S)
      → onward (drive n (poll_route method args)) (applied i r) ≡ answered (suc n) i r
  unfolding drive
  drive-applied method args n i (ok s) = onward-flight method args n (endpoint.poll s i)
  drive-applied method args n i (err given) = refl

  drive-extracted :
      (method : Method) (all args : Result ℕ T) (n : ℕ) (i : I)
      → onward (drive n (poll_route method all)) (extracted method i args)
        ≡ routed method (suc n) i args
  drive-extracted method all (ok args) n i =
      drive-applied method all n i (endpoint.apply args method)
  drive-extracted method all (err status) n i = refl

  -- The handle of a route, polled at least once: it ends at once with the error of the parameters
  -- where they are refused, and with 405 where the endpoint does not apply to the method; else the
  -- endpoint is applied once, with the arguments, and its future is driven with the input: pending
  -- as long, and with the same result, its error converted.
  pub drive-poll_route :
      (method : Method) (args : Result ℕ T) (n : ℕ) (i : I)
      → drive (suc n) (poll_route method args) init i ≡ routed method (suc n) i args
  unfolding drive poll_route
  drive-poll_route method args n i = drive-extracted method args args n i
