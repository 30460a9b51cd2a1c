-- ===== src/App/Service.antt =====
-- tsukuyomi/src/app/service.rs: `AppFuture`. The cookie crate, the values of a handler and the
-- drain of a header map into another are parameters; the `input!` of a poll is what was recognized,
-- which is passed beside the mutable parts of the future.
use tsukuyomi.Prelude.{ℕ, Option, none, some, List, [], ◌∷◌, Bytes, Result, ok, err}
use tsukuyomi.Http.{Http}
use tsukuyomi.Input.{Input}
use tsukuyomi.Future.{Async, ready, not_ready, Poll, TryFuture}
use tsukuyomi.App.Config.{AppInner}
use tsukuyomi.App.Find.{Recognized, process_recognize, and_then}

-- `Response<ResponseBody>`
pub record Output (Headers Body : Type 0) : Type 0 where
  pub status : ℕ
  pub headers : Headers
  pub body : Body

pub data AppFutureState (S : Type 0) : Type 0 where
  init : AppFutureState S
  in_flight : S → AppFutureState S
  finished : AppFutureState S

pub record AppFuture (H S Headers Rest : Type 0) : Type 0 where
  pub path : Bytes
  pub inner : AppInner H
  pub recognized : Recognized H
  pub input : Input Headers Rest
  pub state : AppFutureState S

-- `AppService::call`; the body and the local data are in the rest of the input.
abbrev pub call :
    {H S Headers Rest : Type 0} → AppInner H → Bytes → Rest → AppFuture H S Headers Rest
call inner path rest = record {
  path = path;
  inner = inner;
  recognized = record { endpoint = none; captures = none };
  input = record { response_headers = none; rest = rest };
  state = init;
}

-- What is not in the repository: the names of two headers, the text of a number, the encoded
-- cookies that a jar adds as header values, the values of one header map added to another, and the
-- length of a body. The cookie crate encodes a cookie as ASCII without control characters, so that
-- the `parse().unwrap()` of its text as a header value does not fail; `cookies` gives that value.
-- `extend_headers` is the `drain` of one header map and the `entry(..).extend` of the other.
pub record Replies (Name Value Headers Rest Body : Type 0) : Type 0 where
  pub set_cookie : Name
  pub content_length : Name
  pub to_string : ℕ → Bytes
  pub cookies : Rest → List Value
  pub extend_headers : Headers → Headers → Headers
  pub body_length : Body → Option ℕ

module _ {Uri Method Name Value Headers Rest Body : Type 0} (h : Http Uri Method Name Value Headers)
    (replies : Replies Name Value Headers Rest Body) where
  -- `output.headers_mut().append(header::SET_COOKIE, ..)`
  abbrev pub append_cookies : Headers → List Value → Headers
  append_cookies headers [] = headers
  append_cookies headers (v ∷ vs) = append_cookies (h.append_header headers replies.set_cookie v) vs

  abbrev pub extend_supplement : Headers → Option Headers → Headers
  extend_supplement headers none = headers
  extend_supplement headers (some supplement) = replies.extend_headers headers supplement

  -- `.entry(header::CONTENT_LENGTH).or_insert_with(..)`
  abbrev pub or_insert_length : Headers → ℕ → Option Value → Headers
  or_insert_length headers size (some v) = headers
  or_insert_length headers size none =
      h.insert_header headers replies.content_length
        (h.from_shared_unchecked (replies.to_string size))

  abbrev pub with_length : Headers → Option ℕ → Headers
  with_length headers none = headers
  with_length headers (some size) =
      or_insert_length headers size (h.get_header headers replies.content_length)

  -- `process_before_reply`: the supplemental headers are taken.
  unfoldable pub process_before_reply :
      Input Headers Rest → Output Headers Body → Input Headers Rest × Output Headers Body
  process_before_reply input output = (
    record input { response_headers = none },
    record output {
      headers =
          with_length
            (extend_supplement (append_cookies output.headers (replies.cookies input.rest))
              input.response_headers)
            (replies.body_length output.body);
    },
  )

  module _ {H S E : Type 0} (start : H → S) (into : ℕ → E) (into_response : E → Output Headers Body)
      (poll_handle : Recognized H → TryFuture S (Input Headers Rest) E (Output Headers Body)) where
    -- The end of `poll`: the output of the handle, or the response for its error.
    abbrev pub output_of : Result E (Output Headers Body) → Output Headers Body
    output_of (ok output) = output
    output_of (err e) = into_response e

    unfoldable pub reply :
        AppFuture H S Headers Rest
        → Result E (Output Headers Body)
        → AppFuture H S Headers Rest × Async (Output Headers Body)
    unfolding process_before_reply
    reply future polled =
        let (input, output) = process_before_reply future.input (output_of polled) in
        (record future { state = finished; input = input }, ready output)

    -- `break ready!(..)`, with the handle and the input as the poll leaves them
    unfoldable pub advance :
        AppFuture H S Headers Rest
        → S × Input Headers Rest × Poll E (Output Headers Body)
        → AppFuture H S Headers Rest × Async (Output Headers Body)
    unfolding reply
    advance future (s, input, ok not_ready) =
        (record future { state = in_flight s; input = input }, not_ready)
    advance future (s, input, ok (ready output)) =
        reply (record future { input = input }) (ok output)
    advance future (s, input, err e) = reply (record future { input = input }) (err e)

    -- The state `InFlight`, in which the loop goes on after `Init`.
    unfoldable pub poll_in_flight :
        AppFuture H S Headers Rest → S → AppFuture H S Headers Rest × Async (Output Headers Body)
    unfolding advance
    poll_in_flight future s = advance future (poll_handle future.recognized s future.input)

    unfoldable pub launch :
        AppFuture H S Headers Rest
        → Recognized H × Result ℕ H
        → AppFuture H S Headers Rest × Async (Output Headers Body)
    unfolding poll_in_flight reply
    launch future (recognized, err status) =
        reply (record future { recognized = recognized }) (err (into status))
    launch future (recognized, ok f) =
        poll_in_flight (record future { recognized = recognized; state = in_flight (start f) })
          (start f)

    unfoldable pub poll_state :
        AppFutureState S
        → AppFuture H S Headers Rest
        → Option (AppFuture H S Headers Rest × Async (Output Headers Body))
    unfolding launch process_recognize
    poll_state init future =
        and_then (process_recognize future.inner future.path)
          (λ result. some (launch future result))
    poll_state (in_flight s) future = some (poll_in_flight future s)
    poll_state finished future = none

    -- `AppFuture::poll`; the `panic!` of a poll after the end is `none`.
    unfoldable pub poll :
        AppFuture H S Headers Rest
        → Option (AppFuture H S Headers Rest × Async (Output Headers Body))
    unfolding poll_state
    poll future = poll_state future.state future
