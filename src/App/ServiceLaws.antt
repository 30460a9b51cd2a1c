-- ===== src/App/ServiceLaws.antt =====
-- tsukuyomi/src/app/service.rs: driving an `AppFuture` is driving the handle of the route, and what
-- is done before the reply.
use tsukuyomi.Prelude.{ℕ, zero, suc, ◌≡◌, refl, Option, some, ok, err}
use tsukuyomi.Http.{Http}
use tsukuyomi.Input.{Input}
use tsukuyomi.Future.{Async, ready, not_ready, Poll, TryFuture}
use tsukuyomi.Future.Drive.{drive, onward}
use tsukuyomi.App.Find.{Recognized, process_recognize, and_then}
use tsukuyomi.App.Service.{
  Output, init, in_flight, AppFuture, Replies, process_before_reply, reply, advance, poll_in_flight,
  launch, poll_state, poll,
}

module _ {ServiceUri Method Name Value Headers Rest Body H S E : Type 0}
    (h : Http ServiceUri Method Name Value Headers) (replies : Replies Name Value Headers Rest Body)
    (start : H → S) (into : ℕ → E) (into_response : E → Output Headers Body)
    (poll_handle : Recognized H → TryFuture S (Input Headers Rest) E (Output Headers Body)) where
  -- The next poll is made while the future is pending.
  abbrev pub again :
      (AppFuture H S Headers Rest
        → Option (AppFuture H S Headers Rest × Async (Output Headers Body)))
      → AppFuture H S Headers Rest × Async (Output Headers Body)
      → Option (AppFuture H S Headers Rest × Async (Output Headers Body))
  again next (future, not_ready) = next future
  again next (future, ready output) = some (future, ready output)

  -- At most so many polls of the future of a request.
  unfoldable pub drive_app :
      ℕ
      → AppFuture H S Headers Rest
      → Option (AppFuture H S Headers Rest × Async (Output Headers Body))
  unfolding poll
  drive_app zero future = some (future, not_ready)
  drive_app (suc n) future =
      and_then (poll h replies start into into_response poll_handle future) (again (drive_app n))

  -- What the future of a request makes of a poll of the handle.
  abbrev pub advanced :
      AppFuture H S Headers Rest
      → S × Input Headers Rest × Poll E (Output Headers Body)
      → AppFuture H S Headers Rest × Async (Output Headers Body)
  advanced = advance h replies start into into_response poll_handle

  again-advanced :
      (n : ℕ) (future : AppFuture H S Headers Rest)
      (p : TryFuture S (Input Headers Rest) E (Output Headers Body))
      → ((s : S) (i : Input Headers Rest)
          → drive_app n (record future { state = in_flight s; input = i })
            ≡ some (advanced future (drive n p s i)))
      → (r : S × Input Headers Rest × Poll E (Output Headers Body))
      → again (drive_app n) (advanced future r) ≡ some (advanced future (onward (drive n p) r))
  unfolding advance reply process_before_reply
  again-advanced n future p same (s, i, ok not_ready) = same s i
  again-advanced n future p same (s, i, ok (ready output)) = refl
  again-advanced n future p same (s, i, err e) = refl

  -- While the handle of a route is in flight, the future of the request is driven as the handle:
  -- it is pending as long, and ends with the reply made from the output or the error of the handle.
  pub drive-in_flight :
      (n : ℕ) (future : AppFuture H S Headers Rest) (s : S) (i : Input Headers Rest)
      → drive_app n (record future { state = in_flight s; input = i })
        ≡ some (advanced future (drive n (poll_handle future.recognized) s i))
  unfolding drive_app drive poll poll_state poll_in_flight advance
  drive-in_flight zero future s i = refl
  drive-in_flight (suc n) future s i =
      again-advanced n future (poll_handle future.recognized) (drive-in_flight n future)
        (poll_handle future.recognized s i)

  -- The first poll recognizes the path and goes on with the handle that it starts.
  pub drive-init :
      (n : ℕ) (future : AppFuture H S Headers Rest) (recognized : Recognized H) (f : H)
      → future.state ≡ init
      → process_recognize future.inner future.path ≡ some (recognized, ok f)
      → drive_app (suc n) future
        ≡ some (
            advanced
              (record future { recognized = recognized; state = in_flight (start f) })
              (drive (suc n) (poll_handle recognized) (start f) future.input))
  unfolding drive_app drive poll poll_state poll_in_flight launch
  drive-init n future recognized f first found =
      rw (first, found)
        (again-advanced n (record future { recognized = recognized; state = in_flight (start f) })
          (poll_handle recognized)
          (drive-in_flight n
            (record future { recognized = recognized; state = in_flight (start f) }))
          (poll_handle recognized (start f) future.input))

  -- Where there is no handler, the first poll ends with the reply made from the status of the error.
  pub drive-unrecognized :
      (n : ℕ) (future : AppFuture H S Headers Rest) (recognized : Recognized H) (status : ℕ)
      → future.state ≡ init
      → process_recognize future.inner future.path ≡ some (recognized, err status)
      → drive_app (suc n) future
        ≡ some (
            reply h replies start into into_response poll_handle
              (record future { recognized = recognized })
              (err (into status)))
  unfolding drive_app poll poll_state launch reply process_before_reply
  drive-unrecognized n future recognized status first found = rw (first, found) refl
