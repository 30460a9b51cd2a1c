-- ===== src/App/Boxed.antt =====
-- tsukuyomi/src/app/config.rs: `BoxedHandler`, in `thread_safe` and in `current_thread`: the handle of
-- the handler, then the future of the responder, then the response made from its output.
use tsukuyomi.Prelude.{Result, ok, err, ◌>>=◌}
use tsukuyomi.Future.{ready, not_ready, Poll, TryFuture, map_err}

-- `enum State<A, B>`
pub data State (A B : Type 0) : Type 0 where
  first : A → State A B
  second : B → State A B

module _ {A B I E F G Error X Y Out : Type 0} (into : E → Error) (into_respond : F → Error)
    (into_output : G → Error) (poll_handle : TryFuture A I E X) (respond : X → B)
    (poll_respond : TryFuture B I F Y) (into_response : Y → Result G Out) where
  -- `.into_response(..).map_err(Into::into)?` on what `try_ready!` gives
  abbrev pub finish : Poll F Y → Poll Error Out
  finish (ok (ready y)) = map_err into_output (into_response y) >>= λ out. ok (ready out)
  finish (ok not_ready) = ok not_ready
  finish (err e) = err (into_respond e)

  abbrev pub finished : B × I × Poll F Y → State A B × I × Poll Error Out
  finished (s, i, polled) = (second s, i, finish polled)

  -- The loop after a poll of the handle: it goes round again once that is ready.
  abbrev pub handled : A × I × Poll E X → State A B × I × Poll Error Out
  handled (s, i, ok (ready x)) = finished (poll_respond (respond x) i)
  handled (s, i, ok not_ready) = (first s, i, ok not_ready)
  handled (s, i, err e) = (first s, i, err (into e))

  unfoldable pub poll_boxed : TryFuture (State A B) I Error Out
  poll_boxed (first s) i = handled (poll_handle s i)
  poll_boxed (second s) i = finished (poll_respond s i)

  -- In `current_thread` the loop is the same.
  abbrev pub poll_local : TryFuture (State A B) I Error Out
  poll_local = poll_boxed
