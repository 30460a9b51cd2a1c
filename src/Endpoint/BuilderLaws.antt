-- ===== src/Endpoint/BuilderLaws.antt =====
-- tsukuyomi/src/config/endpoint.rs: the endpoints of a builder apply to the methods that it allows,
-- and what driving their futures comes to.
use tsukuyomi.Prelude.{ℕ, ◌≡◌, refl, ap, Option, none, some, Result, ok, err, inl, inr, Bool-cases}
use tsukuyomi.Http.{Http}
use tsukuyomi.Future.{ready, not_ready, Poll, TryFuture, map_err}
use tsukuyomi.Future.Drive.{drive}
use tsukuyomi.Future.Ending.{drive_some, ending, drive-ending}
use tsukuyomi.Future.Sequence.{Sequel, sequence, closed, one_poll, drive-sequence}
use tsukuyomi.Handler.{AllowedMethods, accepts_method}
use tsukuyomi.Endpoint.Laws.{IsExact, is_ok, allows}
use tsukuyomi.Endpoint.Builder.{
  Builder, CallFuture, call_polled, poll_call, first, second, CallAsyncFuture, first_polled,
  action_polled, poll_call_async, apply_allowed, call, call_async,
}

module _ {Uri Method Name Value Headers : Type 0} (h : Http Uri Method Name Value Headers) where
  ok-apply_allowed :
      {T S : Type 0}
      → (methods : Option (AllowedMethods Method)) (start : T → S) (args : T) (m : Method)
      → is_ok (apply_allowed h methods start args m) ≡ allows h methods m
  unfolding apply_allowed
  ok-apply_allowed none start args m = refl
  ok-apply_allowed (some methods) start args m = elim (Bool-cases (accepts_method h methods m)) [
    | inl allowed ↦ rw allowed refl
    | inr refused ↦ rw refused refl
  ]

  module _ {X I S E A T C O : Type 0} (extract_of : X → S) (combine : T → A → C)
      (poll : TryFuture S I E A) (builder : Builder Method X) (f : C → O) where
    -- The endpoint of `call` applies to a method if and only if the builder allows it.
    call-IsExact : IsExact h (call h extract_of combine poll builder f)
    unfolding call
    call-IsExact = record { exact = λ args m. ok-apply_allowed builder.allowed_methods _ args m }

  module _ {X I S R E F Error A T C O : Type 0} (into : E → Error) (into_action : F → Error)
      (extract_of : X → S) (combine : T → A → C) (poll : TryFuture S I E A)
      (poll_action : R → R × Poll F O) (builder : Builder Method X) (f : C → R) where
    -- The endpoint of `call_async` applies to a method if and only if the builder allows it.
    call_async-IsExact :
        IsExact h (call_async h into into_action extract_of combine poll poll_action builder f)
    unfolding call_async
    call_async-IsExact = record {
      exact = λ args m. ok-apply_allowed builder.allowed_methods _ args m;
    }

module _ {I S E A T C O : Type 0} (combine : T → A → C) (poll : TryFuture S I E A) (f : C → O)
    (args : T) where
  abbrev pub waiting_call : S → CallFuture S C O T
  waiting_call s = record { extract = s; f = f; args = some args }

  -- The call ends with the function of the arguments and what was extracted, or with the error.
  abbrev pub call_end : S → Result E A → CallFuture S C O T × Result E O
  call_end s (ok a) = (record { extract = s; f = f; args = none }, ok (f (combine args a)))
  call_end s (err e) = (waiting_call s, err e)

  call-ending :
      (p : S × I × Poll E A)
      → call_polled combine poll f (some args) p ≡ some (ending waiting_call call_end p)
  call-ending (s, i, ok (ready a)) = refl
  call-ending (s, i, ok not_ready) = refl
  call-ending (s, i, err e) = refl

  -- The future of a call is driven as the extractor is: pending as long, with the same input; it
  -- then ends with the function of the arguments combined with what was extracted, or with the
  -- error of the extractor, and it does not panic.
  pub drive-poll_call :
      (n : ℕ) (s : S) (i : I)
      → drive_some n (poll_call combine poll) (waiting_call s) i
        ≡ some (ending waiting_call call_end (drive n poll s i))
  unfolding poll_call
  drive-poll_call n s i =
      drive-ending waiting_call call_end poll (poll_call combine poll)
        (λ t j. call-ending (poll t j)) n s i

-- A future that does not read the input.
abbrev pub plain : {R I F O : Type 0} → (R → R × Poll F O) → TryFuture R I F O
plain poll r i = let (r', polled) = poll r in (r', i, polled)

module _ {S R E F Error A T C O : Type 0} (into : E → Error) (into_action : F → Error)
    (combine : T → A → C) (f : C → R) (args : T) where
  abbrev pub action_end : A → R → Result F O → CallAsyncFuture S R C T × Result Error O
  action_end a r result =
      (record { state = second r; f = f; args = none }, map_err into_action result)

  -- The extractor, and from its output on the action that the function gives.
  abbrev pub call_sequel : Sequel S R (CallAsyncFuture S R C T) E Error F A O O
  call_sequel = record {
    first = λ s. record { state = first s; f = f; args = some args };
    second = λ a r. record { state = second r; f = f; args = none };
    begin = λ a. f (combine args a);
    ended = action_end;
    failed = λ s e. (record { state = first s; f = f; args = some args }, into e);
  }

module _ {I S R E F Error A T C O : Type 0} (into : E → Error) (into_action : F → Error)
    (combine : T → A → C) (poll : TryFuture S I E A) (poll_action : R → R × Poll F O) (f : C → R)
    (args : T) where
  action-closed :
      (a : A) (i : I) (p : R × Poll F O)
      → action_polled into into_action combine poll poll_action f none i p
        ≡ closed (call_sequel into into_action combine f args) (plain poll_action) a (p.0, i, p.1)
  action-closed a i (r, ok (ready o)) = refl
  action-closed a i (r, ok not_ready) = refl
  action-closed a i (r, err e) = refl

  first-opened :
      (p : S × I × Poll E A)
      → first_polled into into_action combine poll poll_action f (some args) p
        ≡ some (one_poll (call_sequel into into_action combine f args) (plain poll_action) p)
  first-opened (s, i, ok (ready a)) = ap some (action-closed a i (poll_action (f (combine args a))))
  first-opened (s, i, ok not_ready) = refl
  first-opened (s, i, err e) = refl

  -- The future of an asynchronous call never panics while it is driven: it polls the extractor until
  -- that is ready, and from that poll on the action that the function gives for the arguments
  -- combined with what was extracted, and ends with the result of the action, or with the error
  -- of the extractor, converted.
  pub drive-poll_call_async :
      (n : ℕ) (s : S) (i : I)
      → drive_some n
          (poll_call_async into into_action combine poll poll_action)
          (record { state = first s; f = f; args = some args })
          i
        ≡ some
            (sequence (call_sequel into into_action combine f args) (plain poll_action) poll n s i)
  unfolding poll_call_async
  drive-poll_call_async n s i =
      drive-sequence (call_sequel into into_action combine f args) (plain poll_action)
        (poll_call_async into into_action combine poll poll_action)
        (λ a r j. ap some (action-closed a j (poll_action r))) poll (λ t j. first-opened (poll t j))
        n s i
