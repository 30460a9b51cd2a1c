-- ===== src/Cors/HandleLaws.antt =====
-- tsukuyomi-cors/src/lib.rs: `CORSHandle` checks a request once and then is the handle inside.
use tsukuyomi.Prelude.{ℕ, suc, ◌≡◌, refl, ap, ◌∙◌, Option, none, some, Result, ok, err}
use tsukuyomi.Http.{Http}
use tsukuyomi.Input.{Request, Input, Response}
use tsukuyomi.Future.{ready, Poll, TryFuture, Either, left, right}
use tsukuyomi.Future.Drive.{drive, onward}
use tsukuyomi.Future.Laws.{through, drive-through}
use tsukuyomi.Cors.Builder.{Inner}
use tsukuyomi.Cors.Check.{CorsErrorKind, process_request}
use tsukuyomi.Cors.Handle.{CorsHandle, after_request, poll_cors_handle}

module _ {Uri Method Name Value Headers Error S E A Rest : Type 0}
    (h : Http Uri Method Name Value Headers) (from_cors : CorsErrorKind → Error) (into : E → Error)
    (cors : Inner Uri Method Name Value)
    (poll : Request Method Headers → TryFuture S (Input Headers Rest) E A)
    (request : Request Method Headers) where
  abbrev Checked : Type 0
  Checked = CorsHandle (Inner Uri Method Name Value) S

  -- A handle whose request has been checked, and one whose request has not.
  abbrev pub checked : S → Checked
  checked s = record { cors = none; handle = s }

  abbrev pub unchecked : S → Checked
  unchecked s = record { cors = some cors; handle = s }

  abbrev pub outer : TryFuture Checked (Input Headers Rest) Error (Either (Response Headers) A)
  outer = poll_cors_handle h from_cors into poll request

  checked-poll :
      (s : S) (input : Input Headers Rest)
      → outer (checked s) input ≡ through checked right into (poll request s input)
  unfolding poll_cors_handle
  checked-poll s input = refl

  first-poll :
      (s : S) (input input' : Input Headers Rest)
      → process_request h cors request input ≡ (input', ok none)
      → outer (unchecked s) input ≡ outer (checked s) input'
  unfolding poll_cors_handle
  first-poll s input input' passed =
      ap (after_request h from_cors into (poll request) (checked s)) passed

  first-answer :
      (s : S) (input input' : Input Headers Rest) (r : Response Headers)
      → process_request h cors request input ≡ (input', ok (some r))
      → outer (unchecked s) input ≡ (checked s, input', ok (ready (left r)))
  unfolding poll_cors_handle
  first-answer s input input' r answered =
      ap (after_request h from_cors into (poll request) (checked s)) answered

  first-refusal :
      (s : S) (input input' : Input Headers Rest) (e : CorsErrorKind)
      → process_request h cors request input ≡ (input', err e)
      → outer (unchecked s) input ≡ (checked s, input', err (from_cors e))
  unfolding poll_cors_handle
  first-refusal s input input' e refused =
      ap (after_request h from_cors into (poll request) (checked s)) refused

  -- What driving the handle comes to, from the outcome of the check.
  abbrev pub after_check :
      ℕ
      → S
      → Input Headers Rest × Result CorsErrorKind (Option (Response Headers))
      → Checked × Input Headers Rest × Poll Error (Either (Response Headers) A)
  after_check n s (input', err e) = (checked s, input', err (from_cors e))
  after_check n s (input', ok (some r)) = (checked s, input', ok (ready (left r)))
  after_check n s (input', ok none) = through checked right into (drive n (poll request) s input')

  -- However often the handle is polled, the request is checked once, at first; if the check lets it
  -- past, the handle inside is driven from the input that the check leaves, as often.
  pub drive-cors_handle :
      (n : ℕ) (s : S) (input : Input Headers Rest)
      → drive (suc n) outer (unchecked s) input
        ≡ after_check (suc n) s (process_request h cors request input)
  unfolding drive
  drive-cors_handle n s input = split_result (process_request h cors request input) refl
    where
      split_result :
          (r : Input Headers Rest × Result CorsErrorKind (Option (Response Headers)))
          → process_request h cors request input ≡ r
          → drive (suc n) outer (unchecked s) input ≡ after_check (suc n) s r
      split_result (input', err e) same =
          ap (onward (drive n outer)) (first-refusal s input input' e same)
      split_result (input', ok (some r)) same =
          ap (onward (drive n outer)) (first-answer s input input' r same)
      split_result (input', ok none) same =
          ap (onward (drive n outer)) (first-poll s input input' same)
          ∙ drive-through checked right into (poll request) outer checked-poll (suc n) s input'
