-- ===== src/Session/Respond.antt =====
-- tsukuyomi-session/src/lib.rs: `Session::finish`, which writes the session and then responds.
use tsukuyomi.Prelude.{ℕ, ◌+◌, ◌≡◌, refl, ap, ◌∙◌, Option, none, some, Result, ok, err}
use tsukuyomi.Future.{
  ready, not_ready, Poll, TryFuture, PartialFuture, MaybeDone, done, pending, gone, take_item,
  settled, poll_maybe_done,
}
use tsukuyomi.Future.Drive.{drive}
use tsukuyomi.Future.Ending.{drive_some}
use tsukuyomi.Future.Ends.{sequence-ends}
use tsukuyomi.Future.Sequence.{Sequel, sequence, closed, one_poll, drive-sequence}

pub record SessionRespond (W T A : Type 0) : Type 0 where
  pub write_session : MaybeDone W (Unit {0})
  pub respond : MaybeDone T A

module _ {W T A : Type 0} where
  -- `Session::finish`, of the write of the session and of the respond of the output
  abbrev pub finish : W → T → SessionRespond W T A
  finish w t = record { write_session = pending w; respond = pending t }

module _ {W T I E F Error A : Type 0} (into : E → Error) (into_respond : F → Error)
    (poll_session : TryFuture W I E (Unit {0})) (poll_respond : TryFuture T I F A) where
  -- The two calls of `take_item().expect(..)`
  abbrev pub output_of :
      Option (Unit {0}) → Option A → I → Option (SessionRespond W T A × I × Poll Error A)
  output_of none a i = none
  output_of (some u) none i = none
  output_of (some u) (some a) i =
      some (record { write_session = gone; respond = gone }, i, ok (ready a))

  abbrev pub after_respond :
      MaybeDone W (Unit {0})
      → Option (MaybeDone T A × I × Poll F (Unit {0}))
      → Option (SessionRespond W T A × I × Poll Error A)
  after_respond w none = none
  after_respond w (some (t, i, ok (ready u))) = output_of (take_item w).1 (take_item t).1 i
  after_respond w (some (t, i, ok not_ready)) =
      some (record { write_session = w; respond = t }, i, ok not_ready)
  after_respond w (some (t, i, err f)) =
      some (record { write_session = w; respond = t }, i, err (into_respond f))

  abbrev pub after_write :
      MaybeDone T A
      → Option (MaybeDone W (Unit {0}) × I × Poll E (Unit {0}))
      → Option (SessionRespond W T A × I × Poll Error A)
  after_write t none = none
  after_write t (some (w, i, ok (ready u))) = after_respond w (poll_maybe_done poll_respond t i)
  after_write t (some (w, i, ok not_ready)) =
      some (record { write_session = w; respond = t }, i, ok not_ready)
  after_write t (some (w, i, err e)) =
      some (record { write_session = w; respond = t }, i, err (into e))

  -- `SessionRespond::poll_ready`
  unfoldable pub poll_session_respond : PartialFuture (SessionRespond W T A) I Error A
  unfolding poll_maybe_done take_item
  poll_session_respond s i = after_write s.respond (poll_maybe_done poll_session s.write_session i)

module _ {W T E F Error A : Type 0} (into : E → Error) (into_respond : F → Error) (t0 : T) where
  abbrev pub respond_end : Unit {0} → T → Result F A → SessionRespond W T A × Result Error A
  respond_end u t (ok a) = (record { write_session = gone; respond = gone }, ok a)
  respond_end u t (err f) =
      (record { write_session = done u; respond = pending t }, err (into_respond f))

  -- The write, and then the respond of the output.
  abbrev pub respond_sequel : Sequel W T (SessionRespond W T A) E Error F (Unit {0}) A A
  respond_sequel = record {
    first = λ w. finish w t0;
    second = λ u t. record { write_session = done u; respond = pending t };
    begin = λ u. t0;
    ended = respond_end;
    failed = λ w e. (finish w t0, into e);
  }

module _ {W T I E F Error A : Type 0} (into : E → Error) (into_respond : F → Error)
    (poll_session : TryFuture W I E (Unit {0})) (poll_respond : TryFuture T I F A) (t0 : T) where
  respond-second :
      (u : Unit {0}) (p : T × I × Poll F A)
      → after_respond into into_respond poll_session poll_respond (done u) (settled p)
        ≡ some (closed (respond_sequel into into_respond t0) poll_respond u p)
  unfolding take_item
  respond-second u (t, i, ok (ready a)) = refl
  respond-second u (t, i, ok not_ready) = refl
  respond-second u (t, i, err f) = refl

  respond-first :
      (p : W × I × Poll E (Unit {0}))
      → after_write into into_respond poll_session poll_respond (pending t0) (settled p)
        ≡ some (one_poll (respond_sequel into into_respond t0) poll_respond p)
  unfolding poll_maybe_done
  respond-first (w, i, ok (ready u)) = respond-second u (poll_respond t0 i)
  respond-first (w, i, ok not_ready) = refl
  respond-first (w, i, err e) = refl

  -- Finishing a session never panics while it is driven: the session is written first, and only
  -- from the poll on that ends the write the output responds, with the input as the write left it;
  -- an error of the write ends it before the output is polled.
  drive-finish :
      (n : ℕ) (w : W) (i : I)
      → drive_some n
          (poll_session_respond into into_respond poll_session poll_respond)
          (finish w t0)
          i
        ≡ some (sequence (respond_sequel into into_respond t0) poll_respond poll_session n w i)
  unfolding poll_session_respond poll_maybe_done
  drive-finish n w i =
      drive-sequence (respond_sequel into into_respond t0) poll_respond
        (poll_session_respond into into_respond poll_session poll_respond)
        (λ u t j. respond-second u (poll_respond t j)) poll_session
        (λ v j. respond-first (poll_session v j)) n w i

  -- Where the write of a session ends after `n` polls, and the output, from the input that this
  -- leaves, responds after `m`, finishing the session has given that response after `n + m` polls.
  pub finish-ends :
      (n m : ℕ) (w w' : W) (i j k : I) (t : T) (a : A)
      → drive n poll_session w i ≡ (w', j, ok (ready tt))
      → drive m poll_respond t0 j ≡ (t, k, ok (ready a))
      → drive_some
          (n + m)
          (poll_session_respond into into_respond poll_session poll_respond)
          (finish w t0)
          i
        ≡ some (record { write_session = gone; respond = gone }, k, ok (ready a))
  finish-ends n m w w' i j k t a writes responds =
      drive-finish (n + m) w i
      ∙ ap some (
          sequence-ends (respond_sequel into into_respond t0) poll_respond w' tt j t a k
            poll_session n m w i writes responds)
