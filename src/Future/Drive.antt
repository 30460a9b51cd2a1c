-- ===== src/Future/Drive.antt =====
-- Polling a future again and again, as an executor does with one of tsukuyomi/src/future.rs.
use tsukuyomi.Prelude.{ℕ, zero, suc, ok, err}
use tsukuyomi.Future.{ready, not_ready, Poll, TryFuture}

module _ {S I E A : Type 0} where
  -- The next poll is made while the future is pending.
  abbrev pub onward : TryFuture S I E A → S × I × Poll E A → S × I × Poll E A
  onward next (s, i, ok not_ready) = next s i
  onward next (s, i, ok (ready a)) = (s, i, ok (ready a))
  onward next (s, i, err e) = (s, i, err e)

  -- At most so many polls; `not_ready` means that the future was pending after each of them.
  unfoldable pub drive : ℕ → TryFuture S I E A → TryFuture S I E A
  drive zero poll s i = (s, i, ok not_ready)
  drive (suc n) poll s i = onward (drive n poll) (poll s i)
