-- ===== src/Future/Sample.antt =====
-- A small future, for runs: it is pending once, adds one to its input, and then gives its number.
use tsukuyomi.Prelude.{ℕ, ◌+◌, Bool, true, false, ok, err}
use tsukuyomi.Future.{ready, not_ready, TryFuture}

abbrev pub poll_twice : TryFuture (Bool × ℕ) ℕ ℕ ℕ
poll_twice (false, n) i = ((true, n), i + 1, ok not_ready)
poll_twice (true, n) i = ((true, n), i, ok (ready n))

-- It fails with its number.
abbrev pub poll_failing : TryFuture ℕ ℕ ℕ ℕ
poll_failing n i = (n, i + 1, err n)
