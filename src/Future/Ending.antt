-- ===== src/Future/Ending.antt =====
-- Futures whose polls may panic, and those that make their end from that of a future inside them,
-- as the calls of tsukuyomi/src/config/endpoint.rs do.
use tsukuyomi.Prelude.{
  ℕ, zero, suc, ◌≡◌, refl, ap, ◌∙◌, Option, none, some, none-some, Result, ok, err,
}
use tsukuyomi.Future.{ready, not_ready, Poll, TryFuture, PartialFuture, map_err}
use tsukuyomi.Future.Drive.{drive, onward}

module _ {S I E A : Type 0} where
  abbrev pub onward_some :
      PartialFuture S I E A → Option (S × I × Poll E A) → Option (S × I × Poll E A)
  onward_some next none = none
  onward_some next (some (s, i, ok not_ready)) = next s i
  onward_some next (some (s, i, ok (ready a))) = some (s, i, ok (ready a))
  onward_some next (some (s, i, err e)) = some (s, i, err e)

  -- At most so many polls, of which none may panic.
  unfoldable pub drive_some : ℕ → PartialFuture S I E A → PartialFuture S I E A
  drive_some zero poll s i = some (s, i, ok not_ready)
  drive_some (suc n) poll s i = onward_some (drive_some n poll) (poll s i)

module _ {S T I E F A B : Type 0} (g : S → T) (finish : S → Result E A → T × Result F B) where
  abbrev pub stop : T × Result F B → I → T × I × Poll F B
  stop (t, ok b) i = (t, i, ok (ready b))
  stop (t, err f) i = (t, i, err f)

  -- What becomes of a poll of the future inside.
  abbrev pub ending : S × I × Poll E A → T × I × Poll F B
  ending (s, i, ok not_ready) = (g s, i, ok not_ready)
  ending (s, i, ok (ready a)) = stop (finish s (ok a)) i
  ending (s, i, err e) = stop (finish s (err e)) i

  onward-stop :
      (outer : PartialFuture T I F B) (x : T × Result F B) (i : I)
      → onward_some outer (some (stop x i)) ≡ some (stop x i)
  onward-stop outer (t, ok b) i = refl
  onward-stop outer (t, err f) i = refl

  pub onward-ending :
      (next : TryFuture S I E A) (outer : PartialFuture T I F B)
      → ((s : S) (i : I) → outer (g s) i ≡ some (ending (next s i)))
      → (r : S × I × Poll E A) → onward_some outer (some (ending r)) ≡ some (ending (onward next r))
  onward-ending next outer same (s, i, ok not_ready) = same s i
  onward-ending next outer same (s, i, ok (ready a)) = onward-stop outer (finish s (ok a)) i
  onward-ending next outer same (s, i, err e) = onward-stop outer (finish s (err e)) i

  -- A future whose polls end so is driven as the future inside: pending as long, with the same
  -- input, and it then ends as is made of the end of that; it does not panic.
  pub drive-ending :
      (poll : TryFuture S I E A) (outer : PartialFuture T I F B)
      → ((s : S) (i : I) → outer (g s) i ≡ some (ending (poll s i)))
      → (n : ℕ) (s : S) (i : I) → drive_some n outer (g s) i ≡ some (ending (drive n poll s i))
  unfolding drive drive_some
  drive-ending poll outer same zero s i = refl
  drive-ending poll outer same (suc n) s i =
      ap (onward_some (drive_some n outer)) (same s i)
      ∙ onward-ending (drive n poll) (drive_some n outer) (drive-ending poll outer same n)
          (poll s i)

module _ {S I E A : Type 0} where
  -- A poll that panics, as the error `none`; nothing polls the future after it.
  abbrev pub caught_poll : S → I → Option (S × I × Poll E A) → S × I × Poll (Option E) A
  caught_poll s i none = (s, i, err none)
  caught_poll s i (some (s', i', polled)) = (s', i', map_err some polled)

  unfoldable pub caught : PartialFuture S I E A → TryFuture S I (Option E) A
  caught poll s i = caught_poll s i (poll s i)

  caught-onward :
      (poll : PartialFuture S I E A) (n : ℕ)
      → ((s : S) (i : I) (result : S × I × Poll E A)
          → drive_some n poll s i ≡ some result
          → drive n (caught poll) s i ≡ caught_poll s i (some result))
      → (s : S) (i : I) (r : Option (S × I × Poll E A)) (result : S × I × Poll E A)
      → onward_some (drive_some n poll) r ≡ some result
      → onward (drive n (caught poll)) (caught_poll s i r) ≡ caught_poll s i (some result)
  caught-onward poll n same s i none result e = absurd (none-some e)
  caught-onward poll n same s i (some (t, j, ok not_ready)) result e = same t j result e
  caught-onward poll n same s i (some (t, j, ok (ready a))) result e = ap (caught_poll s i) e
  caught-onward poll n same s i (some (t, j, err x)) result e = ap (caught_poll s i) e

  -- Where no poll panics, the future is driven to the same end with panics caught.
  pub drive-caught :
      (poll : PartialFuture S I E A) (n : ℕ) (s : S) (i : I) (result : S × I × Poll E A)
      → drive_some n poll s i ≡ some result
      → drive n (caught poll) s i ≡ caught_poll s i (some result)
  unfolding drive drive_some caught
  drive-caught poll zero s i result e = ap (caught_poll s i) e
  drive-caught poll (suc n) s i result e =
      caught-onward poll n (drive-caught poll n) s i (poll s i) result e
