-- ===== src/Future/Laws.antt =====
-- tsukuyomi/src/future.rs: driving a combined future is driving what it is made of.
use tsukuyomi.Prelude.{ℕ, zero, suc, ◌≡◌, refl, ap, ◌∙◌, ok, err}
use tsukuyomi.Future.{ready, not_ready, Poll, TryFuture, map_poll, map_err}
use tsukuyomi.Future.Drive.{drive, onward}

module _ {S T I E F A B : Type 0} (g : S → T) (f : A → B) (into : E → F) where
  -- What a future makes of the poll of a future inside it.
  abbrev pub through : S × I × Poll E A → T × I × Poll F B
  through (s, i, polled) = (g s, i, map_err into (map_poll f polled))

  onward-through :
      (next : TryFuture S I E A) (outer : TryFuture T I F B)
      → ((s : S) (i : I) → outer (g s) i ≡ through (next s i))
      → (r : S × I × Poll E A) → onward outer (through r) ≡ through (onward next r)
  onward-through next outer same (s, i, ok (ready a)) = refl
  onward-through next outer same (s, i, ok not_ready) = same s i
  onward-through next outer same (s, i, err e) = refl

  -- A future that only passes on the polls of another is driven as that is: it is pending as long,
  -- leaves the same input and ends with the same result, converted.
  pub drive-through :
      (poll : TryFuture S I E A) (outer : TryFuture T I F B)
      → ((s : S) (i : I) → outer (g s) i ≡ through (poll s i))
      → (n : ℕ) (s : S) (i : I) → drive n outer (g s) i ≡ through (drive n poll s i)
  unfolding drive
  drive-through poll outer same zero s i = refl
  drive-through poll outer same (suc n) s i =
      ap (onward (drive n outer)) (same s i)
      ∙ onward-through (drive n poll) (drive n outer) (drive-through poll outer same n) (poll s i)
