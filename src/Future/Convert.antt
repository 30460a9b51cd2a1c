-- ===== src/Future/Convert.antt =====
-- Futures that turn the result of a future inside them into another, as those of
-- tsukuyomi/src/extractor/ext.rs do.
use tsukuyomi.Prelude.{ℕ, zero, suc, ◌≡◌, refl, ap, ◌∙◌, Result, ok, err, ◌>>=◌}
use tsukuyomi.Future.{ready, not_ready, Poll, TryFuture}
use tsukuyomi.Future.Drive.{drive, onward}

module _ {E F A B : Type 0} (turn : Result E A → Result F B) where
  abbrev pub at_once : Result F B → Poll F B
  at_once result = result >>= λ b. ok (ready b)

  -- What becomes of a poll: a pending one stays pending.
  abbrev pub turned : Poll E A → Poll F B
  turned (ok not_ready) = ok not_ready
  turned (ok (ready a)) = at_once (turn (ok a))
  turned (err e) = at_once (turn (err e))

  module _ {S T I : Type 0} (g : S → T) where
    abbrev pub converted : S × I × Poll E A → T × I × Poll F B
    converted (s, i, polled) = (g s, i, turned polled)

    onward-end :
        (next : TryFuture T I F B) (t : T) (i : I) (result : Result F B)
        → onward next (t, i, at_once result) ≡ (t, i, at_once result)
    onward-end next t i (ok b) = refl
    onward-end next t i (err f) = refl

    onward-converted :
        (next : TryFuture S I E A) (outer : TryFuture T I F B)
        → ((s : S) (i : I) → outer (g s) i ≡ converted (next s i))
        → (r : S × I × Poll E A) → onward outer (converted r) ≡ converted (onward next r)
    onward-converted next outer same (s, i, ok (ready a)) = onward-end outer (g s) i (turn (ok a))
    onward-converted next outer same (s, i, ok not_ready) = same s i
    onward-converted next outer same (s, i, err e) = onward-end outer (g s) i (turn (err e))

    -- A future that converts the result of another is driven as that is: pending as long, with the
    -- same input, and its result is the converted one.
    pub drive-converted :
        (poll : TryFuture S I E A) (outer : TryFuture T I F B)
        → ((s : S) (i : I) → outer (g s) i ≡ converted (poll s i))
        → (n : ℕ) (s : S) (i : I) → drive n outer (g s) i ≡ converted (drive n poll s i)
    unfolding drive
    drive-converted poll outer same zero s i = refl
    drive-converted poll outer same (suc n) s i =
        ap (onward (drive n outer)) (same s i)
        ∙ onward-converted (drive n poll) (drive n outer) (drive-converted poll outer same n)
            (poll s i)
