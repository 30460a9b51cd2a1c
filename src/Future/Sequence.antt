-- ===== src/Future/Sequence.antt =====
-- A future that polls one future until it is ready, and from that poll on a second one; polls may
-- panic. Such are the chains and the calls of tsukuyomi/src and the responder of a session.
use tsukuyomi.Prelude.{ℕ, zero, suc, ◌≡◌, refl, ap, ◌∙◌, some, Result, ok, err}
use tsukuyomi.Future.{ready, not_ready, Poll, TryFuture, PartialFuture}
use tsukuyomi.Future.Drive.{drive}
use tsukuyomi.Future.Ending.{onward_some, drive_some, ending, onward-ending, drive-ending}

-- How the states of the two futures are kept, and what is made of their ends.
pub record Sequel (L R T E F G A C B : Type 0) : Type 0 where
  pub first : L → T
  pub second : A → R → T
  pub begin : A → R
  pub ended : A → R → Result G C → T × Result F B
  pub failed : L → E → T × F

module _ {L R T E F G A C B I : Type 0} (q : Sequel L R T E F G A C B)
    (next : TryFuture R I G C) where
  -- What becomes of a poll of the second future.
  abbrev pub closed : A → R × I × Poll G C → T × I × Poll F B
  closed a = ending (q.second a) (q.ended a)

  -- What becomes of a poll of the first, where the second is then driven `n` times.
  abbrev pub opened : (L → I → T × I × Poll F B) → ℕ → L × I × Poll E A → T × I × Poll F B
  opened rest n (l, i, ok not_ready) = rest l i
  opened rest n (l, i, ok (ready a)) = closed a (drive n next (q.begin a) i)
  opened rest n (l, i, err e) = let (t, f) = q.failed l e in (t, i, err f)

  -- Up to `n` polls: the first future until it is ready, and the second from that poll on.
  unfoldable pub sequence : TryFuture L I E A → ℕ → L → I → T × I × Poll F B
  unfolding drive
  sequence poll zero l i = (q.first l, i, ok not_ready)
  sequence poll (suc n) l i = opened (sequence poll n) (suc n) (poll l i)

  -- One poll: of the first future, and of the second where that is ready.
  abbrev pub one_poll : L × I × Poll E A → T × I × Poll F B
  one_poll (l, i, ok not_ready) = (q.first l, i, ok not_ready)
  one_poll (l, i, ok (ready a)) = closed a (next (q.begin a) i)
  one_poll (l, i, err e) = let (t, f) = q.failed l e in (t, i, err f)

  module _ (outer : PartialFuture T I F B)
      (later : (a : A) (r : R) (i : I) → outer (q.second a r) i ≡ some (closed a (next r i))) where
    drive-second :
        (n : ℕ) (a : A) (r : R) (i : I)
        → drive_some n outer (q.second a r) i ≡ some (closed a (drive n next r i))
    drive-second n a r i = drive-ending (q.second a) (q.ended a) next outer (later a) n r i

    module _ (poll : TryFuture L I E A)
        (early : (l : L) (i : I) → outer (q.first l) i ≡ some (one_poll (poll l i))) where
      onward-opened :
          (n : ℕ)
          → ((l : L) (i : I) → drive_some n outer (q.first l) i ≡ some (sequence poll n l i))
          → (r : L × I × Poll E A)
          → onward_some (drive_some n outer) (some (one_poll r))
            ≡ some (opened (sequence poll n) (suc n) r)
      unfolding drive
      onward-opened n same (l, i, ok not_ready) = same l i
      onward-opened n same (l, i, ok (ready a)) =
          onward-ending (q.second a) (q.ended a) (drive n next) (drive_some n outer)
            (drive-second n a) (next (q.begin a) i)
      onward-opened n same (l, i, err e) = refl

      -- A future whose polls are such is driven as the two futures in sequence.
      pub drive-sequence :
          (n : ℕ) (l : L) (i : I) → drive_some n outer (q.first l) i ≡ some (sequence poll n l i)
      unfolding drive_some sequence
      drive-sequence zero l i = refl
      drive-sequence (suc n) l i =
          ap (onward_some (drive_some n outer)) (early l i)
          ∙ onward-opened n (drive-sequence n) (poll l i)
