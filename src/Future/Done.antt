-- ===== src/Future/Done.antt =====
-- tsukuyomi/src/future.rs: `MaybeDone` keeps the output of its future until it is taken.
use tsukuyomi.Prelude.{◌≡◌, refl, none, some, none-some, ok, err}
use tsukuyomi.Future.{
  ready, not_ready, Poll, TryFuture, MaybeDone, done, pending, gone, take_item, settled,
  poll_maybe_done,
}

module _ {S I E A : Type 0} (poll : TryFuture S I E A) where
  -- The future has given its output: a later poll answers at once, does not touch the future or
  -- the input, and the output is there to be taken, once.
  pub record IsDone (m : MaybeDone S A) (a : A) : Type 0 where
    pub stays : (i : I) → poll_maybe_done poll m i ≡ some (m, i, ok (ready tt))
    pub taken : take_item m ≡ (gone, some a)
    pub once : take_item (take_item m).0 ≡ (gone, none)
    pub after_taken : (i : I) → poll_maybe_done poll (take_item m).0 i ≡ none

  done-IsDone : (a : A) → IsDone (done a) a
  unfolding poll_maybe_done take_item
  done-IsDone a = record { stays = λ i. refl; taken = refl; once = refl; after_taken = λ i. refl }

  settle_ready :
      (r : S × I × Poll E A) (m : MaybeDone S A) (j : I)
      → settled r ≡ some (m, j, ok (ready tt))
      → (a : A) × (done a ≡ m)
  settle_ready (t, j', ok (ready a)) m j e = (a, cc)
  settle_ready (t, j', ok not_ready) m j e = cc
  settle_ready (t, j', err x) m j e = cc

  -- When a poll of a `MaybeDone` is ready, the output is kept: later polls are ready without
  -- polling the future, until the output is taken, which gives it once.
  poll_maybe_done-IsDone :
      (m m' : MaybeDone S A) (i i' : I)
      → poll_maybe_done poll m i ≡ some (m', i', ok (ready tt))
      → (a : A) × IsDone m' a
  unfolding poll_maybe_done
  poll_maybe_done-IsDone (done a) m' i i' e =
      let same : done a ≡ m' = cc in (a, rw (← same) (done-IsDone a))
  poll_maybe_done-IsDone (pending s) m' i i' e =
      let (a, same) = settle_ready (poll s i) m' i' e in (a, rw (← same) (done-IsDone a))
  poll_maybe_done-IsDone gone m' i i' e = absurd (none-some e)
