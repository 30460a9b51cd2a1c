-- ===== src/Future.antt =====
-- tsukuyomi/src/future.rs: `TryFuture` and its combinators. A future's state is passed on: a poll
-- returns the state and the input as it leaves them.
use tsukuyomi.Prelude.{ℕ, zero, suc, Option, none, some, Result, ok, err, ◌>>=◌}
pub mod Drive
pub mod Laws
pub mod Done
pub mod Convert
pub mod Ending
pub mod Sequence
pub mod Ends
pub mod Sample

-- `futures01::Async` and `futures01::Poll`
pub data Async {ℓ} (A : Type ℓ) : Type ℓ where
  ready : A → Async A
  not_ready : Async A

abbrev pub Poll {ℓ κ} : Type κ → Type ℓ → Type (ℓ ⊔ κ)
Poll E A = Result E (Async A)

-- `.map(|x| x.map(f))`
abbrev pub map_poll {ℓ κ μ} : {E : Type κ} {A : Type ℓ} {B : Type μ} → (A → B) → Poll E A → Poll E B
map_poll f (ok (ready a)) = ok (ready (f a))
map_poll f (ok not_ready) = ok not_ready
map_poll f (err e) = err e

-- `.map_err(into)`
abbrev pub map_err {ℓ κ μ} :
    {E : Type κ} {F : Type μ} {A : Type ℓ} → (E → F) → Result E A → Result F A
map_err into (ok a) = ok a
map_err into (err e) = err (into e)

-- `TryFuture::poll_ready`
abbrev pub TryFuture : Type 0 → Type 0 → Type 0 → Type 0 → Type 0
TryFuture S I E A = S → I → S × I × Poll E A

-- `tsukuyomi::util::Either`
pub data Either (L R : Type 0) : Type 0 where
  left : L → Either L R
  right : R → Either L R

module _ {I E F Error A B L R : Type 0} where
  -- `TryFuture for Either<L, R>`; the errors go into one type.
  unfoldable pub poll_either :
      (E → Error)
      → (F → Error)
      → TryFuture L I E A
      → TryFuture R I F B
      → TryFuture (Either L R) I Error (Either A B)
  poll_either into_left into_right poll_left poll_right (left s) i =
      let (s', i', polled) = poll_left s i in
      (left s', i', map_err into_left (map_poll left polled))
  poll_either into_left into_right poll_left poll_right (right s) i =
      let (s', i', polled) = poll_right s i in
      (right s', i', map_err into_right (map_poll right polled))

-- A poll that panics is `none`.
abbrev pub PartialFuture : Type 0 → Type 0 → Type 0 → Type 0 → Type 0
PartialFuture S I E A = S → I → Option (S × I × Poll E A)

module _ {I E A : Type 0} where
  -- `oneshot`: the state is the function, until it is taken.
  unfoldable pub poll_oneshot : PartialFuture (Option (I → I × Result E A)) I E A
  poll_oneshot none i = none
  poll_oneshot (some f) i =
      let (i', result) = f i in some (none, i', (result >>= λ a. ok (ready a)))

-- `MaybeDone<F>`
pub data MaybeDone (S A : Type 0) : Type 0 where
  done : A → MaybeDone S A
  pending : S → MaybeDone S A
  gone : MaybeDone S A

module _ {S A : Type 0} where
  -- `MaybeDone::take_item`
  unfoldable pub take_item : MaybeDone S A → MaybeDone S A × Option A
  take_item (done a) = (gone, some a)
  take_item _ = (gone, none)

module _ {S E A : Type 0} where
  -- The assignment of the output after a poll.
  abbrev pub settle : S → Poll E A → MaybeDone S A × Poll E (Unit {0})
  settle s (ok (ready a)) = (done a, ok (ready tt))
  settle s (ok not_ready) = (pending s, ok not_ready)
  settle s (err e) = (pending s, err e)

module _ {S I E A : Type 0} where
  abbrev pub settled : S × I × Poll E A → Option (MaybeDone S A × I × Poll E (Unit {0}))
  settled (s, i, polled) = let (m, polled') = settle s polled in some (m, i, polled')

  unfoldable pub poll_maybe_done : TryFuture S I E A → PartialFuture (MaybeDone S A) I E (Unit {0})
  poll_maybe_done poll (done a) i = some (done a, i, ok (ready tt))
  poll_maybe_done poll (pending s) i = settled (poll s i)
  poll_maybe_done poll gone i = none
