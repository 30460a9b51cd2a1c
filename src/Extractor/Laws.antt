-- ===== src/Extractor/Laws.antt =====
-- tsukuyomi/src/extractor/ext.rs: what driving the combinators of extractors comes to.
use tsukuyomi.Prelude.{ℕ, ◌≡◌, refl, Option, none, some, Result, ok, err}
use tsukuyomi.Future.{
  ready, not_ready, Poll, TryFuture, done, pending, gone, poll_maybe_done, take_item, settled,
}
use tsukuyomi.Future.Drive.{drive}
use tsukuyomi.Future.Convert.{converted, drive-converted}
use tsukuyomi.Future.Ending.{drive_some}
use tsukuyomi.Future.Sequence.{Sequel, sequence, closed, one_poll, drive-sequence}
use tsukuyomi.Extractor.{Never}
use tsukuyomi.Extractor.Ext.{
  optional_result, poll_optional, fallible_result, poll_fallible, ChainFuture, after_right,
  after_left, chain_result, poll_parts, poll_chain, start_chain,
}

module _ {E A : Type 0} where
  -- The result, or nothing where the extractor failed.
  abbrev pub if_ok : Result E A → Result Never (Option A)
  if_ok (ok a) = ok (some a)
  if_ok (err e) = ok none

  -- The result of the extractor as a value, which does not fail.
  abbrev pub as_value : Result E A → Result Never (Result E A)
  as_value result = ok result

module _ {S I E A : Type 0} (poll : TryFuture S I E A) where
  optional-converted :
      (r : S × I × Poll E A)
      → (let (s, i, polled) = r in (s, i, optional_result polled)) ≡ converted if_ok (λ s. s) r
  optional-converted (s, i, ok (ready a)) = refl
  optional-converted (s, i, ok not_ready) = refl
  optional-converted (s, i, err e) = refl

  fallible-converted :
      (r : S × I × Poll E A)
      → (let (s, i, polled) = r in (s, i, fallible_result polled)) ≡ converted as_value (λ s. s) r
  fallible-converted (s, i, ok (ready a)) = refl
  fallible-converted (s, i, ok not_ready) = refl
  fallible-converted (s, i, err e) = refl

  -- An optional extractor is pending as long as the extractor and changes the input as it does; it
  -- then gives the output, or nothing where the extractor failed.
  drive-optional :
      (n : ℕ) (s : S) (i : I)
      → drive n (poll_optional poll) s i ≡ converted if_ok (λ t. t) (drive n poll s i)
  unfolding poll_optional
  drive-optional n s i =
      drive-converted if_ok (λ t. t) poll (poll_optional poll)
        (λ t j. optional-converted (poll t j)) n s i

  -- A fallible extractor is pending as long as the extractor and changes the input as it does; it
  -- then gives the result, an error included, as a value.
  drive-fallible :
      (n : ℕ) (s : S) (i : I)
      → drive n (poll_fallible poll) s i ≡ converted as_value (λ t. t) (drive n poll s i)
  unfolding poll_fallible
  drive-fallible n s i =
      drive-converted as_value (λ t. t) poll (poll_fallible poll)
        (λ t j. fallible-converted (poll t j)) n s i

module _ {L R E F Error A B C : Type 0} (into_left : E → Error) (into_right : F → Error)
    (combine : A → B → C) (r0 : R) where
  abbrev pub chain_ended : A → R → Result F B → ChainFuture L R A B × Result Error C
  chain_ended a r (ok b) = (record { left = gone; right = gone }, ok (combine a b))
  chain_ended a r (err f) = (record { left = gone; right = gone }, err (into_right f))

  -- The left extractor; from its output on the right, which started with the chain.
  abbrev pub chain_sequel : Sequel L R (ChainFuture L R A B) E Error F A B C
  chain_sequel = record {
    first = λ l. start_chain l r0;
    second = λ a r. record { left = done a; right = pending r };
    begin = λ a. r0;
    ended = chain_ended;
    failed = λ l e. (record { left = gone; right = gone }, into_left e);
  }

module _ {L R I E F Error A B C : Type 0} (into_left : E → Error) (into_right : F → Error)
    (combine : A → B → C) (poll_left : TryFuture L I E A) (poll_right : TryFuture R I F B) where
  chain-second :
      (r0 : R) (a : A) (p : R × I × Poll F B)
      → chain_result into_left into_right combine poll_left poll_right
          (after_right into_left into_right combine poll_left poll_right (done a) (settled p))
        ≡ some (closed (chain_sequel into_left into_right combine r0) poll_right a p)
  unfolding take_item
  chain-second r0 a (r, i, ok (ready b)) = refl
  chain-second r0 a (r, i, ok not_ready) = refl
  chain-second r0 a (r, i, err f) = refl

  chain-first :
      (r0 : R) (p : L × I × Poll E A)
      → chain_result into_left into_right combine poll_left poll_right
          (after_left into_left into_right combine poll_left poll_right (pending r0) (settled p))
        ≡ some (one_poll (chain_sequel into_left into_right combine r0) poll_right p)
  unfolding take_item poll_maybe_done
  chain-first r0 (l, i, ok (ready a)) = chain-second r0 a (poll_right r0 i)
  chain-first r0 (l, i, ok not_ready) = refl
  chain-first r0 (l, i, err e) = refl

  -- The chain of two extractors never panics while it is driven: it polls the left extractor until
  -- that is ready, then from that poll on the right one, each with the input as the other left it,
  -- and ends with both outputs combined, or with the first error, converted.
  pub drive-chain :
      (n : ℕ) (l : L) (r : R) (i : I)
      → drive_some n
          (poll_chain into_left into_right combine poll_left poll_right)
          (start_chain l r)
          i
        ≡ some (sequence (chain_sequel into_left into_right combine r) poll_right poll_left n l i)
  unfolding poll_chain poll_parts poll_maybe_done
  drive-chain n l r i =
      drive-sequence (chain_sequel into_left into_right combine r) poll_right
        (poll_chain into_left into_right combine poll_left poll_right)
        (λ a s j. chain-second r a (poll_right s j)) poll_left
        (λ k j. chain-first r (poll_left k j)) n l i
