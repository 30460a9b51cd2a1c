-- ===== src/Extractor/Race.antt =====
-- tsukuyomi/src/extractor/ext.rs: the race of two extractors, and its errors.
use tsukuyomi.Prelude.{◌≡◌, refl, Option, none, some, ok, err}
use tsukuyomi.Future.{ready, not_ready, Poll, TryFuture}
use tsukuyomi.Extractor.Ext.{OrFuture, last_left, last_right, race_left, race_right, poll_or}

module _ {L R : Type 0} where
  -- One of the two is left.
  pub data IsLive : OrFuture L R → Type 0 where
    both : (l : L) (r : R) → IsLive (record { left = some l; right = some r })
    only_left : (l : L) → IsLive (record { left = some l; right = none })
    only_right : (r : R) → IsLive (record { left = none; right = some r })

module _ {L R I E F Error A : Type 0} (into_left : E → Error) (into_right : F → Error)
    (poll_left : TryFuture L I E A) (poll_right : TryFuture R I F A) where
  -- The left did not answer: it was lost before, is pending, or is lost by its error. The second
  -- state is what is left of it, with the input that it leaves to the right.
  pub data IsPassed : Option L → I → Option L → I → Type 0 where
    lost_before : (i : I) → IsPassed none i none i
    pending :
        (l l' : L) (i j : I)
        → poll_left l i ≡ (l', j, ok not_ready)
        → IsPassed (some l) i (some l') j
    lost_now :
        (l l' : L) (i j : I) (e : E) → poll_left l i ≡ (l', j, err e) → IsPassed (some l) i none j

  -- What a poll of the race comes to, from the polls of the two.
  pub data IsRaced (s : OrFuture L R) (i : I)
      : Option (OrFuture L R × I × Poll Error A) → Type 0 where
    left_wins :
        (l l' : L) (j : I) (a : A)
        → s.left ≡ some l
        → poll_left l i ≡ (l', j, ok (ready a))
        → IsRaced s i (some (record { left = some l'; right = s.right }, j, ok (ready a)))
    right_wins :
        (r r' : R) (lo : Option L) (j k : I) (a : A)
        → s.right ≡ some r
        → IsPassed s.left i lo j
        → poll_right r j ≡ (r', k, ok (ready a))
        → IsRaced s i (some (record { left = lo; right = some r' }, k, ok (ready a)))
    right_pending :
        (r r' : R) (lo : Option L) (j k : I)
        → s.right ≡ some r
        → IsPassed s.left i lo j
        → poll_right r j ≡ (r', k, ok not_ready)
        → IsRaced s i (some (record { left = lo; right = some r' }, k, ok not_ready))
    right_lost :
        (r r' : R) (l : L) (j k : I) (f : F)
        → s.right ≡ some r
        → IsPassed s.left i (some l) j
        → poll_right r j ≡ (r', k, err f)
        → IsRaced s i (some (record { left = some l; right = none }, k, ok not_ready))
    left_pending :
        (l l' : L) (j : I)
        → s.left ≡ some l
        → s.right ≡ none
        → poll_left l i ≡ (l', j, ok not_ready)
        → IsRaced s i (some (record { left = some l'; right = none }, j, ok not_ready))
    left_fails :
        (l l' : L) (j : I) (e : E)
        → s.left ≡ some l
        → s.right ≡ none
        → poll_left l i ≡ (l', j, err e)
        → IsRaced s i (some (record { left = some l'; right = none }, j, err (into_left e)))
    right_fails :
        (r r' : R) (j k : I) (f : F)
        → s.right ≡ some r
        → IsPassed s.left i none j
        → poll_right r j ≡ (r', k, err f)
        → IsRaced s i (some (record { left = none; right = some r' }, k, err (into_right f)))

  last_left-IsRaced :
      (l : L) (i : I) (p : L × I × Poll E A)
      → poll_left l i ≡ p
      → IsRaced
          (record { left = some l; right = none })
          i
          (last_left into_left into_right poll_left poll_right p)
  last_left-IsRaced l i (l', j, ok (ready a)) e = left_wins l l' j a refl e
  last_left-IsRaced l i (l', j, ok not_ready) e = left_pending l l' j refl refl e
  last_left-IsRaced l i (l', j, err x) e = left_fails l l' j x refl refl e

  last_right-IsRaced :
      (lo : Option L) (r : R) (i j : I) (p : R × I × Poll F A)
      → IsPassed lo i none j
      → poll_right r j ≡ p
      → IsRaced
          (record { left = lo; right = some r })
          i
          (last_right into_left into_right poll_left poll_right p)
  last_right-IsRaced lo r i j (r', k, ok (ready a)) h e = right_wins r r' none j k a refl h e
  last_right-IsRaced lo r i j (r', k, ok not_ready) h e = right_pending r r' none j k refl h e
  last_right-IsRaced lo r i j (r', k, err f) h e = right_fails r r' j k f refl h e

  race_right-IsRaced :
      (lo : Option L) (l : L) (r : R) (i j : I) (p : R × I × Poll F A)
      → IsPassed lo i (some l) j
      → poll_right r j ≡ p
      → IsRaced
          (record { left = lo; right = some r })
          i
          (race_right into_left into_right poll_left poll_right l p)
  race_right-IsRaced lo l r i j (r', k, ok (ready a)) h e = right_wins r r' (some l) j k a refl h e
  race_right-IsRaced lo l r i j (r', k, ok not_ready) h e = right_pending r r' (some l) j k refl h e
  race_right-IsRaced lo l r i j (r', k, err f) h e = right_lost r r' l j k f refl h e

  race_left-IsRaced :
      (l : L) (r : R) (i : I) (p : L × I × Poll E A)
      → poll_left l i ≡ p
      → IsRaced
          (record { left = some l; right = some r })
          i
          (race_left into_left into_right poll_left poll_right r p)
  race_left-IsRaced l r i (l', j, ok (ready a)) e = left_wins l l' j a refl e
  race_left-IsRaced l r i (l', j, ok not_ready) e =
      race_right-IsRaced (some l) l' r i j (poll_right r j) (pending l l' i j e) refl
  race_left-IsRaced l r i (l', j, err x) e =
      last_right-IsRaced (some l) r i j (poll_right r j) (lost_now l l' i j x e) refl

  -- A poll of a race of which one extractor is left does not panic. The left is polled first, and
  -- the right where the left does not answer; the first output ends the race. The race is pending
  -- with the ones that did not fail left, and it fails only where no other is left, with the error
  -- of that last one.
  pub poll_or-IsRaced :
      (s : OrFuture L R) (i : I)
      → IsLive s
      → IsRaced s i (poll_or into_left into_right poll_left poll_right s i)
  unfolding poll_or
  poll_or-IsRaced s i (both l r) = race_left-IsRaced l r i (poll_left l i) refl
  poll_or-IsRaced s i (only_left l) = last_left-IsRaced l i (poll_left l i) refl
  poll_or-IsRaced s i (only_right r) =
      last_right-IsRaced none r i i (poll_right r i) (lost_before i) refl
