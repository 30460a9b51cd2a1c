-- ===== src/App/BoxedLaws.antt =====
-- tsukuyomi/src/app/config.rs: a boxed handler runs its handle and then the responder's future.
use tsukuyomi.Prelude.{ℕ, zero, suc, ◌+◌, ◌≡◌, refl, ap, ◌∙◌, Result, ok, err, ◌>>=◌, arith}
use tsukuyomi.Future.{ready, not_ready, Poll, TryFuture, map_err}
use tsukuyomi.Future.Drive.{drive, onward}
use tsukuyomi.App.Boxed.{State, first, second, finished, handled, poll_boxed}

zero_add : (n : ℕ) → 0 + n ≡ n
zero_add n = omega arith

suc_add : (k n : ℕ) → suc k + n ≡ suc (k + n)
suc_add k n = omega arith

module _ {S I E A : Type 0} (p : TryFuture S I E A) where
  onward_both :
      (both once next : TryFuture S I E A)
      → ((s : S) (i : I) → both s i ≡ onward next (once s i))
      → (r : S × I × Poll E A) → onward both r ≡ onward next (onward once r)
  onward_both both once next same (s, i, ok not_ready) = same s i
  onward_both both once next same (s, i, ok (ready a)) = refl
  onward_both both once next same (s, i, err e) = refl

  -- So many polls and then more.
  pub drive_add :
      (k n : ℕ) (s : S) (i : I) → drive (k + n) p s i ≡ onward (drive n p) (drive k p s i)
  unfolding drive
  drive_add zero n s i = ap (λ m. drive m p s i) (zero_add n)
  drive_add (suc k) n s i =
      ap (λ m. drive m p s i) (suc_add k n)
      ∙ onward_both (drive (k + n) p) (drive k p) (drive n p) (drive_add k n) (p s i)

module _ {A B I E F G Error X Y Out : Type 0} (into : E → Error) (into_respond : F → Error)
    (into_output : G → Error) (poll_handle : TryFuture A I E X) (respond : X → B)
    (poll_respond : TryFuture B I F Y) (into_response : Y → Result G Out) where
  abbrev pub boxed : TryFuture (State A B) I Error Out
  boxed = poll_boxed into into_respond into_output poll_handle respond poll_respond into_response

  abbrev pub ended : B × I × Poll F Y → State A B × I × Poll Error Out
  ended = finished into into_respond into_output poll_handle respond poll_respond into_response

  onward-end :
      (next : TryFuture (State A B) I Error Out) (s : State A B) (i : I) (result : Result G Out)
      → onward next (s, i, (map_err into_output result >>= λ out. ok (ready out)))
        ≡ (s, i, (map_err into_output result >>= λ out. ok (ready out)))
  onward-end next s i (ok out) = refl
  onward-end next s i (err g) = refl

  onward-ended :
      (outer : TryFuture (State A B) I Error Out) (inner : TryFuture B I F Y)
      → ((b : B) (i : I) → outer (second b) i ≡ ended (inner b i))
      → (r : B × I × Poll F Y) → onward outer (ended r) ≡ ended (onward inner r)
  onward-ended outer inner same (b, i, ok not_ready) = same b i
  onward-ended outer inner same (b, i, ok (ready y)) =
      onward-end outer (second b) i (into_response y)
  onward-ended outer inner same (b, i, err e) = refl

  drive-second :
      (n : ℕ) (b : B) (i : I) → drive n boxed (second b) i ≡ ended (drive n poll_respond b i)
  unfolding drive poll_boxed
  drive-second zero b i = refl
  drive-second (suc n) b i =
      onward-ended (drive n boxed) (drive n poll_respond) (drive-second n) (poll_respond b i)

  onward-pending :
      (outer : TryFuture (State A B) I Error Out) (inner : TryFuture A I E X) (a' : A) (i' : I)
      → ((a : A) (i : I)
          → inner a i ≡ (a', i', ok not_ready)
          → outer (first a) i ≡ (first a', i', ok not_ready))
      → (r : A × I × Poll E X) → onward inner r ≡ (a', i', ok not_ready)
      → onward outer
          (handled into into_respond into_output poll_handle respond poll_respond into_response r)
        ≡ (first a', i', ok not_ready)
  onward-pending outer inner a' i' same (a, i, ok not_ready) e = same a i e
  onward-pending outer inner a' i' same (a, i, ok (ready x)) e = cc
  onward-pending outer inner a' i' same (a, i, err x) e = cc

  drive-first :
      (k : ℕ) (a a' : A) (i i' : I)
      → drive k poll_handle a i ≡ (a', i', ok not_ready)
      → drive k boxed (first a) i ≡ (first a', i', ok not_ready)
  unfolding drive poll_boxed
  drive-first zero a a' i i' e = ap (λ (r : A × I × Poll E X). (first r.0, r.1, ok not_ready)) e
  drive-first (suc k) a a' i i' e =
      onward-pending (drive k boxed) (drive k poll_handle) a' i'
        (λ b j d. drive-first k b a' j i' d) (poll_handle a i) e

  started :
      (n : ℕ) (a a' : A) (i i' : I) (x : X)
      → poll_handle a i ≡ (a', i', ok (ready x))
      → drive (suc n) boxed (first a) i ≡ ended (drive (suc n) poll_respond (respond x) i')
  unfolding drive poll_boxed
  started n a a' i i' x e = rw e (
      onward-ended (drive n boxed) (drive n poll_respond) (drive-second n)
        (poll_respond (respond x) i'))

  -- A boxed handler is pending while its handle is, and in the poll in which that is ready it goes
  -- on with the future of the responder, from the input that the handle left: from there it is driven
  -- as that, and the response is made from its output.
  pub drive-boxed :
      (k n : ℕ) (a a' a'' : A) (i i' i'' : I) (x : X)
      → drive k poll_handle a i ≡ (a', i', ok not_ready)
      → poll_handle a' i' ≡ (a'', i'', ok (ready x))
      → drive (k + suc n) boxed (first a) i ≡ ended (drive (suc n) poll_respond (respond x) i'')
  drive-boxed k n a a' a'' i i' i'' x pending done =
      drive_add boxed k (suc n) (first a) i
      ∙ ap (onward (drive (suc n) boxed)) (drive-first k a a' i i' pending)
      ∙ started n a' a'' i' i'' x done
