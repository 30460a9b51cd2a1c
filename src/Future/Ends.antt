-- ===== src/Future/Ends.antt =====
-- A future that has ended stays so, and two futures in sequence end where each of them does.
use tsukuyomi.Prelude.{ℕ, zero, suc, ◌+◌, ◌≡◌, sym, ap, ◌∙◌, ok, err, arith}
use tsukuyomi.Future.{ready, not_ready, Poll, TryFuture}
use tsukuyomi.Future.Drive.{drive, onward}
use tsukuyomi.Future.Sequence.{Sequel, sequence, closed, opened}

module _ {S I E A : Type 0} where
  onward-stays :
      (next further : TryFuture S I E A) (p : S × I × Poll E A) (t : S) (j : I) (a : A)
      → ((s : S) (i : I) → next s i ≡ (t, j, ok (ready a)) → further s i ≡ (t, j, ok (ready a)))
      → onward next p ≡ (t, j, ok (ready a))
      → onward further p ≡ (t, j, ok (ready a))
  onward-stays next further (s, i, ok (ready b)) t j a same e = e
  onward-stays next further (s, i, ok not_ready) t j a same e = same s i e
  onward-stays next further (s, i, err x) t j a same e = e

  pub drive-stays :
      (poll : TryFuture S I E A) (k m : ℕ) (s : S) (i : I) (t : S) (j : I) (a : A)
      → drive m poll s i ≡ (t, j, ok (ready a))
      → drive (k + m) poll s i ≡ (t, j, ok (ready a))
  unfolding drive
  drive-stays poll k zero s i t j a e = cc
  drive-stays poll k (suc m) s i t j a e =
      let more : k + suc m ≡ suc (k + m) = omega arith in
      rw more (
        onward-stays (drive m poll) (drive (k + m) poll) (poll s i) t j a
          (λ u h d. drive-stays poll k m u h t j a d) e)

module _ {L R T E F G A C B I : Type 0} (q : Sequel L R T E F G A C B) (next : TryFuture R I G C)
    (l' : L) (a : A) (j : I) (r' : R) (c : C) (k : I) where
  opened-ends :
      (rest : L → I → T × I × Poll F B) (before : TryFuture L I E A) (n : ℕ) (p : L × I × Poll E A)
      → drive n next (q.begin a) j ≡ (r', k, ok (ready c))
      → ((l : L) (i : I)
          → before l i ≡ (l', j, ok (ready a))
          → rest l i ≡ closed q next a (r', k, ok (ready c)))
      → onward before p ≡ (l', j, ok (ready a))
      → opened q next rest n p ≡ closed q next a (r', k, ok (ready c))
  opened-ends rest before n (l, i, ok not_ready) second same e = same l i e
  opened-ends rest before n (l, i, ok (ready b)) second same e =
      let same_a : b ≡ a = cc in
      let same_j : i ≡ j = ap (λ x. x.1) e in rw (same_a, same_j) (ap (closed q next a) second)
  opened-ends rest before n (l, i, err x) second same e = cc

  -- Where the first future ends after `n` polls, and the second, from there, after `m`, the sequence
  -- of the two has ended after `n + m`.
  pub sequence-ends :
      (poll : TryFuture L I E A) (n m : ℕ) (l : L) (i : I)
      → drive n poll l i ≡ (l', j, ok (ready a))
      → drive m next (q.begin a) j ≡ (r', k, ok (ready c))
      → sequence q next poll (n + m) l i ≡ closed q next a (r', k, ok (ready c))
  unfolding drive sequence
  sequence-ends poll zero m l i first second = cc
  sequence-ends poll (suc n) m l i first second =
      let more : suc n + m ≡ suc (n + m) = omega arith in
      rw more (
        opened-ends (sequence q next poll (n + m)) (drive n poll) (suc (n + m)) (poll l i)
          (ap (λ t. drive t next (q.begin a) j) (sym more)
            ∙ drive-stays next (suc n) m (q.begin a) j r' k c second)
          (λ h u d. sequence-ends poll n m h u d second) first)
