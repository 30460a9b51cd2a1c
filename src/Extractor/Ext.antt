-- ===== src/Extractor/Ext.antt =====
-- tsukuyomi/src/extractor/ext.rs: the combinators of extractors. A tuple of outputs is made by
-- `combine`, as `Combine` does.
use tsukuyomi.Prelude.{Option, none, some, Result, ok, err}
use tsukuyomi.Future.{
  ready, not_ready, Poll, TryFuture, PartialFuture, map_poll, map_err, MaybeDone, pending,
  take_item, poll_maybe_done,
}
use tsukuyomi.Extractor.{Extractor, Never}

module _ {E A : Type 0} where
  abbrev pub optional_result : Poll E A → Poll Never (Option A)
  optional_result (ok (ready a)) = ok (ready (some a))
  optional_result (ok not_ready) = ok not_ready
  optional_result (err e) = ok (ready none)

  abbrev pub fallible_result : Poll E A → Poll Never (Result E A)
  fallible_result (ok (ready a)) = ok (ready (ok a))
  fallible_result (ok not_ready) = ok not_ready
  fallible_result (err e) = ok (ready (err e))

module _ {S I E A : Type 0} where
  unfoldable pub poll_optional : TryFuture S I E A → TryFuture S I Never (Option A)
  poll_optional poll s i = let (s', i', polled) = poll s i in (s', i', optional_result polled)

  abbrev pub optional : Extractor S I E A → Extractor S I Never (Option A)
  optional extractor = record { extract = extractor.extract; poll = poll_optional extractor.poll }

  unfoldable pub poll_fallible : TryFuture S I E A → TryFuture S I Never (Result E A)
  poll_fallible poll s i = let (s', i', polled) = poll s i in (s', i', fallible_result polled)

  abbrev pub fallible : Extractor S I E A → Extractor S I Never (Result E A)
  fallible extractor = record { extract = extractor.extract; poll = poll_fallible extractor.poll }

module _ {S I E A B : Type 0} where
  unfoldable pub poll_map : (A → B) → TryFuture S I E A → TryFuture S I E B
  poll_map f poll s i = let (s', i', polled) = poll s i in (s', i', map_poll f polled)

  abbrev pub map_extractor : (A → B) → Extractor S I E A → Extractor S I E B
  map_extractor f extractor = record {
    extract = extractor.extract;
    poll = poll_map f extractor.poll;
  }

module _ {S I E F A : Type 0} where
  unfoldable pub poll_map_err : (E → F) → TryFuture S I E A → TryFuture S I F A
  poll_map_err f poll s i = let (s', i', polled) = poll s i in (s', i', map_err f polled)

  abbrev pub map_err_extractor : (E → F) → Extractor S I E A → Extractor S I F A
  map_err_extractor f extractor = record {
    extract = extractor.extract;
    poll = poll_map_err f extractor.poll;
  }

-- `chain::ChainFuture`
pub record ChainFuture (L R A B : Type 0) : Type 0 where
  pub left : MaybeDone L A
  pub right : MaybeDone R B

module _ {L R A B : Type 0} where
  -- `Chain::extract`
  abbrev pub start_chain : L → R → ChainFuture L R A B
  start_chain l r = record { left = pending l; right = pending r }

module _ {L R I E F Error A B C : Type 0} (into_left : E → Error) (into_right : F → Error)
    (combine : A → B → C) (poll_left : TryFuture L I E A) (poll_right : TryFuture R I F B) where
  abbrev pub after_right :
      MaybeDone L A
      → Option (MaybeDone R B × I × Poll F (Unit {0}))
      → Option (ChainFuture L R A B × I × Poll Error (Unit {0}))
  after_right l none = none
  after_right l (some (r, i, polled)) =
      some (record { left = l; right = r }, i, map_err into_right polled)

  -- `try_ready!` on the left, and then the right
  abbrev pub after_left :
      MaybeDone R B
      → Option (MaybeDone L A × I × Poll E (Unit {0}))
      → Option (ChainFuture L R A B × I × Poll Error (Unit {0}))
  after_left r none = none
  after_left r (some (l, i, ok (ready u))) = after_right l (poll_maybe_done poll_right r i)
  after_left r (some (l, i, ok not_ready)) = some (record { left = l; right = r }, i, ok not_ready)
  after_left r (some (l, i, err e)) = some (record { left = l; right = r }, i, err (into_left e))

  -- `ChainFuture::poll_ready` of its own
  unfoldable pub poll_parts : PartialFuture (ChainFuture L R A B) I Error (Unit {0})
  unfolding poll_maybe_done
  poll_parts s i = after_left s.right (poll_maybe_done poll_left s.left i)

  -- `left.combine(right)`, where both items are there
  abbrev pub combined :
      ChainFuture L R A B
      → I
      → Option A
      → Option B
      → Option (ChainFuture L R A B × I × Poll Error C)
  combined s i (some a) (some b) = some (s, i, ok (ready (combine a b)))
  combined s i (some a) none = none
  combined s i none b = none

  abbrev pub taken : ChainFuture L R A B → ChainFuture L R A B
  taken s = record { left = (take_item s.left).0; right = (take_item s.right).0 }

  -- The `match` on the poll of the parts.
  abbrev pub chain_result :
      Option (ChainFuture L R A B × I × Poll Error (Unit {0}))
      → Option (ChainFuture L R A B × I × Poll Error C)
  chain_result none = none
  chain_result (some (s, i, ok (ready u))) =
      combined (taken s) i (take_item s.left).1 (take_item s.right).1
  chain_result (some (s, i, ok not_ready)) = some (s, i, ok not_ready)
  chain_result (some (s, i, err e)) = some (taken s, i, err e)

  unfoldable pub poll_chain : PartialFuture (ChainFuture L R A B) I Error C
  unfolding poll_parts take_item
  poll_chain s i = chain_result (poll_parts s i)

-- `or::OrFuture`
pub record OrFuture (L R : Type 0) : Type 0 where
  pub left : Option L
  pub right : Option R

module _ {L R I E F Error A : Type 0} (into_left : E → Error) (into_right : F → Error)
    (poll_left : TryFuture L I E A) (poll_right : TryFuture R I F A) where
  -- Only one is left.
  abbrev pub last_left : L × I × Poll E A → Option (OrFuture L R × I × Poll Error A)
  last_left (l, i, polled) =
      some (record { left = some l; right = none }, i, map_err into_left polled)

  abbrev pub last_right : R × I × Poll F A → Option (OrFuture L R × I × Poll Error A)
  last_right (r, i, polled) =
      some (record { left = none; right = some r }, i, map_err into_right polled)

  -- The right, where the left is pending: an error drops it.
  abbrev pub race_right : L → R × I × Poll F A → Option (OrFuture L R × I × Poll Error A)
  race_right l (r, i, ok polled) = some (record { left = some l; right = some r }, i, ok polled)
  race_right l (r, i, err e) = some (record { left = some l; right = none }, i, ok not_ready)

  -- The left, and where it fails the next round of the loop.
  abbrev pub race_left : R → L × I × Poll E A → Option (OrFuture L R × I × Poll Error A)
  race_left r (l, i, ok not_ready) = race_right l (poll_right r i)
  race_left r (l, i, ok (ready a)) =
      some (record { left = some l; right = some r }, i, ok (ready a))
  race_left r (l, i, err e) = last_right (poll_right r i)

  abbrev pub poll_or_parts : Option L → Option R → I → Option (OrFuture L R × I × Poll Error A)
  poll_or_parts (some l) (some r) i = race_left r (poll_left l i)
  poll_or_parts (some l) none i = last_left (poll_left l i)
  poll_or_parts none (some r) i = last_right (poll_right r i)
  poll_or_parts none none i = none

  unfoldable pub poll_or : PartialFuture (OrFuture L R) I Error A
  poll_or s i = poll_or_parts s.left s.right i
