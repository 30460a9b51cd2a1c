-- ===== src/Endpoint/Laws.antt =====
-- tsukuyomi/src/endpoint.rs: a chain applies to the methods that it says it allows.
use tsukuyomi.Prelude.{
  ℕ, ◌≡◌, refl, sym, ap, ◌∙◌, Bool, true, false, Option, none, some, List, [], ◌∷◌, ◌++◌,
  set_contains, set_insert, set_extend, ◌||◌, inl, inr, Bool-cases, Result, ok, err, arith,
}
use tsukuyomi.Http.{Http}
use tsukuyomi.Future.{left, right}
use tsukuyomi.Future.Drive.{drive}
use tsukuyomi.Future.Laws.{through, drive-through}
use tsukuyomi.Handler.{AllowedMethods, from_iter}
use tsukuyomi.Endpoint.{
  Endpoint, left_future, right_future, map_right, or_else, poll_chain, chain_methods, chain,
}

or_false : (b : Bool) → (b || false) ≡ b
or_false true = refl
or_false false = refl

or_true : (b : Bool) → (b || true) ≡ true
or_true true = refl
or_true false = refl

or_assoc : (a b c : Bool) → ((a || b) || c) ≡ (a || (b || c))
or_assoc true b c = refl
or_assoc false b c = refl

module _ {A : Type 0} (eq : A → A → Bool) where
  -- The test of items is an equivalence, as Rust's `Eq` is.
  pub record IsEquivalence : Type 0 where
    pub same : (a : A) → eq a a ≡ true
    pub swap : (a b : A) → eq a b ≡ eq b a
    pub follow : (a b c : A) → eq a b ≡ true → eq b c ≡ eq a c

  contains-append :
      (xs ys : List A) (a : A)
      → set_contains eq (xs ++ ys) a ≡ (set_contains eq xs a || set_contains eq ys a)
  contains-append [] ys a = refl
  contains-append (x ∷ xs) ys a = ground (arith, contains-append xs ys a)

  contains_same :
      IsEquivalence
      → (xs : List A) (a b : A) → eq a b ≡ true
      → set_contains eq xs a ≡ set_contains eq xs b
  contains_same h [] a b e = refl
  contains_same h (x ∷ xs) a b e =
      let step : eq x a ≡ eq x b = h.swap x a ∙ sym (h.follow a b x e) ∙ h.swap b x in
      rw (step, contains_same h xs a b e) refl

  contains-insert_any :
      IsEquivalence
      → (xs : List A) (y a : A)
      → set_contains eq (set_insert eq xs y) a ≡ (set_contains eq xs a || eq y a)
  contains-insert_any h xs y a = elim (Bool-cases (set_contains eq xs y)) [
    | inr absent ↦
        rw absent
          (contains-append xs (y ∷ []) a ∙ ap (λ b. set_contains eq xs a || b) (or_false (eq y a)))
    | inl here ↦ elim (Bool-cases (eq y a)) [
      | inr other ↦ rw (here, other) (sym (or_false (set_contains eq xs a)))
      | inl match ↦
          let there : set_contains eq xs a ≡ true = sym (contains_same h xs y a match) ∙ here in
          rw (here, there) refl
    ]
  ]

  contains-extend_any :
      IsEquivalence
      → (xs ys : List A) (a : A)
      → set_contains eq (set_extend eq xs ys) a ≡ (set_contains eq xs a || set_contains eq ys a)
  contains-extend_any h xs [] a = sym (or_false (set_contains eq xs a))
  contains-extend_any h xs (y ∷ ys) a =
      contains-extend_any h (set_insert eq xs y) ys a
      ∙ ap (λ b. b || set_contains eq ys a) (contains-insert_any h xs y a)
      ∙ or_assoc (set_contains eq xs a) (eq y a) (set_contains eq ys a)

abbrev pub is_ok {ℓ κ} : {E : Type κ} {A : Type ℓ} → Result E A → Bool
is_ok (ok a) = true
is_ok (err e) = false

module _ {Uri Method Name Value Headers : Type 0} (h : Http Uri Method Name Value Headers) where
  -- `None` allows every method.
  abbrev pub allows : Option (AllowedMethods Method) → Method → Bool
  allows none m = true
  allows (some ms) m = set_contains h.eq_method ms m

  module _ {T S I E A : Type 0} where
    -- The endpoint applies to a method if and only if it says that it allows it.
    pub record IsExact (e : Endpoint Method T S I E A) : Type 0 where
      pub exact : (args : T) (m : Method) → is_ok (e.apply args m) ≡ allows e.allowed_methods m

  allows-chain_methods :
      IsEquivalence h.eq_method
      → (l r : Option (AllowedMethods Method)) (m : Method)
      → allows (chain_methods h l r) m ≡ (allows l m || allows r m)
  unfolding chain_methods from_iter
  allows-chain_methods q none r m = refl
  allows-chain_methods q (some ls) none m = sym (or_true (set_contains h.eq_method ls m))
  allows-chain_methods q (some ls) (some rs) m =
      contains-extend_any h.eq_method q [] (ls ++ rs) m ∙ contains-append h.eq_method ls rs m

module _ {T R : Type 0} (L : Type 0) where
  ok-map_right : (result : Result T R) → is_ok (map_right {L = L} result) ≡ is_ok result
  ok-map_right (ok s) = refl
  ok-map_right (err args) = refl

module _ {T L R : Type 0} where
  ok-or_else :
      (result : Result T L) (next : T → Result T R) (b : Bool)
      → ((args : T) → is_ok (next args) ≡ b)
      → is_ok (or_else result next) ≡ (is_ok result || b)
  ok-or_else (ok s) next b same = refl
  ok-or_else (err args) next b same = ok-map_right L (next args) ∙ same args

module _ {Uri Method Name Value Headers T L R I E F Error A B : Type 0}
    (h : Http Uri Method Name Value Headers) (into_left : E → Error) (into_right : F → Error)
    (l : Endpoint Method T L I E A) (r : Endpoint Method T R I F B) where
  -- The chain of two endpoints that apply to exactly the methods they allow is such an endpoint:
  -- it applies to a method if and only if its set of methods, which is missing where one of the
  -- two accepts all, allows it.
  pub chain-IsExact :
      IsEquivalence h.eq_method
      → IsExact h l
      → IsExact h r
      → IsExact h (chain h into_left into_right l r)
  unfolding chain
  chain-IsExact q el er = record {
    exact = λ args m.
        ok-or_else (l.apply args m) (λ args'. r.apply args' m) (allows h r.allowed_methods m)
          (λ args'. er.exact args' m)
        ∙ ap (λ b. b || allows h r.allowed_methods m) (el.exact args m)
        ∙ sym (allows-chain_methods h q l.allowed_methods r.allowed_methods m);
  }

  -- A chain applies with the first of its endpoints where that applies, and its future is then
  -- driven as the future of that: pending as long, with the same input, its result converted.
  drive-chain_left :
      (args : T) (m : Method) (s : L) (n : ℕ) (i : I)
      → l.apply args m ≡ ok s
      → let c = chain h into_left into_right l r in
        (c.apply args m ≡ ok (left_future s))
        × (drive n c.poll (left_future s) i
            ≡ through left_future left into_left (drive n l.poll s i))
  unfolding chain poll_chain
  drive-chain_left args m s n i applies = (
    rw applies refl,
    drive-through left_future left into_left l.poll (poll_chain into_left into_right l.poll r.poll)
        (λ t j. refl) n s i,
  )

  -- Where the first does not apply, the second is asked with the arguments given back, and the
  -- future of the chain is driven as its future.
  drive-chain_right :
      (args args' : T) (m : Method) (s : R) (n : ℕ) (i : I)
      → l.apply args m ≡ err args'
      → r.apply args' m ≡ ok s
      → let c = chain h into_left into_right l r in
        (c.apply args m ≡ ok (right_future s))
        × (drive n c.poll (right_future s) i
            ≡ through right_future right into_right (drive n r.poll s i))
  unfolding chain poll_chain
  drive-chain_right args args' m s n i refuses applies = (
    rw (refuses, applies) refl,
    drive-through right_future right into_right r.poll
        (poll_chain into_left into_right l.poll r.poll) (λ t j. refl) n s i,
  )
