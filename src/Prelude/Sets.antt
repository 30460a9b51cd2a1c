-- ===== src/Prelude/Sets.antt =====
-- Rust's `HashSet` and `IndexSet` as the list of their items, each once, in order of insertion;
-- and names joined by a separator.
use mathlib.Core.Path.{◌≡◌, refl, ap, ◌∙◌}
use mathlib.Core.Logic.{inl, inr}
use mathlib.Core.Bool.{Bool, true, false, ◌||◌}
use mathlib.Core.List.{List, [], ◌∷◌, ◌++◌}
use native.Mathlib.Omega.{arith}
use tsukuyomi.Prelude.Tests.{if◌then◌else◌, Bool-cases}
use tsukuyomi.Prelude.Lists.{Bytes, any}

module _ {ℓ} {A : Type ℓ} (eq : A → A → Bool) where
  abbrev pub set_contains : List A → A → Bool
  set_contains xs x = any (λ y. eq y x) xs

  abbrev pub set_insert : List A → A → List A
  set_insert xs x = if set_contains xs x then xs else xs ++ x ∷ []

  abbrev pub set_extend : List A → List A → List A
  set_extend xs [] = xs
  set_extend xs (y ∷ ys) = set_extend (set_insert xs y) ys

  any-append : (p : A → Bool) (xs ys : List A) → any p (xs ++ ys) ≡ (any p xs || any p ys)
  any-append p [] ys = refl
  any-append p (x ∷ xs) ys = ground (arith, any-append p xs ys)

  -- An item is in a set after an insertion if it is the new one or was there.
  pub contains-insert :
      (xs : List A) (x y : A) → set_contains xs x ≡ true → set_contains (set_insert xs y) x ≡ true
  contains-insert xs x y h = elim (Bool-cases (set_contains xs y)) [
    | inl here ↦ rw here h
    | inr absent ↦
        rw absent (any-append (λ z. eq z x) xs (y ∷ []) ∙ ap (λ b. b || (eq y x || false)) h)
  ]

  pub contains-insert_self :
      (xs : List A) (x : A) → eq x x ≡ true → set_contains (set_insert xs x) x ≡ true
  contains-insert_self xs x same = elim (Bool-cases (set_contains xs x)) [
    | inl here ↦ rw (here, here) refl
    | inr absent ↦ rw absent (any-append (λ z. eq z x) xs (x ∷ []) ∙ (rw (absent, same) refl))
  ]

  -- No item leaves a set that is extended.
  pub contains-extend :
      (xs ys : List A) (x : A) → set_contains xs x ≡ true → set_contains (set_extend xs ys) x ≡ true
  contains-extend xs [] x h = h
  contains-extend xs (y ∷ ys) x h =
      contains-extend (set_insert xs y) ys x (contains-insert xs x y h)

-- Names joined by a separator; the flag is whether a name stands before.
abbrev pub join_sep {ℓ} : {A : Type ℓ} → Bytes → (A → Bytes) → Bool → List A → Bytes
join_sep sep f later [] = []
join_sep sep f later (x ∷ xs) = (if later then sep else []) ++ f x ++ join_sep sep f true xs
