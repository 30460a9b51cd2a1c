-- ===== src/Recognizer/Inserted.antt =====
-- One list is another with one more item, the other items in their order.
use tsukuyomi.Prelude.{◌≡◌, List, [], ◌∷◌, ◌++◌, map, ◌⊎◌, inl, inr, refl}
use mathlib.Core.List.{Memᴰ}

module _ {A : Type 0} where
  pub data Inserted (x : A) : List A → List A → Type 0 where
    here : {xs : List A} → Inserted x xs (x ∷ xs)
    there : {y : A} {xs ys : List A} → Inserted x xs ys → Inserted x (y ∷ xs) (y ∷ ys)

  pub Inserted-end : (x : A) (xs : List A) → Inserted x xs (xs ++ x ∷ [])
  Inserted-end x [] = here
  Inserted-end x (y ∷ xs) = there (Inserted-end x xs)

  pub Inserted-append_left :
      {x : A} {xs ys : List A} (zs : List A) → Inserted x xs ys → Inserted x (zs ++ xs) (zs ++ ys)
  Inserted-append_left [] h = h
  Inserted-append_left (z ∷ zs) h = there (Inserted-append_left zs h)

  pub Inserted-append_right :
      {x : A} {xs ys : List A} (zs : List A) → Inserted x xs ys → Inserted x (xs ++ zs) (ys ++ zs)
  Inserted-append_right zs here = here
  Inserted-append_right zs (there h) = there (Inserted-append_right zs h)

  pub Inserted-mem : {x : A} {xs ys : List A} → Inserted x xs ys → Memᴰ x ys
  Inserted-mem here = Memᴰ.head refl
  Inserted-mem (there h) = Memᴰ.tail (Inserted-mem h)

  pub Inserted-keeps : {x y : A} {xs ys : List A} → Inserted x xs ys → Memᴰ y xs → Memᴰ y ys
  Inserted-keeps here m = Memᴰ.tail m
  Inserted-keeps (there h) (Memᴰ.head e) = Memᴰ.head e
  Inserted-keeps (there h) (Memᴰ.tail m) = Memᴰ.tail (Inserted-keeps h m)

  pub Inserted-only :
      {x y : A} {xs ys : List A} → Inserted x xs ys → Memᴰ y ys → (y ≡ x) ⊎ Memᴰ y xs
  Inserted-only here (Memᴰ.head e) = inl e
  Inserted-only here (Memᴰ.tail m) = inr m
  Inserted-only (there h) (Memᴰ.head e) = inr (Memᴰ.head e)
  Inserted-only (there h) (Memᴰ.tail m) = elim (Inserted-only h m) [
    | inl e ↦ inl e
    | inr m' ↦ inr (Memᴰ.tail m')
  ]

pub Inserted-map :
    {A B : Type 0} (f : A → B) {x : A} {xs ys : List A}
    → Inserted x xs ys
    → Inserted (f x) (map f xs) (map f ys)
Inserted-map f here = here
Inserted-map f (there h) = there (Inserted-map f h)
