-- ===== src/Recognizer/Members.antt =====
-- Members of mapped and appended lists, taken apart.
use tsukuyomi.Prelude.{◌≡◌, refl, ap, ◌⊎◌, inl, inr, List, [], ◌∷◌, ◌++◌, map}
use mathlib.Core.List.{Memᴰ}

module _ {A : Type 0} where
  pub mem-append_split : {y : A} (xs ys : List A) → Memᴰ y (xs ++ ys) → Memᴰ y xs ⊎ Memᴰ y ys
  mem-append_split [] ys m = inr m
  mem-append_split (x ∷ xs) ys (Memᴰ.head e) = inl (Memᴰ.head e)
  mem-append_split (x ∷ xs) ys (Memᴰ.tail m) = elim (mem-append_split xs ys m) [
    | inl k ↦ inl (Memᴰ.tail k)
    | inr k ↦ inr k
  ]

  pub mem-append_left : {y : A} (xs ys : List A) → Memᴰ y xs → Memᴰ y (xs ++ ys)
  mem-append_left xs ys (Memᴰ.head e) = Memᴰ.head e
  mem-append_left xs ys (Memᴰ.tail m) = Memᴰ.tail (mem-append_left _ ys m)

  pub mem-append_right : {y : A} (xs ys : List A) → Memᴰ y ys → Memᴰ y (xs ++ ys)
  mem-append_right [] ys m = m
  mem-append_right (x ∷ xs) ys m = Memᴰ.tail (mem-append_right xs ys m)

pub mem-map_split :
    {A B : Type 0} (f : A → B) {y : B} (xs : List A)
    → Memᴰ y (map f xs)
    → (x : A) × Memᴰ x xs × (y ≡ f x)
mem-map_split f [] m = elim m [ ]
mem-map_split f (x ∷ xs) (Memᴰ.head e) = (x, Memᴰ.head refl, e)
mem-map_split f (x ∷ xs) (Memᴰ.tail m) = let (z, k, e) = mem-map_split f xs m in (z, Memᴰ.tail k, e)

pub mem-map : {A B : Type 0} (f : A → B) {x : A} {xs : List A} → Memᴰ x xs → Memᴰ (f x) (map f xs)
mem-map f (Memᴰ.head e) = Memᴰ.head (ap f e)
mem-map f (Memᴰ.tail m) = Memᴰ.tail (mem-map f m)
