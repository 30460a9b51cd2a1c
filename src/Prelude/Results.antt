-- ===== src/Prelude/Results.antt =====
-- Results with an error type, for Rust's `Result` and its `?`.
use mathlib.Core.Path.{◌≡◌, refl}
use mathlib.Core.Option.{none, some}
use mathlib.Core.Logic.{◌⊎◌, inl, inr}
use mathlib.Core.Bool.{true, false}

pub data Result {ℓ κ} (E : Type κ) (A : Type ℓ) : Type (ℓ ⊔ κ) where
  ok : A → Result E A
  err : E → Result E A

infixl 5 ◌>>=◌
abbrev pub ◌>>=◌ {ℓ κ μ} :
    {E : Type κ} {A : Type ℓ} {B : Type μ} → Result E A → (A → Result E B) → Result E B
ok a >>= f = f a
err e >>= f = err e

pub Result-cases {ℓ κ} :
    {E : Type κ} {A : Type ℓ} (r : Result E A) → ((e : E) × (r ≡ err e)) ⊎ ((a : A) × (r ≡ ok a))
Result-cases (ok a) = inr (a, refl)
Result-cases (err e) = inl (e, refl)

-- A chain with `?` that ends well has passed its first step.
pub passed {ℓ κ μ} :
    {E : Type κ} {A : Type ℓ} {B : Type μ} (step : Result E A) (rest : A → Result E B) {out : B}
    → (step >>= rest) ≡ ok out
    → (value : A) × (step ≡ ok value) × (rest value ≡ ok out)
passed (err e) rest ends = cc
passed (ok value) rest ends = (value, refl, ends)

pub none-some {ℓ} : {A : Type ℓ} {x : A} → none ≡ some x → ⊥
none-some e = cc

pub some_injective {ℓ} : {A : Type ℓ} {x y : A} → some x ≡ some y → x ≡ y
some_injective e = cc

pub false-true : false ≡ true → ⊥
false-true e = cc
