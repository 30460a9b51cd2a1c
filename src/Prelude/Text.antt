-- ===== src/Prelude/Text.antt =====
-- Rust's `str::trim` and `str::split(',')` on ASCII strings, and `collect` into a `Result`.
use Prim.Native.Nat.{ℕ}
use mathlib.Core.Bool.{Bool, ◌&&◌, ◌||◌}
use mathlib.Core.List.{List, [], ◌∷◌}
use mathlib.Core.Option.{Option, none, some}
use tsukuyomi.Prelude.Tests.{◌==◌, leb, if◌then◌else◌}
use tsukuyomi.Prelude.Lists.{Bytes}
use tsukuyomi.Prelude.Results.{Result, ok, err, ◌>>=◌}

-- `.map(f).collect::<Result<Vec<_>, _>>()`
abbrev pub collect {ℓ κ μ} :
    {A : Type ℓ} {B : Type κ} {E : Type μ} → (A → Result E B) → List A → Result E (List B)
collect f [] = ok []
collect f (x ∷ xs) = f x >>= λ y. (collect f xs >>= λ ys. ok (y ∷ ys))

-- `.ok_or(e)`
abbrev pub or_fail {ℓ κ} : {A : Type ℓ} {E : Type κ} → E → Option A → Result E A
or_fail e none = err e
or_fail e (some a) = ok a

-- White space of an ASCII string: what `str::trim` takes away.
abbrev pub is_space : ℕ → Bool
is_space c = c == 32 || (leb 9 c && leb c 13)

abbrev pub trim_left : Bytes → Bytes
trim_left [] = []
trim_left (c ∷ s) = let rest = trim_left s in if is_space c then rest else c ∷ s

abbrev pub trim_right : Bytes → Bytes
trim_right [] = []
trim_right (c ∷ s) = elim (trim_right s) [
  | [] ↦ if is_space c then [] else c ∷ []
  | d ∷ t ↦ c ∷ d ∷ t
]

-- `str::trim`
abbrev pub trim : Bytes → Bytes
trim s = trim_right (trim_left s)

abbrev pub push_first : ℕ → List Bytes → List Bytes
push_first c [] = (c ∷ []) ∷ []
push_first c (x ∷ xs) = (c ∷ x) ∷ xs

-- `s.split(',')`
unfoldable pub split_comma : Bytes → List Bytes
split_comma [] = [] ∷ []
split_comma (c ∷ s) = let rest = split_comma s in if c == b',' then [] ∷ rest else push_first c rest
