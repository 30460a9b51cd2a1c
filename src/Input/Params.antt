-- ===== src/Input/Params.antt =====
-- tsukuyomi/src/input/param.rs: `Params`.
use tsukuyomi.Prelude.{
  ℕ, ◌-◌, Bool, true, false, Option, none, some, List, [], ◌∷◌, ◌&&◌, ◌||◌, Bytes, codes, eq_bytes,
  ltb, leb, length, get_elem?, take, drop, if◌then◌else◌,
}
use tsukuyomi.Uri.Names.{CaptureNames, position}
use tsukuyomi.Recognizer.Recognize.{Captures}

pub record Params : Type 0 where
  pub path : Bytes
  pub names : Option CaptureNames
  pub captures : Option Captures

-- `str::is_char_boundary`: the end, or a byte that does not continue a character.
abbrev pub starts_char : Option ℕ → Bool
starts_char none = true
starts_char (some c) = ltb c 128 || leb 192 c

-- `self.path.get(s..e)`
unfoldable pub get_range : Bytes → ℕ → ℕ → Option Bytes
get_range path s e =
    if leb s e
      && leb e (length path)
      && starts_char (get_elem? path s)
      && starts_char (get_elem? path e)
    then some (take (e - s) (drop s path))
    else none

abbrev pub is_none {ℓ} : {A : Type ℓ} → Option A → Bool
is_none none = true
is_none (some a) = false

abbrev pub has_none {ℓ} : {A : Type ℓ} → List A → Bool
has_none [] = true
has_none (x ∷ xs) = false

unfoldable pub is_empty_params : Params → Bool
is_empty_params p = elim p.captures [
  | none ↦ true
  | some c ↦ has_none c.params && is_none c.wildcard
]

-- `let (s, e) = ..?; self.path.get(s..e)`
abbrev pub get_span : Bytes → Option (ℕ × ℕ) → Option Bytes
get_span path none = none
get_span path (some (s, e)) = get_range path s e

abbrev pub param_span_at : Option Captures → ℕ → Option (ℕ × ℕ)
param_span_at none i = none
param_span_at (some c) i = get_elem? c.params i

abbrev pub wildcard_span : Option Captures → Option (ℕ × ℕ)
wildcard_span none = none
wildcard_span (some c) = c.wildcard

unfoldable pub get_param : Params → ℕ → Option Bytes
unfolding get_range
get_param p i = get_span p.path (param_span_at p.captures i)

unfoldable pub catch_all_param : Params → Option Bytes
unfolding get_range
catch_all_param p = get_span p.path (wildcard_span p.captures)

abbrev pub get_at : Params → Option ℕ → Option Bytes
get_at p none = none
get_at p (some i) = get_param p i

abbrev pub position_in : Option CaptureNames → Bytes → Option ℕ
position_in none name = none
position_in (some names) name = position names.params name

-- `Params::name`
unfoldable pub named : Params → Bytes → Option Bytes
unfolding get_param catch_all_param position
named p name =
    if eq_bytes name (codes "*") then catch_all_param p else get_at p (position_in p.names name)
