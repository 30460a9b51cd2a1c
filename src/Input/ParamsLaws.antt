-- ===== src/Input/ParamsLaws.antt =====
-- tsukuyomi/src/input/param.rs: the captures of a route are parts of the request's path.
use tsukuyomi.Prelude.{
  ℕ, zero, suc, ◌+◌, ◌-◌, ◌≤◌, ◌<◌, ◌≡◌, refl, ap, ◌∙◌, subst, true, Option, none, some,
  some_injective, List, [], ◌∷◌, ◌++◌, All, Bytes, leb, length, length-drop, get_elem?, take, drop,
  arith,
}
use tsukuyomi.Recognizer.Recognize.{Captures, is_slash, push_param, set_wildcard, get_captures}
use tsukuyomi.Recognizer.Routes.{Token, byte, any_segment, any_rest}
use tsukuyomi.Uri.Names.{CaptureNames}
use tsukuyomi.Recognizer.Table.{is_ascii}
use tsukuyomi.Recognizer.Safety.{get_elem?_lt}
use tsukuyomi.Recognizer.Matching.{segment, Matches, captured}
use tsukuyomi.Recognizer.WildcardLaws.{span-le}
use tsukuyomi.Input.Params.{get_range, starts_char, get_span, param_span_at, get_param}

abbrev pub InRange : ℕ → ℕ × ℕ → Type 0
InRange size (s, e) = (s < e) × (e ≤ size)

-- How many parameters a route has.
abbrev pub params_in : List Token → ℕ
params_in [] = 0
params_in (any_segment ∷ ts) = suc (params_in ts)
params_in (byte b ∷ ts) = params_in ts
params_in (any_rest ∷ ts) = params_in ts

-- The parameters that are captured: so many, all in the path.
abbrev pub Fits : ℕ → ℕ → Option Captures → Type 0
Fits size count captures =
    All (InRange size) (get_captures captures).params
    × (length (get_captures captures).params ≡ count)

All-snoc :
    (size : ℕ) (xs : List (ℕ × ℕ)) (x : ℕ × ℕ)
    → All (InRange size) xs
    → InRange size x
    → All (InRange size) (xs ++ x ∷ [])
All-snoc size [] x h fits = (fits, tt)
All-snoc size (y ∷ xs) x (p, h) fits = (p, All-snoc size xs x h fits)

length-snoc : (xs : List (ℕ × ℕ)) (x : ℕ × ℕ) → length (xs ++ x ∷ []) ≡ length xs + 1
length-snoc [] x = omega arith
length-snoc (y ∷ xs) x = omega (arith, length-snoc xs x)

push-Fits :
    (size count s e : ℕ) (captures : Option Captures)
    → Fits size count captures
    → s < e
    → e ≤ size
    → Fits size (count + 1) (push_param s e captures)
push-Fits size count s e captures (ranges, same) order bound = (
  All-snoc size (get_captures captures).params (s, e) ranges (order, bound),
  length-snoc (get_captures captures).params (s, e) ∙ ap (λ n. n + 1) same,
)

-- The captures of a match are spans of the path, one for each parameter of the route.
captured-Fits :
    (ts : List Token) (p : Bytes) (size count offset : ℕ) (captures : Option Captures)
    → Matches ts p
    → offset + length p ≡ size
    → Fits size count captures
    → Fits size (count + params_in ts) (captured size ts p offset captures)
captured-Fits [] p size count offset captures m at h =
    let e : count ≡ count + 0 = omega arith in subst (λ n. Fits size n captures) e h
captured-Fits (byte b ∷ ts) [] size count offset captures m at h = absurd m
captured-Fits (byte b ∷ ts) (c ∷ p) size count offset captures (same, m) at h =
    captured-Fits ts p size count (offset + 1) captures m (omega (arith, at)) h
captured-Fits (any_segment ∷ ts) p size count offset captures (full, m) at h =
    let under = span-le is_slash p in
    let rest = length-drop (segment p) p in
    let e : count + 1 + params_in ts ≡ count + suc (params_in ts) = omega arith in
    subst
      (λ n. Fits size n (
        captured size ts (drop (segment p) p) (offset + segment p)
          (push_param offset (offset + segment p) captures)))
      e
      (captured-Fits ts (drop (segment p) p) size (count + 1) (offset + segment p)
        (push_param offset (offset + segment p) captures) m (omega (arith, at, under, rest))
        (push-Fits size count offset (offset + segment p) captures h (omega (arith, full))
          (omega (arith, at, under))))
captured-Fits (any_rest ∷ ts) p size count offset captures (last, full) at h =
    let none_after : params_in ts ≡ 0 = ap params_in last in
    let e : count ≡ count + params_in ts = omega (arith, none_after) in
    subst (λ n. Fits size n (set_wildcard offset size captures)) e h

starts_char-ascii :
    (path : Bytes) (i : ℕ) → is_ascii path ≡ true → starts_char (get_elem? path i) ≡ true
starts_char-ascii [] i h = refl
starts_char-ascii (c ∷ path) zero h = ground arith
starts_char-ascii (c ∷ path) (suc i) h =
    let rest : is_ascii path ≡ true = ground arith in starts_char-ascii path i rest

length-take-drop :
    (n s : ℕ) (path : Bytes) → s + n ≤ length path → length (take n (drop s path)) ≡ n
length-take-drop zero s path h = refl
length-take-drop (suc n) zero [] h = absurd (omega (arith, h))
length-take-drop (suc n) zero (c ∷ path) h =
    omega (arith, length-take-drop n zero path (omega (arith, h)))
length-take-drop (suc n) (suc s) [] h = absurd (omega (arith, h))
length-take-drop (suc n) (suc s) (c ∷ path) h = length-take-drop (suc n) s path (omega (arith, h))

get_range-fits :
    (path : Bytes) (s e : ℕ)
    → is_ascii path ≡ true
    → s < e
    → e ≤ length path
    → (v : Bytes) × (get_range path s e ≡ some v) × (length v ≡ e - s)
unfolding get_range
get_range-fits path s e ascii order bound =
    let low : leb s e ≡ true = ground arith in
    let high : leb e (length path) ≡ true = ground arith in
    (
      take (e - s) (drop s path),
      rw (low, high, starts_char-ascii path s ascii, starts_char-ascii path e ascii, get_range)
          refl,
      length-take-drop (e - s) s path (omega (arith, order, bound)),
    )

All-at :
    (size : ℕ) (xs : List (ℕ × ℕ)) (i : ℕ) {x : ℕ × ℕ}
    → All (InRange size) xs
    → get_elem? xs i ≡ some x
    → InRange size x
All-at size [] i h e = cc
All-at size (y ∷ xs) zero (p, h) e = subst (InRange size) (some_injective e) p
All-at size (y ∷ xs) (suc i) (p, h) e = All-at size xs i h e

param_span_at-captured :
    (captures : Option Captures) (i : ℕ) {x : ℕ × ℕ}
    → get_elem? (get_captures captures).params i ≡ some x
    → param_span_at captures i ≡ some x
param_span_at-captured none i e = cc
param_span_at-captured (some c) i e = e

-- Every parameter of a route has a value, which is not empty, in the captures of a request whose
-- path of ASCII bytes matches the route: no range is out of the path.
pub get_param-captured :
    (ts : List Token) (path : Bytes) (names : Option CaptureNames) (i : ℕ)
    → is_ascii path ≡ true
    → Matches ts path
    → i < params_in ts
    → (v : Bytes) × (get_param
          (record { path = path; names = names; captures = captured (length path) ts path 0 none })
          i
        ≡ some v)
      × (0 < length v)
unfolding get_param
get_param-captured ts path names i ascii m below =
    let captures = captured (length path) ts path 0 none in
    let (ranges, count) = captured-Fits ts path (length path) 0 0 none m (omega arith) (tt, refl) in
    let ((s, e), at) =
      get_elem?_lt (get_captures captures).params i (omega (arith, below, count)) in
    let (order, bound) = All-at (length path) (get_captures captures).params i ranges at in
    let (v, found, size) = get_range-fits path s e ascii order bound in
    (
      v,
      ap (get_span path) (param_span_at-captured captures i at) ∙ found,
      omega (arith, order, size),
    )
