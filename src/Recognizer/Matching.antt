-- ===== src/Recognizer/Matching.antt =====
-- When a request path matches a route, and the captures that it then has: the specification of
-- `RecognizeContext`, by recursion on the route's tokens and with no tree in it.
use tsukuyomi.Prelude.{
  ℕ, suc, ◌+◌, ◌<◌, ◌≡◌, ◌≢◌, refl, ap, ◌∙◌, Option, List, [], ◌∷◌, ◌++◌, map, Bytes, length, drop,
  span_until, arith,
}
use tsukuyomi.Recognizer.Recognize.{Captures, is_slash, push_param, set_wildcard}
use tsukuyomi.Recognizer.Routes.{Token, byte, any_segment, any_rest}

abbrev pub segment : Bytes → ℕ
segment p = span_until is_slash p

-- A parameter takes the bytes up to the next slash, at least one; a catch-all takes all that is
-- left, at least one.
abbrev pub Matches : List Token → Bytes → Type 0
Matches [] [] = Unit
Matches [] (c ∷ p) = ⊥
Matches (byte b ∷ ts) [] = ⊥
Matches (byte b ∷ ts) (c ∷ p) = (c ≡ b) × Matches ts p
Matches (any_segment ∷ ts) p = (0 < segment p) × Matches ts (drop (segment p) p)
Matches (any_rest ∷ ts) p = (ts ≡ []) × (0 < length p)

-- The captures of a match that begins at an offset of a path of length `size`.
abbrev pub captured : ℕ → List Token → Bytes → ℕ → Option Captures → Option Captures
captured size [] p offset captures = captures
captured size (byte b ∷ ts) p offset captures = captured size ts (drop 1 p) (offset + 1) captures
captured size (any_segment ∷ ts) p offset captures =
    captured size ts (drop (segment p) p) (offset + segment p)
      (push_param offset (offset + segment p) captures)
captured size (any_rest ∷ ts) p offset captures = set_wildcard offset size captures

-- Text is matched by itself.
pub Matches-byte_split :
    (s : Bytes) (us : List Token) (p : Bytes)
    → Matches (map byte s ++ us) p
    → (q : Bytes) × (p ≡ s ++ q) × Matches us q
Matches-byte_split [] us p h = (p, refl, h)
Matches-byte_split (b ∷ s) us [] h = absurd h
Matches-byte_split (b ∷ s) us (c ∷ p) (e, h) =
    let (q, same, m) = Matches-byte_split s us p h in (q, cc, m)

pub captured-byte_append :
    (size : ℕ) (s : Bytes) (us : List Token) (q : Bytes) (offset : ℕ) (captures : Option Captures)
    → captured size (map byte s ++ us) (s ++ q) offset captures
      ≡ captured size us q (offset + length s) captures
captured-byte_append size [] us q offset captures =
    let e : offset ≡ offset + 0 = omega arith in ap (λ o. captured size us q o captures) e
captured-byte_append size (b ∷ s) us q offset captures =
    let e : offset + 1 + length s ≡ offset + suc (length s) = omega arith in
    captured-byte_append size s us q (offset + 1) captures
    ∙ ap (λ o. captured size us q o captures) e

-- Only the empty pattern matches the empty path.
pub Matches-nil : (ts : List Token) → Matches ts [] → ts ≡ []
Matches-nil [] h = refl
Matches-nil (byte b ∷ ts) h = absurd h
Matches-nil (any_segment ∷ ts) h = absurd (omega arith)
Matches-nil (any_rest ∷ ts) h = absurd (omega arith)

pub Matches-cons : (ts : List Token) (c : ℕ) (p : Bytes) → Matches ts (c ∷ p) → ts ≢ []
Matches-cons [] c p h e = h
Matches-cons (t ∷ ts) c p h e = cc
