-- ===== src/Files/EtagLaws.antt =====
-- tsukuyomi/src/fs.rs: entity tags that are printed are parsed back.
use tsukuyomi.Prelude.{
  ℕ, ◌+◌, ◌<◌, ◌≡◌, refl, sym, ap, ◌∙◌, Bool, true, false, ◌&&◌, not, ltb, leb, some, [], ◌∷◌, ◌++◌,
  Bytes, length, length-append, ◌⊎◌, inl, inr, Bool-cases, false-true, arith,
}
use tsukuyomi.Files.{
  Etag, ends_quoted, init, is_ascii, parse_inner, is_boundary, from_str, to_string,
}

abbrev quoted : Bytes → Bytes
quoted tag = b'"' ∷ (tag ++ b'"' ∷ [])

ends-quoted : (s : Bytes) → ends_quoted (s ++ b'"' ∷ []) ≡ true
ends-quoted [] = refl
ends-quoted (c ∷ []) = refl
ends-quoted (c ∷ d ∷ s) = ends-quoted (d ∷ s)

init-append : (s : Bytes) (c : ℕ) → init (s ++ c ∷ []) ≡ s
init-append [] c = refl
init-append (a ∷ []) c = refl
init-append (a ∷ b ∷ s) c = ap (λ t. a ∷ t) (init-append (b ∷ s) c)

long-quoted : (tag : Bytes) → ltb (length (quoted tag)) 2 ≡ false
long-quoted [] = refl
long-quoted (c ∷ s) =
    let e : length (s ++ b'"' ∷ []) ≡ length s + 1 = length-append s (b'"' ∷ []) in
    ground (arith, e)

parse_inner-quoted :
    (weak : Bool) (tag : Bytes)
    → is_ascii tag ≡ true
    → parse_inner weak (quoted tag) ≡ some (record { weak = weak; tag = tag })
unfolding parse_inner
parse_inner-quoted weak tag ascii =
    rw (long-quoted tag, ends-quoted (b'"' ∷ tag), init-append tag b'"', ascii) refl

ascii_head :
    (c : ℕ) (s : Bytes)
    → is_ascii (c ∷ s) ≡ true
    → (not (leb 128 c && leb c 191) ≡ true) × (is_ascii s ≡ true)
ascii_head c s e = elim (Bool-cases (ltb c 128)) [
  | inl small ↦ (ground (arith, small), ap (λ b. b && is_ascii s) (sym small) ∙ e)
  | inr large ↦ absurd (false-true (ap (λ b. b && is_ascii s) (sym large) ∙ e))
]

boundary : (tag : Bytes) → is_ascii tag ≡ true → is_boundary (tag ++ b'"' ∷ []) ≡ true
boundary [] e = refl
boundary (c ∷ s) e = (ascii_head c s e).0

strong-quoted :
    (c : ℕ) (t : Bytes)
    → is_ascii (c ∷ t) ≡ true
    → from_str (quoted (c ∷ t)) ≡ some (record { weak = false; tag = c ∷ t })
unfolding from_str
strong-quoted c [] ascii = parse_inner-quoted false (c ∷ []) ascii
strong-quoted c (d ∷ t) ascii =
    rw (boundary t (ascii_head d t (ascii_head c (d ∷ t) ascii).1).1)
      (parse_inner-quoted false (c ∷ d ∷ t) ascii)

weak-quoted :
    (tag : Bytes)
    → is_ascii tag ≡ true
    → from_str (b'W' ∷ b'/' ∷ quoted tag) ≡ some (record { weak = true; tag = tag })
unfolding from_str
weak-quoted tag ascii = rw (boundary tag ascii) (parse_inner-quoted true tag ascii)

printed :
    (weak : Bool) (tag : Bytes)
    → is_ascii tag ≡ true
    → (weak ≡ true) ⊎ (0 < length tag)
    → from_str (to_string (record { weak = weak; tag = tag }))
      ≡ some (record { weak = weak; tag = tag })
unfolding to_string
printed true tag ascii h = weak-quoted tag ascii
printed false (c ∷ t) ascii h = strong-quoted c t ascii
printed false [] ascii (inl e) = absurd (false-true e)
printed false [] ascii (inr long) = ground arith

-- An entity tag of ASCII characters is parsed back from its text, unless it is strong and empty,
-- whose text of two bytes is refused.
pub from_str-to_string :
    (etag : Etag)
    → is_ascii etag.tag ≡ true
    → (etag.weak ≡ true) ⊎ (0 < length etag.tag)
    → from_str (to_string etag) ≡ some etag
from_str-to_string etag ascii h = printed etag.weak etag.tag ascii h
