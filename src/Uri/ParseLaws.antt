-- ===== src/Uri/ParseLaws.antt =====
-- tsukuyomi/src/uri.rs: what a parsed URI is: its text, the names that it captures, and where a
-- name is looked up.
use tsukuyomi.Prelude.{
  ℕ, suc, ◌-◌, ◌≡◌, refl, sym, ap, ◌∙◌, subst, true, false, Option, none, List, [], ◌∷◌, ◌++◌,
  Bytes, ◌==◌, ltb, all, eq_bytes, eq_bytes→eq, starts_with, length, take, drop, if◌then◌else◌, ◌⊎◌,
  inl, inr, Bool-cases, Result-cases, Result, ok, err, arith,
}
use tsukuyomi.Uri.Names.{UriError, empty_segment, CaptureNames}
use tsukuyomi.Uri.Parse.{
  Uri, root, segments, slash, as_str, ends_with_slash, split_slash, parse_segments, body, parse,
}

init-slash : (s : Bytes) → ends_with_slash s ≡ true → take (length s - 1) s ++ slash ≡ s
init-slash [] e = cc
init-slash (c ∷ []) e = let same : b'/' ≡ c = ground arith in ap (λ x. x ∷ []) same
init-slash (c ∷ d ∷ s) e =
    let size : suc (suc (length s)) - 1 ≡ suc (suc (length s) - 1) = omega arith in
    rw size (ap (λ t. c ∷ t) (init-slash (d ∷ s) e))

body-text : (s : Bytes) → (if ends_with_slash s then body s ++ slash else body s) ≡ s
body-text s = elim (Bool-cases (ends_with_slash s)) [
  | inl trailing ↦ rw trailing (init-slash s trailing)
  | inr plain ↦ rw plain refl
]

parsed_segments :
    (s : Bytes) (u : Uri) (names : Option CaptureNames) (r : Result UriError Uri)
    → r ≡ ok (segments (if ends_with_slash s then body s ++ slash else body s) names)
    → r ≡ ok u
    → u ≡ segments s names
parsed_segments s u names r found e =
    let same = body-text s in
    let whole : segments (if ends_with_slash s then body s ++ slash else body s) names
        ≡ segments s names =
      ap (λ t. segments t names) same in
    cc

-- The parts of a success of `parse`.
pub parse-parts :
    (s : Bytes) (u : Uri)
    → parse s ≡ ok u
    → ((u ≡ root) × (s ≡ slash))
      ⊎ ((names : Option CaptureNames) × (parse_segments none (split_slash (drop 1 (body s)))
            ≡ ok names)
          × (u ≡ segments s names)
          × (starts_with s slash ≡ true)
          × (eq_bytes s slash ≡ false))
unfolding parse
parse-parts s u e = elim (Bool-cases (all (λ c. ltb c 128) s)) [
  | inr bad ↦ absurd (cc (rw (bad, parse) at e))
  | inl ascii ↦ elim (Bool-cases (starts_with s slash)) [
    | inr bad ↦ absurd (cc (rw (ascii, bad, parse) at e))
    | inl first ↦ elim (Bool-cases (eq_bytes s slash)) [
      | inl whole ↦
          inl (ground (arith, rw (ascii, first, whole, parse) at e), eq_bytes→eq s slash whole)
      | inr more ↦ elim (Result-cases (parse_segments none (split_slash (drop 1 (body s))))) [
        | inl (x, bad) ↦ absurd (cc (rw (ascii, first, more, bad, parse) at e))
        | inr (names, good) ↦ inr (
          names,
          good,
          parsed_segments s u names (parse s) (rw (ascii, first, more, good) refl) e,
          first,
          more,
        )
      ]
    ]
  ]
]

-- A URI that was parsed is printed as the text that it was parsed from.
pub as_str-parse : (s : Bytes) (u : Uri) → parse s ≡ ok u → as_str u ≡ s
unfolding as_str
as_str-parse s u e = elim (parse-parts s u e) [
  | inl (r, whole) ↦ rw r (sym whole)
  | inr (names, good, same, first, more) ↦ rw same refl
]

empty_first : (ss : List Bytes) → parse_segments none ([] ∷ ss) ≡ err empty_segment
unfolding parse_segments
empty_first ss = refl

split-slash : (d : ℕ) (s : Bytes) → (d == b'/') ≡ true → split_slash (d ∷ s) ≡ [] ∷ split_slash s
unfolding split_slash
split-slash d s e = rw e refl

double_slash :
    (c d : ℕ) (s : Bytes)
    → (d == b'/') ≡ true
    → (ss : List Bytes) × (split_slash (drop 1 (body (c ∷ d ∷ s))) ≡ [] ∷ ss)
unfolding split_slash
double_slash c d [] e = ([], rw e refl)
double_slash c d (x ∷ s) e =
    let size : suc (suc (suc (length s))) - 1 ≡ suc (suc (length s)) = omega arith in
    elim (Bool-cases (ends_with_slash (x ∷ s))) [
      | inl trailing ↦ (split_slash (take (length s) (x ∷ s)), rw (trailing, size, e) refl)
      | inr plain ↦ (split_slash (x ∷ s), rw (plain, e) refl)
    ]

-- A text that starts with one slash.
unfoldable pub HasSlash : Bytes → Type 0
HasSlash [] = ⊥
HasSlash (c ∷ []) = ⊥
HasSlash (c ∷ d ∷ s) = (c ≡ b'/') × ((d == b'/') ≡ false)

HasSlash-loop :
    (s : Bytes) (names : Option CaptureNames)
    → starts_with s slash ≡ true
    → eq_bytes s slash ≡ false
    → parse_segments none (split_slash (drop 1 (body s))) ≡ ok names
    → HasSlash s
unfolding HasSlash
HasSlash-loop [] names first more good = absurd (cc)
HasSlash-loop (c ∷ []) names first more good = absurd (cc)
HasSlash-loop (c ∷ d ∷ s) names first more good = elim (Bool-cases (d == b'/')) [
  | inr single ↦ (ground arith, single)
  | inl double ↦
      let (ss, split) = double_slash c d s double in
      let refused : ok names ≡ err empty_segment =
        sym good ∙ ap (parse_segments none) split ∙ empty_first ss in
      absurd (cc refused)
]

-- A parsed URI other than the root starts with one slash.
pub parse-HasSlash :
    (s : Bytes) (u : Uri) (t : Bytes) (y : Option CaptureNames)
    → parse s ≡ ok u
    → u ≡ segments t y
    → HasSlash t
parse-HasSlash s u t y e is = elim (parse-parts s u e) [
  | inl (r, whole) ↦ absurd (cc)
  | inr (names, good, same, first, more) ↦
      let text : s ≡ t = cc in subst HasSlash text (HasSlash-loop s names first more good)
]
