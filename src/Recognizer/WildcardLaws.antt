-- ===== src/Recognizer/WildcardLaws.antt =====
-- tsukuyomi/src/app/recognizer.rs: what `find_wildcard_begin`, `find_wildcard_end` and
-- `longest_common_prefix` say of the pattern that a path writes.
use tsukuyomi.Prelude.{
  ℕ, zero, suc, ◌+◌, ◌≤◌, ◌<◌, ◌≡◌, refl, sym, ap, ◌∙◌, Bool, true, false, some, List, [], ◌∷◌,
  ◌++◌, map, Bytes, All, ◌==◌, length, get_elem?, take, drop, subst, take-append-drop, drop-drop,
  length-drop, span_until, position-span, arith, ok, ==_iff, ◌⊎◌, Bool-cases, Result-cases,
  Option-cases, inl, inr,
}
use mathlib.Core.Path.{ap₂}
use tsukuyomi.Recognizer.Wildcard.{
  longest_common_prefix, is_wildcard, find_wildcard_begin, name_end, checked_end, find_wildcard_end,
}
use tsukuyomi.Recognizer.Insert.{in_range, slice}
use tsukuyomi.Recognizer.Routes.{Token, byte, any_segment, pattern_of, IsPlain}

module _ {ℓ} {A : Type ℓ} where
  pub drop-head :
      (xs : List A) (i : ℕ) {c : A} → get_elem? xs i ≡ some c → drop i xs ≡ c ∷ drop (suc i) xs
  drop-head [] i e = cc
  drop-head (x ∷ xs) zero e = ground arith
  drop-head (x ∷ xs) (suc i) e = drop-head xs i e

  pub lt-length : (xs : List A) (i : ℕ) {c : A} → get_elem? xs i ≡ some c → i < length xs
  lt-length [] i e = cc
  lt-length (x ∷ xs) zero e = omega arith
  lt-length (x ∷ xs) (suc i) e = omega (arith, lt-length xs i e)

  pub drop-take : (o k : ℕ) (xs : List A) → drop o (take (o + k) xs) ≡ take k (drop o xs)
  drop-take zero k xs = let e : zero + k ≡ k = omega arith in rw e refl
  drop-take (suc o) zero [] = let e : suc o + zero ≡ suc o = omega arith in rw e refl
  drop-take (suc o) (suc k) [] = let e : suc o + suc k ≡ suc (o + suc k) = omega arith in rw e refl
  drop-take (suc o) k (x ∷ xs) =
      let e : suc o + k ≡ suc (o + k) = omega arith in rw e (drop-take o k xs)

get_elem?-drop :
    {A : Type 0} (m k : ℕ) (xs : List A) → get_elem? (drop m xs) k ≡ get_elem? xs (m + k)
get_elem?-drop zero k xs = let e : zero + k ≡ k = omega arith in rw e refl
get_elem?-drop (suc m) k [] = refl
get_elem?-drop (suc m) k (x ∷ xs) =
    let e : suc m + k ≡ suc (m + k) = omega arith in rw e (get_elem?-drop m k xs)

pub drop-length : {A : Type 0} (xs : List A) → drop (length xs) xs ≡ []
drop-length [] = refl
drop-length (x ∷ xs) = drop-length xs

-- The bytes of a name, up to the slash or the end.
name_end_lem :
    (rest : Token) (s : Bytes) (a : ℕ) {e : ℕ}
    → name_end s a ≡ ok e
    → (k : ℕ) × (e ≡ a + k)
      × (k ≤ length s)
      × (pattern_of rest true s ≡ pattern_of rest false (drop k s))
      × ((k ≡ length s) ⊎ (get_elem? s k ≡ some b'/'))
unfolding name_end pattern_of
name_end_lem rest [] a h = (0, ground arith, omega arith, refl, inl refl)
name_end_lem rest (c ∷ s) a {e} h = elim (Bool-cases (c == b'/')) [
  | inl slash ↦ (0, ground arith, omega arith, ground arith, inr (ground arith))
  | inr other ↦
      let (k, same, bound, parsed, stop) = name_end_lem rest s (a + 1) {e = e} (ground arith) in
      (suc k, omega arith, omega arith, rw other parsed, ground arith)
]

pub record WildcardEnd (rest : Token) (path : Bytes) (offset end : ℕ) : Type 0 where
  pub later : offset < end
  pub within : end ≤ length path
  pub stop : (end ≡ length path) ⊎ (get_elem? path end ≡ some b'/')
  pub name : pattern_of rest true (drop (suc offset) path) ≡ pattern_of rest false (drop end path)

checked_end_lem :
    (path : Bytes) (offset kind end : ℕ) {e : ℕ}
    → checked_end path offset kind end ≡ ok e
    → e ≡ offset + end
unfolding checked_end
checked_end_lem path offset kind end h = ground arith

-- The parts of a successful search: the wildcard, the end of its name, and the last checks.
find_wildcard_end_parts :
    (path : Bytes) (offset : ℕ) {e : ℕ}
    → find_wildcard_end path offset ≡ ok e
    → (c end : ℕ) × (get_elem? path offset ≡ some c)
      × (name_end (drop (offset + 1) path) 1 ≡ ok end)
      × (e ≡ offset + end)
unfolding find_wildcard_end
find_wildcard_end_parts path offset {e} h = elim (Option-cases (get_elem? path offset)) [
  | inl missing ↦ absurd (ground arith)
  | inr (c, found) ↦ elim (Bool-cases (is_wildcard c)) [
    | inr plain ↦ absurd (ground arith)
    | inl wild ↦ elim (Result-cases (name_end (drop (offset + 1) path) 1)) [
      | inl (x, bad) ↦ absurd (ground arith)
      | inr (end, good) ↦ (c, end, found, good, checked_end_lem path offset c end (ground arith))
    ]
  ]
]

pub find_wildcard_end_lem :
    (rest : Token) (path : Bytes) (offset : ℕ) {e : ℕ}
    → find_wildcard_end path offset ≡ ok e
    → WildcardEnd rest path offset e
find_wildcard_end_lem rest path offset {e} h =
    let (c, end, found, good, same) = find_wildcard_end_parts path offset h in
    let (k, at, bound, parsed, stop) = name_end_lem rest (drop (offset + 1) path) 1 good in
    let step : offset + 1 ≡ suc offset = omega arith in
    let whole : (offset + 1) + k ≡ e = omega arith in
    record {
      later = omega arith;
      within = omega (arith, lt-length path offset found, length-drop (offset + 1) path);
      stop = elim stop [
        | inl at_end ↦
            inl (omega (arith, lt-length path offset found, length-drop (offset + 1) path))
        | inr slash ↦ inr (
            subst (λ j. get_elem? path j ≡ some b'/') whole
              (sym (get_elem?-drop (offset + 1) k path) ∙ slash))
      ];
      name = rw (← step, parsed, drop-drop (offset + 1) k path, whole) refl;
    }

-- The first wildcard, or the end of the path.
pub record WildcardBegin (rest : Token) (path : Bytes) (offset begin : ℕ) : Type 0 where
  pub from : offset ≤ begin
  pub within : begin ≤ length path
  pub plain : All IsPlain (slice path offset begin)
  pub text :
      pattern_of rest false (drop offset path)
      ≡ map byte (slice path offset begin) ++ pattern_of rest false (drop begin path)

pub span-le : (p : ℕ → Bool) (s : Bytes) → span_until p s ≤ length s
span-le p [] = omega arith
span-le p (c ∷ s) = ground (arith, span-le p s)

take-IsPlain : (s : Bytes) → All IsPlain (take (span_until is_wildcard s) s)
take-IsPlain [] = tt
take-IsPlain (c ∷ s) = elim (Bool-cases (is_wildcard c)) [
  | inl wild ↦ rw (wild, take, All) tt
  | inr plain ↦ rw (plain, take, All) (plain, take-IsPlain s)
]

pattern_of-plain :
    (rest : Token) (c : ℕ) (s : Bytes)
    → is_wildcard c ≡ false
    → pattern_of rest false (c ∷ s) ≡ byte c ∷ pattern_of rest false s
unfolding pattern_of
pattern_of-plain rest c s h = ground arith

-- Text with no wildcard is its own pattern.
pub pattern_of-append :
    (rest : Token) (s t : Bytes)
    → All IsPlain s
    → pattern_of rest false (s ++ t) ≡ map byte s ++ pattern_of rest false t
pattern_of-append rest [] t h = refl
pattern_of-append rest (c ∷ s) t (p, h) =
    pattern_of-plain rest c (s ++ t) p ∙ ap (λ ts. byte c ∷ ts) (pattern_of-append rest s t h)

find_wildcard_begin-span :
    (path : Bytes) (offset : ℕ)
    → offset ≤ length path
    → find_wildcard_begin path offset ≡ offset + span_until is_wildcard (drop offset path)
unfolding find_wildcard_begin
find_wildcard_begin-span path offset h =
    ground (arith, position-span is_wildcard (drop offset path), length-drop offset path)

pub pattern_of-split :
    (rest : Token) (k : ℕ) (s : Bytes)
    → All IsPlain (take k s)
    → pattern_of rest false s ≡ map byte (take k s) ++ pattern_of rest false (drop k s)
pattern_of-split rest k s h =
    ap (pattern_of rest false) (sym (take-append-drop k s))
    ∙ pattern_of-append rest (take k s) (drop k s) h

module _ (path : Bytes) (offset : ℕ) (h : offset ≤ length path) where
  slice-span :
      slice path offset (find_wildcard_begin path offset)
      ≡ take (span_until is_wildcard (drop offset path)) (drop offset path)
  slice-span =
      ap (λ b. slice path offset b) (find_wildcard_begin-span path offset h)
      ∙ drop-take offset (span_until is_wildcard (drop offset path)) path

  drop-span :
      drop (find_wildcard_begin path offset) path
      ≡ drop (span_until is_wildcard (drop offset path)) (drop offset path)
  drop-span =
      ap (λ b. drop b path) (find_wildcard_begin-span path offset h)
      ∙ sym (drop-drop offset (span_until is_wildcard (drop offset path)) path)

  pub find_wildcard_begin_lem :
      (rest : Token) → WildcardBegin rest path offset (find_wildcard_begin path offset)
  find_wildcard_begin_lem rest =
      let t = drop offset path in
      let k : ℕ = span_until is_wildcard t in
      let at = find_wildcard_begin-span path offset h in
      let bound = span-le is_wildcard t in
      record {
        from = omega (arith, at);
        within = omega (arith, at, bound, length-drop offset path);
        plain = subst (All IsPlain) (sym slice-span) (take-IsPlain t);
        text = rw (slice-span, drop-span) (pattern_of-split rest k t (take-IsPlain t));
      }

-- A wildcard stands at the position, or the path ends there.
abbrev pub IsMark : Bytes → ℕ → Type 0
IsMark path pos =
    (pos ≡ length path) ⊎ ((c : ℕ) × (get_elem? path pos ≡ some c) × (is_wildcard c ≡ true))

span-IsMark : (s : Bytes) → IsMark s (span_until is_wildcard s)
span-IsMark [] = inl refl
span-IsMark (c ∷ s) = elim (Bool-cases (is_wildcard c)) [
  | inl wild ↦ rw (wild, span_until, get_elem?) (inr (c, refl, wild))
  | inr plain ↦
      rw (plain, span_until, get_elem?)
        (elim (span-IsMark s) [ inl at_end ↦ inl (ap suc at_end) | inr mark ↦ inr mark ])
]

drop-IsMark :
    (path : Bytes) (o k : ℕ) → o ≤ length path → IsMark (drop o path) k → IsMark path (o + k)
drop-IsMark path o k h (inl at_end) = inl (omega (arith, at_end, length-drop o path))
drop-IsMark path o k h (inr (c, at, wild)) = inr (c, sym (get_elem?-drop o k path) ∙ at, wild)

pub IsMark-drop : (path : Bytes) (o : ℕ) → o ≤ length path → IsMark path o → IsMark (drop o path) 0
IsMark-drop path o h (inl at_end) = inl (omega (arith, at_end, length-drop o path))
IsMark-drop path o h (inr (c, at, wild)) =
    let same : o + 0 ≡ o = omega arith in
    inr (c, get_elem?-drop o 0 path ∙ ap (get_elem? path) same ∙ at, wild)

pub find_wildcard_begin-IsMark :
    (path : Bytes) (offset : ℕ)
    → offset ≤ length path
    → IsMark path (find_wildcard_begin path offset)
find_wildcard_begin-IsMark path offset h =
    subst (IsMark path) (sym (find_wildcard_begin-span path offset h)) (
      drop-IsMark path offset (span_until is_wildcard (drop offset path)) h
        (span-IsMark (drop offset path)))

pub in_range-begin :
    (path : Bytes) (offset : ℕ)
    → offset ≤ length path
    → in_range path offset (find_wildcard_begin path offset) ≡ true
unfolding in_range
in_range-begin path offset h =
    let begin = find_wildcard_begin_lem path offset h any_segment in
    ground (arith, begin.from, begin.within)

-- The common prefix lies in both texts.
pub longest_common_prefix_lem :
    (s t : Bytes)
    → (longest_common_prefix s t ≤ length t)
      × (longest_common_prefix s t ≤ length s)
      × (take (longest_common_prefix s t) s ≡ take (longest_common_prefix s t) t)
unfolding longest_common_prefix
longest_common_prefix_lem [] t = (omega arith, omega arith, refl)
longest_common_prefix_lem (a ∷ s) [] = (omega arith, omega arith, refl)
longest_common_prefix_lem (a ∷ s) (b ∷ t) = elim (Bool-cases (a == b)) [
  | inl same ↦
      let (p, q, e) = longest_common_prefix_lem s t in
      rw (same, longest_common_prefix, take)
        (omega arith, omega arith, ap₂ ◌∷◌ ((==_iff a b).0 same) e)
  | inr other ↦ rw other (omega arith, omega arith, refl)
]

-- A slice up to the next wildcard begins with the byte that stands there, if it is plain.
pub slice-head :
    (path : Bytes) (i : ℕ) {c : ℕ}
    → get_elem? path i ≡ some c
    → IsPlain c
    → (s : Bytes) × (slice path i (find_wildcard_begin path i) ≡ c ∷ s)
slice-head path i {c} at plain =
    let s : Bytes = take (span_until is_wildcard (drop (suc i) path)) (drop (suc i) path) in
    let bound : i ≤ length path = omega (arith, lt-length path i at) in
    (s, rw (slice-span path i bound, drop-head path i at, plain, span_until, take) refl)
