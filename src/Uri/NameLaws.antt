-- ===== src/Uri/NameLaws.antt =====
-- tsukuyomi/src/uri.rs: the names that `Uri::parse` captures.
use tsukuyomi.Prelude.{
  ℕ, zero, suc, ◌≡◌, refl, sym, ap, ◌∙◌, subst, Bool, true, false, Option, none, some, List, [],
  ◌∷◌, ◌++◌, ◌||◌, append-nil, append_assoc, Bytes, All, any, eq_bytes, eq_bytes→eq, eq_bytes_refl,
  drop, get_elem?, if◌then◌else◌, ◌⊎◌, inl, inr, Bool-cases, Result-cases, Result, ok, err, ◌>>=◌,
  arith,
}
use tsukuyomi.Uri.Names.{
  UriError, wildcard_already_set, empty_segment, invalid_character, CaptureNames, contains, is_nil,
  is_kind, push, position,
}
use tsukuyomi.Uri.ParseLaws.{parse-parts}
use tsukuyomi.Uri.Parse.{
  Uri, capture_names, split_slash, wildcard_set, get_names, parse_segment, parse_segments, body,
  parse,
}

-- The names that a list of segments declares: what follows the kind of a wildcard segment.
unfoldable pub declared : List Bytes → List Bytes
declared [] = []
declared ([] ∷ ss) = declared ss
declared ((c ∷ s) ∷ ss) = let rest = declared ss in if is_kind c then s ∷ rest else rest

abbrev pub params_of : Option CaptureNames → List Bytes
params_of names = (get_names names).params

-- A name that is not empty and holds no kind character.
abbrev pub IsName : Bytes → Type 0
IsName s = (is_nil s ≡ false) × (any is_kind s ≡ false)

unfoldable pub AreDistinct : List Bytes → Type 0
AreDistinct [] = Unit
AreDistinct (n ∷ ns) = (contains ns n ≡ false) × AreDistinct ns

abbrev params_of_ok : Result UriError CaptureNames → List Bytes
params_of_ok (ok names) = names.params
params_of_ok (err e) = []

push-parts :
    (names : CaptureNames) (c : ℕ) (s : Bytes) (names' : CaptureNames)
    → push names (c ∷ s) ≡ ok names'
    → (is_kind c ≡ true)
      × (is_nil s ≡ false)
      × (contains names.params s ≡ false)
      × (names'.params ≡ names.params ++ s ∷ [])
unfolding push
push-parts names c s names' e = elim (Bool-cases names.has_wildcard) [
  | inl set ↦ absurd (cc (rw (set, push) at e))
  | inr unset ↦ elim (Bool-cases (is_kind c)) [
    | inr plain ↦ absurd (cc (rw (unset, plain, push) at e))
    | inl kind ↦ elim (Bool-cases (is_nil s)) [
      | inl bare ↦ absurd (cc (rw (unset, kind, bare, push) at e))
      | inr full ↦ elim (Bool-cases (contains names.params s)) [
        | inl twice ↦ absurd (cc (rw (unset, kind, full, twice, push) at e))
        | inr fresh ↦
            (kind, full, fresh, sym (ap params_of_ok (rw (unset, kind, full, fresh, push) at e)))
      ]
    ]
  ]
]

step_set :
    (names : Option CaptureNames) (segment : Bytes)
    → wildcard_set names ≡ true
    → parse_segment names segment ≡ err wildcard_already_set
unfolding parse_segment
step_set names segment set = rw set refl

step_empty :
    (names : Option CaptureNames)
    → wildcard_set names ≡ false
    → parse_segment names [] ≡ err empty_segment
unfolding parse_segment
step_empty names unset = rw unset refl

step_bad :
    (names : Option CaptureNames) (c : ℕ) (s : Bytes)
    → wildcard_set names ≡ false
    → any is_kind s ≡ true
    → parse_segment names (c ∷ s) ≡ err invalid_character
unfolding parse_segment
step_bad names c s unset bad = rw (unset, bad) refl

step_plain :
    (names : Option CaptureNames) (c : ℕ) (s : Bytes)
    → wildcard_set names ≡ false
    → any is_kind s ≡ false
    → is_kind c ≡ false
    → parse_segment names (c ∷ s) ≡ ok names
unfolding parse_segment
step_plain names c s unset clean plain = rw (unset, clean, plain) refl

step_kind :
    (names : Option CaptureNames) (c : ℕ) (s : Bytes)
    → wildcard_set names ≡ false
    → any is_kind s ≡ false
    → is_kind c ≡ true
    → parse_segment names (c ∷ s) ≡ (push (get_names names) (c ∷ s) >>= λ names'. ok (some names'))
unfolding parse_segment
step_kind names c s unset clean kind = rw (unset, clean, kind) refl

abbrev SegmentAdds : Option CaptureNames → Bytes → Option CaptureNames → Type 0
SegmentAdds names segment names' =
    ((names' ≡ names) × (declared (segment ∷ []) ≡ []))
    ⊎ ((name : Bytes) × (declared (segment ∷ []) ≡ name ∷ [])
        × IsName name
        × (contains (params_of names) name ≡ false)
        × ((pushed : CaptureNames) × (names' ≡ some pushed)
            × (pushed.params ≡ params_of names ++ name ∷ [])))

pushed_adds :
    (names : Option CaptureNames) (c : ℕ) (s : Bytes) (names' : Option CaptureNames)
    → any is_kind s ≡ false
    → is_kind c ≡ true
    → (push (get_names names) (c ∷ s) >>= λ names'. ok (some names')) ≡ ok names'
    → SegmentAdds names (c ∷ s) names'
unfolding declared
pushed_adds names c s names' clean kind e = elim (Result-cases (push (get_names names) (c ∷ s))) [
  | inl (x, bad) ↦ absurd (cc (rw bad at e))
  | inr (pushed, good) ↦
      let (k, full, fresh, same) = push-parts (get_names names) c s pushed good in
      let after : names' ≡ some pushed = cc (rw good at e) in
      inr (s, rw kind refl, (full, clean), fresh, (pushed, after, same))
]

-- A segment of a success.
step-parts :
    (names : Option CaptureNames) (segment : Bytes) (names' : Option CaptureNames)
    → parse_segment names segment ≡ ok names'
    → SegmentAdds names segment names'
unfolding declared
step-parts names [] names' e = elim (Bool-cases (wildcard_set names)) [
  | inl set ↦ absurd (cc (step_set names [] set))
  | inr unset ↦ absurd (cc (step_empty names unset))
]
step-parts names (c ∷ s) names' e = elim (Bool-cases (wildcard_set names)) [
  | inl set ↦ absurd (cc (step_set names (c ∷ s) set))
  | inr unset ↦ elim (Bool-cases (any is_kind s)) [
    | inl bad ↦ absurd (cc (step_bad names c s unset bad))
    | inr clean ↦ elim (Bool-cases (is_kind c)) [
      | inr plain ↦
          let kept : names' ≡ names = cc (step_plain names c s unset clean plain) in
          inl (kept, rw plain refl)
      | inl kind ↦
          pushed_adds names c s names' clean kind (sym (step_kind names c s unset clean kind) ∙ e)
    ]
  ]
]

eq_bytes-sym : (s t : Bytes) → eq_bytes s t ≡ false → eq_bytes t s ≡ false
eq_bytes-sym s t e = elim (Bool-cases (eq_bytes t s)) [
  | inr differ ↦ differ
  | inl equal ↦
      absurd (cc (subst (λ x. eq_bytes s x ≡ true) (sym (eq_bytes→eq t s equal)) (eq_bytes_refl s)))
]

contains-snoc :
    (ns : List Bytes) (n m : Bytes)
    → contains ns m ≡ false
    → eq_bytes n m ≡ false
    → contains (ns ++ n ∷ []) m ≡ false
contains-snoc [] n m e d = rw d refl
contains-snoc (a ∷ ns) n m e d =
    let first : eq_bytes a m ≡ false = ground arith in
    let rest : contains ns m ≡ false = ground arith in rw (first, contains-snoc ns n m rest d) refl

AreDistinct-snoc :
    (ns : List Bytes) (n : Bytes)
    → AreDistinct ns
    → contains ns n ≡ false
    → AreDistinct (ns ++ n ∷ [])
unfolding AreDistinct
AreDistinct-snoc [] n d e = (refl, tt)
AreDistinct-snoc (a ∷ ns) n (fresh, d) e =
    let first : eq_bytes a n ≡ false = ground arith in
    let rest : contains ns n ≡ false = ground arith in
    (contains-snoc ns n a fresh (eq_bytes-sym a n first), AreDistinct-snoc ns n d rest)

All-snoc : (ns : List Bytes) (n : Bytes) → All IsName ns → IsName n → All IsName (ns ++ n ∷ [])
All-snoc [] n a v = (v, tt)
All-snoc (m ∷ ns) n (w, a) v = (w, All-snoc ns n a v)

or-true : (b : Bool) → (b || true) ≡ true
or-true true = refl
or-true false = refl

-- The names of a URI: proper, and each declared once.
abbrev pub AreNames : List Bytes → Type 0
AreNames ns = All IsName ns × AreDistinct ns

declared-cons : (s : Bytes) (ss : List Bytes) → declared (s ∷ ss) ≡ declared (s ∷ []) ++ declared ss
unfolding declared
declared-cons [] ss = refl
declared-cons (c ∷ s) ss = elim (Bool-cases (is_kind c)) [ inl k ↦ rw k refl | inr k ↦ rw k refl ]

loop_nil : (names : Option CaptureNames) → parse_segments names [] ≡ ok names
unfolding parse_segments
loop_nil names = refl

loop_cons :
    (names : Option CaptureNames) (s : Bytes) (ss : List Bytes)
    → parse_segments names (s ∷ ss) ≡ (parse_segment names s >>= λ names'. parse_segments names' ss)
unfolding parse_segments
loop_cons names s ss = refl

loop_ok :
    (names next : Option CaptureNames) (s : Bytes) (ss : List Bytes)
    → parse_segment names s ≡ ok next
    → parse_segments names (s ∷ ss) ≡ parse_segments next ss
loop_ok names next s ss good =
    loop_cons names s ss ∙ ap (λ r. r >>= λ names'. parse_segments names' ss) good

loop_err :
    (names : Option CaptureNames) (s : Bytes) (ss : List Bytes) (x : UriError)
    → parse_segment names s ≡ err x
    → parse_segments names (s ∷ ss) ≡ err x
loop_err names s ss x bad =
    loop_cons names s ss ∙ ap (λ r. r >>= λ names'. parse_segments names' ss) bad

-- What a segment does to the names, whichever way it is.
step-declared :
    (names : Option CaptureNames) (s : Bytes) (names' : Option CaptureNames)
    → parse_segment names s ≡ ok names'
    → AreNames (params_of names)
    → (params_of names' ≡ params_of names ++ declared (s ∷ [])) × AreNames (params_of names')
step-declared names s names' e (a, d) = elim (step-parts names s names' e) [
  | inl (same, nothing) ↦ (
    rw (same, nothing) (sym (append-nil (params_of names))),
    subst (λ n. AreNames (params_of n)) (sym same) (a, d),
  )
  | inr (name, one, proper, fresh, (pushed, put, params)) ↦
      let all_params : params_of names' ≡ params_of names ++ name ∷ [] =
        ap params_of put ∙ params in
      (
        rw (all_params, one) refl,
        subst AreNames (sym all_params) (
          All-snoc (params_of names) name a proper,
          AreDistinct-snoc (params_of names) name d fresh,
        ),
      )
]

-- What a success of the loop over the segments adds, and that it keeps names proper.
pub parse_segments-declared :
    (ss : List Bytes) (names names' : Option CaptureNames)
    → parse_segments names ss ≡ ok names'
    → AreNames (params_of names)
    → (params_of names' ≡ params_of names ++ declared ss) × AreNames (params_of names')
unfolding declared
parse_segments-declared [] names names' e a =
    let same : names ≡ names' = cc (loop_nil names) in
    (rw (sym same) (sym (append-nil (params_of names))), subst (λ n. AreNames (params_of n)) same a)
parse_segments-declared (s ∷ ss) names names' e a = elim (Result-cases (parse_segment names s)) [
  | inl (x, bad) ↦ absurd (cc (loop_err names s ss x bad))
  | inr (next, good) ↦
      let rest : parse_segments next ss ≡ ok names' = sym (loop_ok names next s ss good) ∙ e in
      let (now, a') = step-declared names s next good a in
      let (later, done) = parse_segments-declared ss next names' rest a' in
      (
        later
            ∙ ap (λ x. x ++ declared ss) now
            ∙ append_assoc (params_of names) (declared (s ∷ [])) (declared ss)
            ∙ ap (λ x. params_of names ++ x) (sym (declared-cons s ss)),
        done,
      )
]

-- The names of a parsed URI are those that its segments declare, in order; none is empty, holds a
-- kind character or is declared twice.
pub capture_names-parse :
    (s : Bytes) (u : Uri)
    → parse s ≡ ok u
    → (params_of (capture_names u) ≡ declared (split_slash (drop 1 (body s))))
      × AreNames (params_of (capture_names u))
unfolding capture_names declared AreDistinct split_slash
capture_names-parse s u e = elim (parse-parts s u e) [
  | inl (r, whole) ↦ rw (r, whole) (refl, (tt, tt))
  | inr (names, good, same, first, more) ↦
      rw same (parse_segments-declared (split_slash (drop 1 (body s))) none names good (tt, tt))
]

contains-at :
    (ns : List Bytes) (i : ℕ) (name : Bytes) → get_elem? ns i ≡ some name → contains ns name ≡ true
contains-at [] i name e = cc
contains-at (n ∷ ns) zero name e = let same : n ≡ name = cc in rw (same, eq_bytes_refl name) refl
contains-at (n ∷ ns) (suc i) name e = rw (contains-at ns i name e) (or-true (eq_bytes n name))

position-distinct :
    (ns : List Bytes) (i : ℕ) (name : Bytes)
    → AreDistinct ns
    → get_elem? ns i ≡ some name
    → position ns name ≡ some i
unfolding AreDistinct position
position-distinct [] i name d e = cc
position-distinct (n ∷ ns) zero name (fresh, d) e =
    let same : n ≡ name = cc in rw (same, eq_bytes_refl name) refl
position-distinct (n ∷ ns) (suc i) name (fresh, d) e = elim (Bool-cases (eq_bytes n name)) [
  | inl equal ↦
      let same = eq_bytes→eq n name equal in
      let absent : contains ns name ≡ false = subst (λ x. contains ns x ≡ false) same fresh in
      absurd (cc (contains-at ns i name e))
  | inr differ ↦ rw (differ, position-distinct ns i name d e) refl
]

-- The `i`-th name that the segments of a parsed URI declare is looked up at position `i`.
position-parse :
    (s : Bytes) (u : Uri) (i : ℕ) (name : Bytes)
    → parse s ≡ ok u
    → get_elem? (declared (split_slash (drop 1 (body s)))) i ≡ some name
    → position (params_of (capture_names u)) name ≡ some i
position-parse s u i name e at =
    let (same, (proper, distinct)) = capture_names-parse s u e in
    position-distinct (params_of (capture_names u)) i name distinct
      (subst (λ ns. get_elem? ns i ≡ some name) (sym same) at)
