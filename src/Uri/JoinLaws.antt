-- ===== src/Uri/JoinLaws.antt =====
-- tsukuyomi/src/uri.rs: `Uri::join` on URIs with and without names.
use tsukuyomi.Prelude.{
  ℕ, ◌≡◌, refl, sym, ap, ◌∙◌, subst, false, Option, none, some, List, [], ◌∷◌, ◌++◌, append_assoc,
  Bytes, All, ◌==◌, if◌then◌else◌, ◌⊎◌, inl, inr, Bool-cases, Result, ok, err, ◌>>=◌, arith,
}
use tsukuyomi.Uri.Names.{
  UriError, unknown_kind, wildcard_already_set, CaptureNames, is_kind, push, extend,
}
use tsukuyomi.Uri.Parse.{Uri, root, segments, capture_names, ends_with_slash, parse}
use tsukuyomi.Uri.ParseLaws.{HasSlash, parse-HasSlash}
use tsukuyomi.Uri.NameLaws.{IsName, params_of, capture_names-parse}
use tsukuyomi.Uri.Join.{trim_left_slash, join_names, join_text, join}

-- A name is not taken by `extend`, which wants the kind in front of it.
push-name : (names : CaptureNames) (n : Bytes) → IsName n → (x : UriError) × (push names n ≡ err x)
unfolding push
push-name names [] (full, clean) = absurd (cc)
push-name names (c ∷ s) (full, clean) =
    let plain : is_kind c ≡ false = ground arith in
    elim (Bool-cases names.has_wildcard) [
      | inl set ↦ (wildcard_already_set, rw set refl)
      | inr unset ↦ (unknown_kind c, rw (unset, plain) refl)
    ]

extend-names :
    (names : CaptureNames) (n : Bytes) (ns : List Bytes)
    → IsName n
    → (x : UriError) × (extend names (n ∷ ns) ≡ err x)
unfolding extend
extend-names names n ns proper =
    let (x, refused) = push-name names n proper in
    (x, ap (λ r. r >>= λ names'. extend names' ns) refused)

join_names-captured :
    (a b : CaptureNames) (n : Bytes) (ns : List Bytes)
    → b.params ≡ n ∷ ns
    → IsName n
    → (x : UriError) × (join_names (some a) (some b) ≡ err x)
unfolding join_names
join_names-captured a b n ns these proper =
    let (x, refused) = extend-names a n ns proper in
    (
      x,
      ap (λ l. extend a l >>= λ names'. ok (some names')) these
          ∙ ap (λ r. r >>= λ names'. ok (some names')) refused,
    )

join-captured :
    (u v : Uri) (a : CaptureNames) (n : Bytes) (ns : List Bytes)
    → capture_names u ≡ some a
    → params_of (capture_names v) ≡ n ∷ ns
    → IsName n
    → (x : UriError) × (join u v ≡ err x)
unfolding join capture_names
join-captured root v a n ns mine theirs proper = absurd (cc)
join-captured (segments s x) root a n ns mine theirs proper = absurd (cc)
join-captured (segments s x) (segments t none) a n ns mine theirs proper = absurd (cc)
join-captured (segments s x) (segments t (some b)) a n ns mine theirs proper =
    let (e, refused) = join_names-captured a b n ns theirs proper in
    (e, rw mine (ap (λ r. r >>= λ names'. ok (segments (join_text s t) names')) refused))

-- Two parsed URIs that both capture names are never joined: the join is an error.
join-parsed_captured :
    (s t : Bytes) (u v : Uri) (a : CaptureNames) (n : Bytes) (ns : List Bytes)
    → parse s ≡ ok u
    → parse t ≡ ok v
    → capture_names u ≡ some a
    → params_of (capture_names v) ≡ n ∷ ns
    → (x : UriError) × (join u v ≡ err x)
join-parsed_captured s t u v a n ns left right mine theirs =
    let (same, (proper, distinct)) = capture_names-parse t v right in
    let (first, rest) = subst (All IsName) theirs proper in
    join-captured u v a n ns mine theirs first

after_first :
    (r : Result UriError CaptureNames)
    → (r >>= λ n. ok (some n)) ≡ ((r >>= λ n. ok (some n)) >>= λ n. join_names none n)
unfolding join_names
after_first (ok n) = refl
after_first (err x) = refl

after_last :
    (r : Result UriError CaptureNames)
    → ((r >>= λ n. ok (some n)) >>= λ n. join_names n none) ≡ (r >>= λ n. ok (some n))
unfolding join_names
after_last (ok n) = refl
after_last (err x) = refl

join_names_assoc :
    (x y z : Option CaptureNames)
    → (x ≡ none) ⊎ (y ≡ none) ⊎ (z ≡ none)
    → (join_names x y >>= λ n. join_names n z) ≡ (join_names y z >>= λ n. join_names x n)
unfolding join_names
join_names_assoc none none none e = refl
join_names_assoc none none (some c) e = refl
join_names_assoc none (some b) none e = refl
join_names_assoc none (some b) (some c) e = after_first (extend b c.params)
join_names_assoc (some a) none none e = refl
join_names_assoc (some a) none (some c) e = refl
join_names_assoc (some a) (some b) none e = after_last (extend a b.params)
join_names_assoc (some a) (some b) (some c) e = elim e [
  | inl never ↦ absurd (cc)
  | inr (inl never) ↦ absurd (cc)
  | inr (inr never) ↦ absurd (cc)
]

ends-append :
    (s : Bytes) (c : ℕ) (t : Bytes) → ends_with_slash (s ++ c ∷ t) ≡ ends_with_slash (c ∷ t)
ends-append [] c t = refl
ends-append (a ∷ []) c t = refl
ends-append (a ∷ b ∷ s) c t = ends-append (b ∷ s) c t

-- Whatever follows the first slash of a text is appended to what stands before it.
join_text-lead :
    (s : Bytes) (c d : ℕ)
    → c ≡ b'/'
    → (d == b'/') ≡ false
    → (p : Bytes) × ((y : Bytes) → join_text s (c ∷ d ∷ y) ≡ p ++ d ∷ y)
unfolding join_text trim_left_slash
join_text-lead s c d first second = elim (Bool-cases (ends_with_slash s)) [
  | inl trailing ↦ (s, λ y. rw (trailing, first, second) refl)
  | inr plain ↦ (s ++ c ∷ [], λ y. rw plain (sym (append_assoc s (c ∷ []) (d ∷ y))))
]

join_text-after :
    (p : Bytes) (d : ℕ) (t r : Bytes)
    → join_text (p ++ d ∷ t) r
      ≡ p ++ d ∷ (t ++ (if ends_with_slash (d ∷ t) then trim_left_slash r else r))
unfolding join_text
join_text-after p d t r =
    ap (λ b. (p ++ d ∷ t) ++ (if b then trim_left_slash r else r)) (ends-append p d t)
    ∙ append_assoc p (d ∷ t) (if ends_with_slash (d ∷ t) then trim_left_slash r else r)

join_text_assoc :
    (s t r : Bytes) → HasSlash t → join_text (join_text s t) r ≡ join_text s (join_text t r)
unfolding join_text HasSlash
join_text_assoc s [] r h = absurd h
join_text_assoc s (c ∷ []) r h = absurd h
join_text_assoc s (c ∷ d ∷ t) r (first, second) =
    let (p, put) = join_text-lead s c d first second in
    ap (λ x. join_text x r) (put t)
    ∙ join_text-after p d t r
    ∙ sym (put (t ++ (if ends_with_slash (d ∷ t) then trim_left_slash r else r)))

-- What `segments` does with the names and the text of a join.
abbrev with_text : Bytes → Result UriError (Option CaptureNames) → Result UriError Uri
with_text t r = r >>= λ names. ok (segments t names)

with_text-join :
    (s t r : Bytes) (x y z : Option CaptureNames)
    → HasSlash t
    → (x ≡ none) ⊎ (y ≡ none) ⊎ (z ≡ none)
    → (join (segments s x) (segments t y) >>= λ u. join u (segments r z))
      ≡ (join (segments t y) (segments r z) >>= λ u. join (segments s x) u)
unfolding join
with_text-join s t r x y z h e =
    left (join_names x y)
    ∙ ap (with_text (join_text (join_text s t) r)) (join_names_assoc x y z e)
    ∙ ap (λ w. with_text w (join_names y z >>= λ n. join_names x n)) (join_text_assoc s t r h)
    ∙ right (join_names y z)
  where
    left :
        (q : Result UriError (Option CaptureNames))
        → (with_text (join_text s t) q >>= λ u. join u (segments r z))
          ≡ with_text (join_text (join_text s t) r) (q >>= λ n. join_names n z)
    left (ok n) = refl
    left (err o) = refl

    right :
        (q : Result UriError (Option CaptureNames))
        → with_text (join_text s (join_text t r)) (q >>= λ n. join_names x n)
          ≡ (with_text (join_text t r) q >>= λ u. join (segments s x) u)
    right (ok n) = refl
    right (err o) = refl

return-join : (q : Result UriError Uri) → (q >>= λ u. join root u) ≡ q
unfolding join
return-join (ok u) = refl
return-join (err x) = refl

join-root : (u : Uri) → join u root ≡ ok u
unfolding join
join-root root = refl
join-root (segments s x) = refl

return-root : (q : Result UriError Uri) → (q >>= λ u. join u root) ≡ q
return-root (ok u) = join-root u
return-root (err x) = refl

join_assoc_text :
    (a b c : Uri)
    → ((t : Bytes) (y : Option CaptureNames) → b ≡ segments t y → HasSlash t)
    → (capture_names a ≡ none) ⊎ (capture_names b ≡ none) ⊎ (capture_names c ≡ none)
    → (join a b >>= λ u. join u c) ≡ (join b c >>= λ u. join a u)
unfolding join capture_names
join_assoc_text root b c h e = sym (return-join (join b c))
join_assoc_text (segments s x) root c h e = refl
join_assoc_text (segments s x) (segments t y) root h e =
    return-root (join (segments s x) (segments t y))
join_assoc_text (segments s x) (segments t y) (segments r z) h e =
    with_text-join s t r x y z (h t y refl) e

-- Joining is associative on parsed URIs of which at most two capture names: both orders give the
-- same URI, or the same error.
pub join_assoc :
    (s t r : Bytes) (a b c : Uri)
    → parse s ≡ ok a
    → parse t ≡ ok b
    → parse r ≡ ok c
    → (capture_names a ≡ none) ⊎ (capture_names b ≡ none) ⊎ (capture_names c ≡ none)
    → (join a b >>= λ u. join u c) ≡ (join b c >>= λ u. join a u)
join_assoc s t r a b c left middle right e =
    join_assoc_text a b c (λ x y is. parse-HasSlash t b x y middle is) e
