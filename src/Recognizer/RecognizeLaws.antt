-- ===== src/Recognizer/RecognizeLaws.antt =====
-- tsukuyomi/src/app/recognizer.rs: `RecognizeContext` finds each route of the tree that the path
-- matches, with its captures.
use tsukuyomi.Prelude.{
  ℕ, ◌+◌, ◌<◌, ◌≤◌, ◌≡◌, refl, sym, ap, ◌∙◌, subst, true, false, Option, some, List, [], ◌∷◌, ◌++◌,
  map, append-nil, Bytes, ==_iff, eq_bytes_refl, starts_with, ltb, lt→ltb, length, length-append,
  length-drop, drop-drop, position-span, drop, ◌⊎◌, inl, inr, ok, arith,
}
use mathlib.Core.List.{Memᴰ}
use tsukuyomi.Recognizer.Tree.{NodeKind, static, param, catch_all, Candidates, node, Nodes}
use tsukuyomi.Recognizer.Routes.{Token, byte, any_segment, any_rest, HasDistinctHeads}
use tsukuyomi.Recognizer.Recognize.{
  Captures, Answer, push_param, stop, go_on, is_slash, path_from, match_static, param_span,
  match_param, match_kind, recognize, recognize_child,
}
use tsukuyomi.Recognizer.Matching.{
  segment, Matches, captured, Matches-byte_split, captured-byte_append, Matches-nil, Matches-cons,
}
use tsukuyomi.Recognizer.RouteMembers.{exact, exact_all, node_mem, below_mem}

drop-append : {A : Type 0} (s q : List A) → drop (length s) (s ++ q) ≡ q
drop-append [] q = refl
drop-append (c ∷ s) q = drop-append s q

starts_with-append : (s q : Bytes) → starts_with (s ++ q) s ≡ true
starts_with-append [] q = refl
starts_with-append (c ∷ s) q = rw ((==_iff c c).1 refl) (starts_with-append s q)

module _ (path : Bytes) where
  abbrev pub size : ℕ
  size = length path

  -- The answer that a route calls for.
  abbrev pub Answers : Answer → List Token → ℕ → ℕ → Option Captures → Type 0
  Answers answer ts i offset captures =
      answer ≡ (ok i, captured size ts (drop offset path) offset captures)

  -- The children answer for the routes below.
  abbrev pub AnswersBelow : Nodes → Candidates → ℕ → Type 0
  AnswersBelow ns cs i =
      (us : List Token) (o : ℕ) (captures : Option Captures)
      → Memᴰ (us, i) (exact_all ns)
      → o ≤ length path
      → Matches us (drop o path)
      → Answers (recognize_child path ns cs o captures) us i o captures

  pub path_from-within :
      (offset : ℕ) → offset ≤ length path → path_from path offset ≡ some (drop offset path)
  unfolding path_from
  path_from-within offset h =
      let inside : ltb (length path) offset ≡ false = ground arith in rw inside refl

  -- A slice with a byte begins in the path.
  starts_inside :
      (offset : ℕ) (s : Bytes) (c : ℕ) (q : Bytes)
      → drop offset path ≡ s ++ c ∷ q
      → offset + length s < length path
  starts_inside offset s c q e =
      omega (arith, ap length e, length-append s (c ∷ q), length-drop offset path)

  match_static-onward :
      (s : Bytes) (c : ℕ) (q : Bytes) (leaf : Option ℕ) (offset : ℕ) (captures : Option Captures)
      → drop offset path ≡ s ++ c ∷ q
      → match_static path s leaf offset captures ≡ go_on (offset + length s) captures
  unfolding match_static
  match_static-onward s c q leaf offset captures e =
      let longer : ltb (length s) (length (s ++ c ∷ q)) ≡ true =
        lt→ltb _ _ (omega (arith, length-append s (c ∷ q))) in
      let inside : offset ≤ length path = omega (arith, starts_inside offset s c q e) in
      rw (path_from-within offset inside, e, longer, starts_with-append s (c ∷ q), match_static)
        refl

  match_static-leaf :
      (s : Bytes) (i offset : ℕ) (captures : Option Captures)
      → offset ≤ length path
      → drop offset path ≡ s
      → match_static path s (some i) offset captures ≡ stop (ok i, captures)
  unfolding match_static
  match_static-leaf s i offset captures inside e =
      let same : ltb (length s) (length s) ≡ false = ground arith in
      rw (path_from-within offset inside, e, same, eq_bytes_refl s, match_static) refl

  -- A round of the loop, by how its match ends.
  module _ (kind : NodeKind) (cs : Candidates) (leaf : Option ℕ) (ns : Nodes) (offset : ℕ)
      (captures : Option Captures) where
    recognize-stop :
        {answer : Answer}
        → match_kind path kind leaf cs offset captures ≡ stop answer
        → recognize path (node kind cs leaf ns) offset captures ≡ answer
    unfolding recognize
    recognize-stop e = rw (e, recognize) refl

    recognize-go_on :
        {o : ℕ} {captures' : Option Captures}
        → match_kind path kind leaf cs offset captures ≡ go_on o captures'
        → recognize path (node kind cs leaf ns) offset captures
          ≡ recognize_child path ns cs o captures'
    unfolding recognize
    recognize-go_on e = rw (e, recognize) refl

  static_found :
      (s : Bytes) (cs : Candidates) (leaf : Option ℕ) (ns : Nodes) (ts us : List Token)
      (i offset : ℕ) (captures : Option Captures)
      → HasDistinctHeads ns
      → AnswersBelow ns cs i
      → offset ≤ length path
      → (q : Bytes) → ts ≡ map byte s ++ us
      → drop offset path ≡ s ++ q
      → Matches us q
      → ((us ≡ []) × (leaf ≡ some i)) ⊎ Memᴰ (us, i) (exact_all ns)
      → Answers (recognize path (node (static s) cs leaf ns) offset captures) ts i offset captures
  unfolding match_kind
  static_found s cs leaf ns ts us i offset captures heads ih inside (c ∷ q) same text rest
        (inl (empty, at)) =
      absurd (Matches-cons us c q rest empty)
  static_found s cs leaf ns ts us i offset captures heads ih inside [] same text rest
        (inl (empty, at)) =
      rw (same, text, captured-byte_append size s us [] offset captures, empty)
        (recognize-stop (static s) cs leaf ns offset captures
          (rw at (match_static-leaf s i offset captures inside (text ∙ append-nil s))))
  static_found s cs leaf ns ts us i offset captures heads ih inside [] same text rest (inr below) =
      absurd (below_mem any_rest ns us i heads below (Matches-nil us rest))
  static_found s cs leaf ns ts us i offset captures heads ih inside (c ∷ q) same text rest
        (inr below) =
      let next : drop (offset + length s) path ≡ c ∷ q =
        sym (drop-drop offset (length s) path)
        ∙ ap (drop (length s)) text
        ∙ drop-append s (c ∷ q) in
      recognize-go_on (static s) cs leaf ns offset captures
        (match_static-onward s c q leaf offset captures text)
      ∙ ih us (offset + length s) captures below (omega (arith, starts_inside offset s c q text))
          (rw next rest)
      ∙ ap (λ c. (ok i, c))
          (ap (λ p. captured size us p (offset + length s) captures) next
            ∙ sym (captured-byte_append size s us (c ∷ q) offset captures)
            ∙ ap (λ r. captured size r (s ++ c ∷ q) offset captures) (sym same)
            ∙ ap (λ p. captured size ts p offset captures) (sym text))

  pub static_complete :
      (s : Bytes) (cs : Candidates) (leaf : Option ℕ) (ns : Nodes) (ts : List Token) (i offset : ℕ)
      (captures : Option Captures)
      → HasDistinctHeads ns
      → AnswersBelow ns cs i
      → offset ≤ length path
      → Memᴰ (ts, i) (exact (node (static s) cs leaf ns))
      → Matches ts (drop offset path)
      → Answers (recognize path (node (static s) cs leaf ns) offset captures) ts i offset captures
  unfolding match_kind
  static_complete s cs leaf ns ts i offset captures heads ih inside m fits =
      let (us, same, place) = node_mem any_rest (static s) cs leaf ns ts i m in
      let (q, text, rest) = Matches-byte_split s us (drop offset path) (rw same at fits) in
      static_found s cs leaf ns ts us i offset captures heads ih inside q same text rest place

  pub param_span-segment :
      (offset : ℕ)
      → offset ≤ length path
      → param_span path offset ≡ some (segment (drop offset path))
  unfolding param_span
  param_span-segment offset inside =
      let at = position-span is_slash (drop offset path) in
      rw (path_from-within offset inside, param_span) (ground (arith, at, length-drop offset path))

  match_param-go_on :
      (leaf : Option ℕ) (cs : Candidates) (offset : ℕ) (captures : Option Captures)
      → offset ≤ length path
      → offset + segment (drop offset path) < length path
      → match_param path leaf cs offset captures
        ≡ go_on
            (offset + segment (drop offset path))
            (push_param offset (offset + segment (drop offset path)) captures)
  unfolding match_param
  match_param-go_on leaf cs offset captures inside h =
      let more : ltb (offset + segment (drop offset path)) (length path) ≡ true = lt→ltb _ _ h in
      rw (param_span-segment offset inside, more, match_param) refl

  match_param-leaf :
      (i : ℕ) (cs : Candidates) (offset : ℕ) (captures : Option Captures)
      → offset ≤ length path
      → length path ≤ offset + segment (drop offset path)
      → match_param path (some i) cs offset captures
        ≡ stop (ok i, push_param offset (offset + segment (drop offset path)) captures)
  unfolding match_param
  match_param-leaf i cs offset captures inside h =
      let done : ltb (offset + segment (drop offset path)) (length path) ≡ false = ground arith in
      rw (param_span-segment offset inside, done, match_param) refl

  param_found :
      (cs : Candidates) (leaf : Option ℕ) (ns : Nodes) (us : List Token) (i offset : ℕ)
      (captures : Option Captures)
      → HasDistinctHeads ns
      → AnswersBelow ns cs i
      → offset ≤ length path
      → (q : Bytes) → drop (segment (drop offset path)) (drop offset path) ≡ q
      → Matches us q
      → ((us ≡ []) × (leaf ≡ some i)) ⊎ Memᴰ (us, i) (exact_all ns)
      → Answers
          (recognize path (node param cs leaf ns) offset captures)
          (any_segment ∷ us)
          i
          offset
          captures
  unfolding match_kind
  param_found cs leaf ns us i offset captures heads ih inside (c ∷ q) text rest (inl (empty, at)) =
      absurd (Matches-cons us c q rest empty)
  param_found cs leaf ns us i offset captures heads ih inside [] text rest (inr below) =
      absurd (below_mem any_rest ns us i heads below (Matches-nil us rest))
  param_found cs leaf ns us i offset captures heads ih inside [] text rest (inl (empty, at)) =
      let p = drop offset path in
      let long : length path ≤ offset + segment p =
        omega (arith, ap length text, length-drop (segment p) p, length-drop offset path) in
      rw (text, empty)
        (recognize-stop param cs leaf ns offset captures
          (rw at (match_param-leaf i cs offset captures inside long)))
  param_found cs leaf ns us i offset captures heads ih inside (c ∷ q) text rest (inr below) =
      let p = drop offset path in
      let end : ℕ = offset + segment p in
      let short : end < length path =
        omega (arith, ap length text, length-drop (segment p) p, length-drop offset path) in
      let next : drop end path ≡ drop (segment p) p = sym (drop-drop offset (segment p) path) in
      recognize-go_on param cs leaf ns offset captures
        (match_param-go_on leaf cs offset captures inside short)
      ∙ ih us end (push_param offset end captures) below (omega arith) (rw (next, text) rest)
      ∙ ap (λ t. (ok i, captured size us t end (push_param offset end captures))) next

  catch_all_found :
      (cs : Candidates) (leaf : Option ℕ) (ns : Nodes) (us : List Token) (i offset : ℕ)
      (captures : Option Captures)
      → HasDistinctHeads ns
      → Matches (any_rest ∷ us) (drop offset path)
      → ((us ≡ []) × (leaf ≡ some i)) ⊎ Memᴰ (us, i) (exact_all ns)
      → Answers
          (recognize path (node catch_all cs leaf ns) offset captures)
          (any_rest ∷ us)
          i
          offset
          captures
  unfolding match_kind
  catch_all_found cs leaf ns us i offset captures heads (last, more) (inr below) =
      absurd (below_mem any_rest ns us i heads below last)
  catch_all_found cs leaf ns us i offset captures heads (last, more) (inl (empty, at)) =
      recognize-stop catch_all cs leaf ns offset captures (rw at refl)

  -- The routes through a parameter and a catch-all, by their tokens.
  pub param_complete :
      (cs : Candidates) (leaf : Option ℕ) (ns : Nodes) (ts : List Token) (i offset : ℕ)
      (captures : Option Captures)
      → HasDistinctHeads ns
      → AnswersBelow ns cs i
      → offset ≤ length path
      → Memᴰ (ts, i) (exact (node param cs leaf ns))
      → Matches ts (drop offset path)
      → Answers (recognize path (node param cs leaf ns) offset captures) ts i offset captures
  param_complete cs leaf ns ts i offset captures heads ih inside m fits =
      let (us, same, place) = node_mem any_rest param cs leaf ns ts i m in
      let (some_bytes, rest) = subst (λ r. Matches r (drop offset path)) same fits in
      subst
        (λ r. Answers (recognize path (node param cs leaf ns) offset captures) r i offset captures)
        (sym same) (param_found cs leaf ns us i offset captures heads ih inside _ refl rest place)

  pub catch_all_complete :
      (cs : Candidates) (leaf : Option ℕ) (ns : Nodes) (ts : List Token) (i offset : ℕ)
      (captures : Option Captures)
      → HasDistinctHeads ns
      → Memᴰ (ts, i) (exact (node catch_all cs leaf ns))
      → Matches ts (drop offset path)
      → Answers (recognize path (node catch_all cs leaf ns) offset captures) ts i offset captures
  catch_all_complete cs leaf ns ts i offset captures heads m fits =
      let (us, same, place) = node_mem any_rest catch_all cs leaf ns ts i m in
      subst
        (λ r.
          Answers (recognize path (node catch_all cs leaf ns) offset captures) r i offset captures)
        (sym same)
        (catch_all_found cs leaf ns us i offset captures heads
          (subst (λ r. Matches r (drop offset path)) same fits) place)
