-- ===== src/Recognizer/Safety.antt =====
-- tsukuyomi/src/app/recognizer.rs: `InsertContext` ends: no walk runs out of fuel, and none
-- panics.
use tsukuyomi.Prelude.{
  ℕ, zero, suc, ◌+◌, ◌<◌, ◌≤◌, ◌≡◌, refl, subst, Bool, true, false, none, some, List, [], ◌∷◌,
  Bytes, ltb, length, length-drop, get_elem?, drop, ◌⊎◌, inl, inr, Bool-cases, Result-cases, Result,
  ok, err, arith, ltb→lt, lt→ltb,
}
use tsukuyomi.Recognizer.Tree.{InsertError, out_of_fuel, panic, NodeKind, Node, node}
use tsukuyomi.Recognizer.Wildcard.{
  is_wildcard, find_wildcard_begin, follows_slash, name_end, checked_end, find_wildcard_end,
}
use tsukuyomi.Recognizer.Routes.{any_rest}
use tsukuyomi.Recognizer.WildcardLaws.{
  find_wildcard_end_lem, find_wildcard_begin_lem, in_range-begin, IsMark, IsMark-drop,
  find_wildcard_begin-IsMark,
}
use tsukuyomi.Recognizer.Insert.{
  Outcome, wildcard_kind, new_node, expect_leaf, insert_static, insert_round, insert_loop,
  insert_child, slice,
}

-- An error that the source reports by `bail!`.
unfoldable pub is_reported : InsertError → Bool
is_reported panic = false
is_reported out_of_fuel = false
is_reported _ = true

abbrev pub Ends : {A : Type 0} → Result InsertError A → Type 0
Ends (ok a) = Unit
Ends (err e) = is_reported e ≡ true

name_end-Ends : (s : Bytes) (a : ℕ) → Ends (name_end s a)
unfolding name_end is_reported
name_end-Ends [] a = tt
name_end-Ends (c ∷ s) a = ground (arith, name_end-Ends s (a + 1))

checked_end-Ends : (path : Bytes) (offset kind end : ℕ) → Ends (checked_end path offset kind end)
unfolding checked_end is_reported
checked_end-Ends path offset kind end = ground arith

pub find_wildcard_end-Ends :
    (path : Bytes) (offset : ℕ) {c : ℕ}
    → get_elem? path offset ≡ some c
    → is_wildcard c ≡ true
    → Ends (find_wildcard_end path offset)
unfolding find_wildcard_end is_reported
find_wildcard_end-Ends path offset e wild = elim (Bool-cases (follows_slash path offset)) [
  | inr bad ↦ rw (e, wild, bad, Ends, find_wildcard_end) refl
  | inl good ↦ elim (Result-cases (name_end (drop (offset + 1) path) 1)) [
    | inl (x, bad) ↦
        rw (e, wild, good, bad, Ends, find_wildcard_end)
          (subst Ends bad (name_end-Ends (drop (offset + 1) path) 1))
    | inr (end, done) ↦
        rw (e, wild, good, done, Ends, find_wildcard_end) (checked_end-Ends path offset _ end)
  ]
]

pub get_elem?_lt {ℓ} :
    {A : Type ℓ} (xs : List A) (i : ℕ) → i < length xs → (c : A) × (get_elem? xs i ≡ some c)
get_elem?_lt [] i h = absurd (omega arith)
get_elem?_lt (x ∷ xs) zero h = (x, refl)
get_elem?_lt (x ∷ xs) (suc i) h = get_elem?_lt xs i (omega arith)

unfoldable pub HasNoLeaf : Node → Type 0
HasNoLeaf (node kind cs leaf ns) = leaf ≡ none

module _ (index : ℕ) (path : Bytes) where
  expect_leaf-Ends : (n : Node) → HasNoLeaf n → Ends (expect_leaf index n).1
  unfolding expect_leaf HasNoLeaf
  expect_leaf-Ends (node kind cs leaf ns) e = rw e tt

  -- What the rest of the path does from a position on.
  abbrev GoesOn : (Node → ℕ → Node × Outcome) → ℕ → Type 0
  GoesOn next i =
      (m : Node) (q : ℕ) → HasNoLeaf m → i ≤ q → q ≤ length path → IsMark path q → Ends (next m q).1

  static_Ends :
      (next : Node → ℕ → Node × Outcome) (n : Node) (i : ℕ)
      → HasNoLeaf n
      → i ≤ length path
      → GoesOn next i
      → Ends (insert_static index next path n i).1
  unfolding insert_static HasNoLeaf
  static_Ends next n i fresh bound ends = elim (Bool-cases (ltb i (length path))) [
    | inl more ↦
        let begin = find_wildcard_begin_lem path i bound any_rest in
        rw (more, in_range-begin path i bound)
          (ends (new_node index (NodeKind.static (slice path i (find_wildcard_begin path i))))
            (find_wildcard_begin path i) refl begin.from begin.within
            (find_wildcard_begin-IsMark path i bound))
    | inr done ↦
        let at_end : i ≡ length path = ground arith in
        rw done (ends n i fresh (omega arith) bound (inl at_end))
  ]

  kind_Ends : (pos : ℕ) {c : ℕ} → get_elem? path pos ≡ some c → Ends (wildcard_kind path pos)
  unfolding is_reported
  kind_Ends pos {c} e = rw (e, Ends) (ground arith)

  round_Ends :
      (next : Node → ℕ → Node × Outcome) (n : Node) (pos : ℕ) {c : ℕ}
      → get_elem? path pos ≡ some c
      → is_wildcard c ≡ true
      → GoesOn next (suc pos)
      → Ends (insert_round index next path n pos).1
  unfolding insert_round HasNoLeaf
  round_Ends next n pos at wild ends = elim (Result-cases (find_wildcard_end path pos)) [
    | inl (x, bad) ↦
        rw (bad, Ends, insert_round) (subst Ends bad (find_wildcard_end-Ends path pos at wild))
    | inr (i, good) ↦ elim (Result-cases (wildcard_kind path pos)) [
      | inl (x, bad) ↦ rw (good, bad, Ends, insert_round) (subst Ends bad (kind_Ends pos at))
      | inr (kind, known) ↦
          let end = find_wildcard_end_lem any_rest path pos good in
          rw (good, known, Ends, insert_round)
            (static_Ends next (new_node index kind) i refl end.within
              (λ m q fresh from within mark. ends m q fresh (omega (arith, end.later)) within mark))
    ]
  ]

  loop_Ends :
      (f : ℕ) (n : Node) (pos : ℕ)
      → pos ≤ length path
      → length path < pos + f
      → IsMark path pos
      → (pos < length path) ⊎ HasNoLeaf n
      → Ends (insert_loop index f path n pos).1
  unfolding insert_loop
  loop_Ends zero n pos bound fuel mark start = absurd (omega arith)
  loop_Ends (suc f) n pos bound fuel mark start = elim (Bool-cases (ltb pos (length path))) [
    | inl more ↦
        let before = ltb→lt pos (length path) more in
        elim mark [
          | inl at_end ↦ absurd (omega (arith, before, at_end))
          | inr (c, at, wild) ↦ rw more (
              round_Ends (insert_loop index f path) n pos at wild (λ m q fresh from within stop.
                loop_Ends f m q within (omega arith) stop (inr fresh)))
        ]
    | inr done ↦ rw done (
        expect_leaf-Ends n (elim start [
          | inl before ↦ absurd (cc (lt→ltb pos (length path) before))
          | inr fresh ↦ fresh
        ]))
  ]

pub insert_child-Ends :
    (index : ℕ) (path : Bytes) (n : Node) (offset : ℕ)
    → offset ≤ length path
    → IsMark path offset
    → (offset < length path) ⊎ HasNoLeaf n
    → Ends (insert_child index path n offset).1
unfolding insert_child
insert_child-Ends index path n offset bound mark start =
    let size = length-drop offset path in
    let inside : ltb (length path) offset ≡ false = ground arith in
    rw (inside, Ends, insert_child)
      (loop_Ends index (drop offset path) (length (drop offset path) + 1) n 0 (omega arith)
        (omega arith) (IsMark-drop path offset bound mark)
        (elim start [ inl more ↦ inl (omega (arith, size)) | inr fresh ↦ inr fresh ]))
