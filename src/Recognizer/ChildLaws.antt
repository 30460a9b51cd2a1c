-- ===== src/Recognizer/ChildLaws.antt =====
-- tsukuyomi/src/app/recognizer.rs: `insert_child` adds one route below a node without children.
use tsukuyomi.Prelude.{
  ℕ, zero, suc, ◌+◌, ◌≤◌, ◌≡◌, refl, sym, subst, true, false, none, some, List, [], ◌∷◌, ◌++◌,
  Bytes, ◌==◌, if◌then◌else◌, ltb, lt→ltb, ◌⊎◌, inl, inr, Bool-cases, Option-cases, Option,
  Result-cases, length, get_elem?, drop, ok, err, arith,
}
use tsukuyomi.Recognizer.Tree.{
  NodeKind, static, param, catch_all, unexpected_kind, Candidates, Node, node, nil, push_child,
}
use tsukuyomi.Recognizer.Wildcard.{is_wildcard, find_wildcard_begin, find_wildcard_end}
use tsukuyomi.Recognizer.WildcardLaws.{
  drop-head, lt-length, drop-length, find_wildcard_end_lem, find_wildcard_begin_lem, in_range-begin,
  slice-head,
}
use tsukuyomi.Recognizer.Insert.{
  Outcome, slice, wildcard_kind, new_node, expect_leaf, insert_static, insert_round, insert_loop,
  insert_child,
}
use tsukuyomi.Recognizer.Routes.{
  Token, any_segment, pattern_of, HasPlainText, IsTree, text_label, kind_label, Allows,
}
use tsukuyomi.Recognizer.Growth.{tokens, Grown, push_fresh-Grown, leaf-Grown}

-- The pattern of the path from an offset on.
abbrev pub pattern_from : Bytes → ℕ → List Token
pattern_from path offset = pattern_of any_segment false (drop offset path)

abbrev pub Walk : Type 0
Walk = Node → ℕ → Node × Outcome

-- What `wildcard_kind` promises of the pattern at a byte.
abbrev StartsWith : ℕ → Bytes → NodeKind → Type 0
StartsWith c s k =
    (pattern_of any_segment false (c ∷ s) ≡ tokens k ++ pattern_of any_segment true s)
    × Allows (kind_label k) nil
    × HasPlainText k

wildcard_token :
    (c : ℕ) (s : Bytes) (k : NodeKind)
    → (if c == b':' then ok param else if c == b'*' then ok catch_all else err (unexpected_kind c))
      ≡ ok k
    → StartsWith c s k
unfolding pattern_of
wildcard_token c s (static t) e = absurd (ground arith)
wildcard_token c s param e = (ground arith, tt, tt)
wildcard_token c s catch_all e = (ground arith, tt, tt)

-- The wildcard at a position: its token, and what is left of the path after its name.
pub wildcard_kind_lem :
    (path : Bytes) (pos : ℕ) {i : ℕ} {k : NodeKind}
    → wildcard_kind path pos ≡ ok k
    → find_wildcard_end path pos ≡ ok i
    → (pattern_from path pos ≡ tokens k ++ pattern_from path i)
      × Allows (kind_label k) nil
      × HasPlainText k
wildcard_kind_lem path pos {k} is good = elim (Option-cases (get_elem? path pos)) [
  | inl missing ↦ absurd (cc (rw (missing, wildcard_kind) at is))
  | inr (c, at) ↦
      let (text, allowed, plain) =
        wildcard_token c (drop (suc pos) path) k (rw (at, wildcard_kind) at is) in
      let name = (find_wildcard_end_lem any_segment path pos good).name in
      (rw (drop-head path pos at, text, name) refl, allowed, plain)
]

module _ (index : ℕ) where
  -- A walk that adds the path from its offset on to a node.
  abbrev pub Adds : Bytes → Node → NodeKind → ℕ → Node × Outcome → Type 0
  Adds path n kind pos (m, outcome) =
      outcome ≡ ok tt → Grown n m (tokens kind ++ pattern_from path pos, index)

  expect_leaf_lem :
      (path : Bytes) (kind : NodeKind) (cs : Candidates) (leaf : Option ℕ)
      → IsTree (node kind cs leaf nil)
      → Adds path
          (node kind cs leaf nil)
          kind
          (length path)
          (expect_leaf index (node kind cs leaf nil))
  unfolding expect_leaf pattern_of
  expect_leaf_lem path kind cs none h e =
      rw (drop-length path) (leaf-Grown kind cs none nil index h)
  expect_leaf_lem path kind cs (some i) h e = cc

  module _ (path : Bytes) (next : Walk) where
    abbrev AddsFresh : Type 0
    AddsFresh =
        (kind : NodeKind) (pos : ℕ)
        → pos ≤ length path
        → HasPlainText kind
        → Adds path (new_node index kind) kind pos (next (new_node index kind) pos)

    -- The static text from a plain byte on, and what follows it, below a node.
    text-Grown :
        (kind : NodeKind) (cs : Candidates) (leaf : Option ℕ) (i : ℕ) {c : ℕ}
        → AddsFresh
        → IsTree (node kind cs leaf nil)
        → get_elem? path i ≡ some c
        → is_wildcard c ≡ false
        → (next
            (new_node index (static (slice path i (find_wildcard_begin path i))))
            (find_wildcard_begin path i)).1
          ≡ ok tt
        → Grown
            (node kind cs leaf nil)
            (push_child
              (node kind cs leaf nil)
              (next
                (new_node index (static (slice path i (find_wildcard_begin path i))))
                (find_wildcard_begin path i)).0)
            (tokens kind ++ pattern_from path i, index)
    text-Grown kind cs leaf i ih h at plain e =
        let bound : i ≤ length path = omega (arith, lt-length path i at) in
        let begin = find_wildcard_begin_lem path i bound any_segment in
        let (s, text) = slice-head path i at plain in
        let g =
          ih (static (slice path i (find_wildcard_begin path i))) (find_wildcard_begin path i)
            begin.within begin.plain e in
        rw begin.text (
          push_fresh-Grown index kind cs leaf (static (slice path i (find_wildcard_begin path i))) _
            _ h (subst (λ t. Allows (text_label t) nil) (sym text) tt) g)

    insert_static_lem :
        (kind : NodeKind) (i : ℕ)
        → AddsFresh
        → i ≤ length path
        → (i ≡ length path) ⊎ (get_elem? path i ≡ some b'/')
        → HasPlainText kind
        → Adds path
            (new_node index kind)
            kind
            i
            (insert_static index next path (new_node index kind) i)
    unfolding insert_static IsTree
    insert_static_lem kind i ih bound (inl at_end) plain e =
        let stop : ltb i (length path) ≡ false = ground arith in
        rw (stop, insert_static) (ih kind i bound plain (rw (stop, insert_static) at e))
    insert_static_lem kind i ih bound (inr slash) plain e =
        let go : ltb i (length path) ≡ true = lt→ltb i (length path) (lt-length path i slash) in
        let inside = in_range-begin path i bound in
        rw (go, inside, insert_static)
          (text-Grown kind (index ∷ []) none i ih (plain, tt, tt) slash refl
            (rw (go, inside, insert_static) at e))

    insert_round_lem :
        (kind : NodeKind) (cs : Candidates) (leaf : Option ℕ) (pos : ℕ)
        → AddsFresh
        → IsTree (node kind cs leaf nil)
        → Adds path
            (node kind cs leaf nil)
            kind
            pos
            (insert_round index next path (node kind cs leaf nil) pos)
    unfolding insert_round
    insert_round_lem kind cs leaf pos ih h e = elim (Result-cases (find_wildcard_end path pos)) [
      | inl (x, bad) ↦ absurd (cc (rw (bad, insert_round) at e))
      | inr (i, good) ↦ elim (Result-cases (wildcard_kind path pos)) [
        | inl (x, bad) ↦ absurd (cc (rw (good, bad, insert_round) at e))
        | inr (k, is) ↦
            let end = find_wildcard_end_lem any_segment path pos good in
            let (text, allowed, plain) = wildcard_kind_lem path pos is good in
            rw (good, is, insert_round, text)
              (push_fresh-Grown index kind cs leaf k _ _ h allowed (
                insert_static_lem k i ih end.within end.stop plain
                  (rw (good, is, insert_round) at e)))
      ]
    ]

  insert_loop_lem :
      (f : ℕ) (path : Bytes) (kind : NodeKind) (cs : Candidates) (leaf : Option ℕ) (pos : ℕ)
      → IsTree (node kind cs leaf nil)
      → pos ≤ length path
      → Adds path
          (node kind cs leaf nil)
          kind
          pos
          (insert_loop index f path (node kind cs leaf nil) pos)
  unfolding insert_loop IsTree
  insert_loop_lem zero path kind cs leaf pos h bound e = cc
  insert_loop_lem (suc f) path kind cs leaf pos h bound e =
      elim (Bool-cases (ltb pos (length path))) [
        | inl more ↦
            rw (more, insert_loop)
              (insert_round_lem path (insert_loop index f path) kind cs leaf pos
                (λ k p below plain.
                  insert_loop_lem f path k (index ∷ []) none p (plain, tt, tt) below)
                h (rw (more, insert_loop) at e))
        | inr done ↦
            let at_end : pos ≡ length path = ground arith in
            rw (done, insert_loop, at_end)
              (expect_leaf_lem path kind cs leaf h (rw (done, insert_loop) at e))
      ]

  -- A success of `insert_child` adds the route of the path from the offset on.
  pub insert_child_lem :
      (path : Bytes) (kind : NodeKind) (cs : Candidates) (leaf : Option ℕ) (offset : ℕ)
      → IsTree (node kind cs leaf nil)
      → Adds path
          (node kind cs leaf nil)
          kind
          offset
          (insert_child index path (node kind cs leaf nil) offset)
  unfolding insert_child
  insert_child_lem path kind cs leaf offset h e = elim (Bool-cases (ltb (length path) offset)) [
    | inl outside ↦ absurd (cc (rw (outside, insert_child) at e))
    | inr within ↦
        rw (within, insert_child)
          (insert_loop_lem (length (drop offset path) + 1) (drop offset path) kind cs leaf 0 h
            (omega arith) (rw (within, insert_child) at e))
  ]
