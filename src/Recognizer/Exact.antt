-- ===== src/Recognizer/Exact.antt =====
-- tsukuyomi/src/app/recognizer.rs: the tree of the first path. `insert_child` builds a branch below a
-- new node, in which each wildcard has the kind that the path writes.
use tsukuyomi.Prelude.{
  ℕ, zero, suc, ◌+◌, ◌≤◌, ◌≡◌, refl, true, false, none, some, [], ◌∷◌, ◌++◌, List, Bytes, ◌==◌,
  if◌then◌else◌, ltb, inl, inr, Bool-cases, Option-cases, Result-cases, length, get_elem?, take,
  drop, ok, err, arith,
}
use tsukuyomi.Recognizer.Tree.{
  NodeKind, static, param, catch_all, unexpected_kind, Node, Tree, push_nodes, push_child,
}
use tsukuyomi.Recognizer.Wildcard.{find_wildcard_begin, find_wildcard_end}
use tsukuyomi.Recognizer.WildcardLaws.{
  drop-head, drop-length, find_wildcard_end_lem, find_wildcard_begin_lem, in_range-begin,
}
use tsukuyomi.Recognizer.Insert.{
  Outcome, slice, wildcard_kind, new_node, expect_leaf, insert_static, insert_round, insert_loop,
  insert_child, visit_tree,
}
use tsukuyomi.Recognizer.Routes.{Token, any_rest, kind_tokens, routes, pattern_of}
use tsukuyomi.Recognizer.ChildLaws.{Walk}

module _ (rest : Token) where
  kind_token :
      (c : ℕ) (s : Bytes) (k : NodeKind)
      → (if c == b':'
          then ok param
          else if c == b'*'
          then ok catch_all
          else err (unexpected_kind c))
        ≡ ok k
      → pattern_of rest false (c ∷ s) ≡ kind_tokens rest k ++ pattern_of rest true s
  unfolding pattern_of
  kind_token c s (static t) e = absurd (ground arith)
  kind_token c s param e = ground arith
  kind_token c s catch_all e = ground arith

  name_tokens :
      (path : Bytes) (pos : ℕ) {i : ℕ} {k : NodeKind}
      → wildcard_kind path pos ≡ ok k
      → find_wildcard_end path pos ≡ ok i
      → pattern_of rest false (drop pos path)
        ≡ kind_tokens rest k ++ pattern_of rest false (drop i path)
  name_tokens path pos {k} is good = elim (Option-cases (get_elem? path pos)) [
    | inl missing ↦ absurd (cc (rw (missing, wildcard_kind) at is))
    | inr (c, at) ↦
        let text = kind_token c (drop (suc pos) path) k (rw (at, wildcard_kind) at is) in
        let name = (find_wildcard_end_lem rest path pos good).name in
        rw (drop-head path pos at, text, name) refl
  ]

  module _ (index : ℕ) where
    -- A walk that leaves one route below a node, for the path from its offset on.
    abbrev Plants : Bytes → NodeKind → ℕ → Node × Outcome → Type 0
    Plants path kind pos (m, outcome) =
        outcome ≡ ok tt
        → routes rest m
          ≡ (kind_tokens rest kind ++ pattern_of rest false (drop pos path), index) ∷ []

    expect_leaf-Plants :
        (path : Bytes) (kind : NodeKind)
        → Plants path kind (length path) (expect_leaf index (new_node index kind))
    unfolding expect_leaf pattern_of routes
    expect_leaf-Plants path kind e = rw (drop-length path) refl

    routes-push :
        (kind : NodeKind) (ch : Node) (ts : List Token)
        → routes rest ch ≡ (ts, index) ∷ []
        → routes rest (push_child (new_node index kind) ch)
          ≡ (kind_tokens rest kind ++ ts, index) ∷ []
    unfolding routes push_nodes
    routes-push kind ch ts e = rw e refl

    module _ (path : Bytes) (next : Walk) where
      abbrev PlantsFresh : Type 0
      PlantsFresh =
          (kind : NodeKind) (pos : ℕ)
          → pos ≤ length path
          → Plants path kind pos (next (new_node index kind) pos)

      static-Plants :
          (kind : NodeKind) (i : ℕ)
          → PlantsFresh
          → i ≤ length path
          → Plants path kind i (insert_static index next path (new_node index kind) i)
      unfolding insert_static
      static-Plants kind i ih bound e = elim (Bool-cases (ltb i (length path))) [
        | inr stop ↦ rw (stop, insert_static) (ih kind i bound (rw (stop, insert_static) at e))
        | inl go ↦
            let inside = in_range-begin path i bound in
            let begin = find_wildcard_begin_lem path i bound rest in
            let text = static (slice path i (find_wildcard_begin path i)) in
            rw (go, inside, insert_static, begin.text)
              (routes-push kind _ _ (
                ih text (find_wildcard_begin path i) begin.within
                  (rw (go, inside, insert_static) at e)))
      ]

      round-Plants :
          (kind : NodeKind) (pos : ℕ)
          → PlantsFresh
          → Plants path kind pos (insert_round index next path (new_node index kind) pos)
      unfolding insert_round
      round-Plants kind pos ih e = elim (Result-cases (find_wildcard_end path pos)) [
        | inl (x, bad) ↦ absurd (cc (rw (bad, insert_round) at e))
        | inr (i, good) ↦ elim (Result-cases (wildcard_kind path pos)) [
          | inl (x, bad) ↦ absurd (cc (rw (good, bad, insert_round) at e))
          | inr (k, is) ↦
              let end = find_wildcard_end_lem rest path pos good in
              rw (good, is, insert_round, name_tokens path pos is good)
                (routes-push kind _ _
                  (static-Plants k i ih end.within (rw (good, is, insert_round) at e)))
        ]
      ]

    loop-Plants :
        (f : ℕ) (path : Bytes) (kind : NodeKind) (pos : ℕ)
        → pos ≤ length path
        → Plants path kind pos (insert_loop index f path (new_node index kind) pos)
    unfolding insert_loop
    loop-Plants zero path kind pos bound e = cc
    loop-Plants (suc f) path kind pos bound e = elim (Bool-cases (ltb pos (length path))) [
      | inl more ↦
          rw (more, insert_loop)
            (round-Plants path (insert_loop index f path) kind pos
              (λ k p below. loop-Plants f path k p below) (rw (more, insert_loop) at e))
      | inr done ↦
          let at_end : pos ≡ length path = ground arith in
          rw (done, insert_loop, at_end)
            (expect_leaf-Plants path kind (rw (done, insert_loop) at e))
    ]

    child-Plants :
        (path : Bytes) (kind : NodeKind) (offset : ℕ)
        → Plants path kind offset (insert_child index path (new_node index kind) offset)
    unfolding insert_child
    child-Plants path kind offset e = elim (Bool-cases (ltb (length path) offset)) [
      | inl outside ↦ absurd (cc (rw (outside, insert_child) at e))
      | inr within ↦
          rw (within, insert_child)
            (loop-Plants (length (drop offset path) + 1) (drop offset path) kind 0 (omega arith)
              (rw (within, insert_child) at e))
    ]

-- The first path that is inserted gives the tree with its pattern as the only route, in which a `:`
-- is a parameter and a `*` a catch-all. Of a later path nothing is said.
abbrev pub KeepsKinds : ℕ → Bytes → Tree → Tree → Type 0
KeepsKinds index path none none = ⊥
KeepsKinds index path none (some root) =
    routes any_rest root ≡ (pattern_of any_rest false path, index) ∷ []
KeepsKinds index path (some root) tree = Unit

pub visit_tree-KeepsKinds :
    (index : ℕ) (path : Bytes) (tree : Tree)
    → (visit_tree index path tree).1 ≡ ok tt
    → KeepsKinds index path tree (visit_tree index path tree).0
unfolding visit_tree
visit_tree-KeepsKinds index path (some root) e = tt
visit_tree-KeepsKinds index path none e =
    let inside = in_range-begin path 0 (omega arith) in
    let begin = find_wildcard_begin_lem path 0 (omega arith) any_rest in
    let text = static (take (find_wildcard_begin path 0) path) in
    rw (inside, KeepsKinds, visit_tree)
      (rw begin.text (
        child-Plants any_rest index path text (find_wildcard_begin path 0)
          (rw (inside, visit_tree) at e)))
