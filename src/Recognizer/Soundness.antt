-- ===== src/Recognizer/Soundness.antt =====
-- tsukuyomi/src/app/recognizer.rs: what `RecognizeContext` answers is the index of a route, and it
-- does not panic.
use tsukuyomi.Prelude.{
  ℕ, ◌≡◌, refl, sym, ap, subst, Bool, true, false, Option, none, some, List, [], ◌∷◌, ◌++◌, Bytes,
  ◌==◌, eq_bytes, ltb, starts_with, length, get_elem?, drop, inl, inr, Bool-cases, Option-cases,
  Result, ok, err, ◌+◌, ◌≤◌, ◌∙◌, length-drop, arith,
}
use mathlib.Core.List.{Memᴰ}
use tsukuyomi.Recognizer.Tree.{
  NodeKind, static, param, catch_all, Candidates, Node, node, Nodes, nil, cons, Tree,
}
use tsukuyomi.Recognizer.Routes.{
  Token, any_segment, Route, prepend, leaf_routes, kind_tokens, routes, routes_all, Allows, label,
  HasDistinctHeads, IsTree, AreTrees,
}
use tsukuyomi.Recognizer.Members.{mem-append_left, mem-append_right, mem-map}
use tsukuyomi.Recognizer.TreeLaws.{IsRouteTree, tree_table}
use tsukuyomi.Recognizer.Matching.{segment}
use tsukuyomi.Recognizer.RecognizeLaws.{path_from-within, param_span-segment}
use tsukuyomi.Recognizer.Recognize.{
  Captures, RecognizeError, not_matched, partially_matched, panic, Answer, Round, stop, go_on,
  after, leaf_or_partial, match_static, match_param, match_kind, accepts, recognize,
  recognize_child, recognize_tree,
}

-- An answer is the index of one of the routes, or one of the two errors that the source returns.
abbrev pub IsAnswer : List Route → Result RecognizeError ℕ → Type 0
IsAnswer rs (ok i) = (ts : List Token) × Memᴰ (ts, i) rs
IsAnswer rs (err not_matched) = Unit
IsAnswer rs (err (partially_matched cs)) = Unit
IsAnswer rs (err panic) = ⊥

abbrev Keeps : List Route → List Route → Type 0
Keeps rs qs = (ts : List Token) (i : ℕ) → Memᴰ (ts, i) rs → (us : List Token) × Memᴰ (us, i) qs

IsAnswer-Keeps :
    (rs qs : List Route) (r : Result RecognizeError ℕ) → Keeps rs qs → IsAnswer rs r → IsAnswer qs r
IsAnswer-Keeps rs qs (ok i) keeps (ts, m) = keeps ts i m
IsAnswer-Keeps rs qs (err not_matched) keeps a = tt
IsAnswer-Keeps rs qs (err (partially_matched cs)) keeps a = tt
IsAnswer-Keeps rs qs (err panic) keeps a = absurd a

-- A round stops with an answer, or goes on from an offset in the path.
abbrev IsRound : ℕ → Option ℕ → Round → Type 0
IsRound size leaf (stop answer) = IsAnswer (leaf_routes leaf) answer.0
IsRound size leaf (go_on offset captures) = offset ≤ size

leaf-IsAnswer :
    (leaf : Option ℕ) (cs : Candidates) → IsAnswer (leaf_routes leaf) (leaf_or_partial leaf cs)
unfolding leaf_or_partial
leaf-IsAnswer none cs = tt
leaf-IsAnswer (some i) cs = ([], Memᴰ.head refl)

module _ (path : Bytes) where
  static-IsRound :
      (s : Bytes) (leaf : Option ℕ) (o : ℕ) (captures : Option Captures)
      → o ≤ length path
      → IsRound (length path) leaf (match_static path s leaf o captures)
  unfolding match_static
  static-IsRound s leaf o captures inside =
      let rest : Bytes = drop o path in
      let from = path_from-within path o inside in
      let size = length-drop o path in
      elim (Bool-cases (ltb (length s) (length rest))) [
        | inl shorter ↦ elim (Bool-cases (starts_with rest s)) [
          | inl whole ↦ rw (from, shorter, whole, IsRound, match_static) (ground arith)
          | inr part ↦ rw (from, shorter, part, IsRound, match_static) tt
        ]
        | inr fits ↦ elim (Bool-cases (ltb (length rest) (length s))) [
          | inl longer ↦ elim (Bool-cases (starts_with s rest)) [
            | inl whole ↦ rw (from, fits, longer, whole, IsRound, match_static) (omega arith)
            | inr part ↦ rw (from, fits, longer, part, IsRound, match_static) tt
          ]
          | inr level ↦ elim (Bool-cases (eq_bytes s rest)) [
            | inr differ ↦ rw (from, fits, level, differ, IsRound, match_static) tt
            | inl same ↦ elim (Option-cases leaf) [
              | inl free ↦ rw (from, fits, level, same, free, IsRound, match_static) (omega arith)
              | inr (i, taken) ↦
                  rw (from, fits, level, same, taken, IsRound, match_static)
                    ([], subst (λ l. Memᴰ ([], i) (leaf_routes l)) (sym taken) (Memᴰ.head refl))
            ]
          ]
        ]
      ]

  param-IsRound :
      (leaf : Option ℕ) (cs : Candidates) (o : ℕ) (captures : Option Captures)
      → o ≤ length path
      → IsRound (length path) leaf (match_param path leaf cs o captures)
  unfolding match_param
  param-IsRound leaf cs o captures inside =
      elim (Bool-cases (ltb (o + segment (drop o path)) (length path))) [
        | inl more ↦
            rw (param_span-segment path o inside, more, IsRound, match_param) (ground arith)
        | inr done ↦
            rw (param_span-segment path o inside, done, IsRound, match_param)
              (leaf-IsAnswer leaf cs)
      ]

  kind-IsRound :
      (kind : NodeKind) (leaf : Option ℕ) (cs : Candidates) (o : ℕ) (captures : Option Captures)
      → o ≤ length path
      → IsRound (length path) leaf (match_kind path kind leaf cs o captures)
  unfolding match_kind
  kind-IsRound (static s) leaf cs o captures inside = static-IsRound s leaf o captures inside
  kind-IsRound param leaf cs o captures inside = param-IsRound leaf cs o captures inside
  kind-IsRound catch_all leaf cs o captures inside = leaf-IsAnswer leaf cs

  accepts_fine :
      (n : Node) (ns : Nodes) (o : ℕ) → Allows (label n) ns → (b : Bool) × (accepts path n o ≡ ok b)
  unfolding accepts
  accepts_fine (node (static []) cs leaf ms) ns o h = absurd h
  accepts_fine (node (static (b ∷ s)) cs leaf ms) ns o h = elim (Option-cases (get_elem? path o)) [
    | inl past ↦ (false, rw (past, accepts) refl)
    | inr (c, at) ↦ (b == c, rw (at, accepts) refl)
  ]
  accepts_fine (node param cs leaf ms) ns o h = (true, refl)
  accepts_fine (node catch_all cs leaf ms) ns o h = (true, refl)

  after-IsAnswer :
      (rs : List Route) (leaf : Option ℕ) (ns : Nodes) (round : Round)
      (next : ℕ → Option Captures → Answer)
      → Keeps (leaf_routes leaf) rs
      → Keeps (routes_all any_segment ns) rs
      → IsRound (length path) leaf round
      → ((o : ℕ) (captures : Option Captures)
          → o ≤ length path
          → IsAnswer (routes_all any_segment ns) (next o captures).0)
      → IsAnswer rs (after round next).0
  after-IsAnswer rs leaf ns (stop answer) next here below fine later =
      IsAnswer-Keeps _ rs answer.0 here fine
  after-IsAnswer rs leaf ns (go_on o captures) next here below fine later =
      IsAnswer-Keeps _ rs _ below (later o captures fine)

  mutual
    unfolding recognize routes IsTree

    node-IsAnswer :
        (n : Node) (o : ℕ) (captures : Option Captures)
        → IsTree n
        → o ≤ length path
        → IsAnswer (routes any_segment n) (recognize path n o captures).0
    node-IsAnswer (node kind cs leaf ns) o captures (text, heads, trees) inside =
        after-IsAnswer (routes any_segment (node kind cs leaf ns)) leaf ns
          (match_kind path kind leaf cs o captures) (recognize_child path ns cs)
          (λ ts i m. (
            kind_tokens any_segment kind ++ ts,
            mem-map (prepend (kind_tokens any_segment kind)) (mem-append_left _ _ m),
          ))
          (λ ts i m. (
            kind_tokens any_segment kind ++ ts,
            mem-map (prepend (kind_tokens any_segment kind))
                (mem-append_right (leaf_routes leaf) _ m),
          ))
          (kind-IsRound kind leaf cs o captures inside)
          (λ p c within. child-IsAnswer ns cs p c heads trees within)

    child-IsAnswer :
        (ns : Nodes) (cs : Candidates) (o : ℕ) (captures : Option Captures)
        → HasDistinctHeads ns
        → AreTrees ns
        → o ≤ length path
        → IsAnswer (routes_all any_segment ns) (recognize_child path ns cs o captures).0
    child-IsAnswer nil cs o captures heads trees inside = tt
    child-IsAnswer (cons n ns) cs o captures (first, heads) (tree, trees) inside =
        let (b, fine) = accepts_fine n ns o first in
        elim (Bool-cases (accepts_fine n ns o first).0) [
          | inl here ↦
              let pick : accepts path n o ≡ ok true = fine ∙ ap ok here in
              rw (pick, IsAnswer)
                (IsAnswer-Keeps (routes any_segment n) _ (recognize path n o captures).0
                  (λ ts i m. (ts, mem-append_left _ _ m)) (node-IsAnswer n o captures tree inside))
          | inr not_here ↦
              let skip : accepts path n o ≡ ok false = fine ∙ ap ok not_here in
              rw (skip, IsAnswer)
                (IsAnswer-Keeps (routes_all any_segment ns) _
                  (recognize_child path ns cs o captures).0
                  (λ ts i m. (ts, mem-append_right (routes any_segment n) _ m))
                  (child-IsAnswer ns cs o captures heads trees inside))
        ]

  -- What a well-formed tree answers is the index of one of its routes, or one of the two errors
  -- that the source returns: the walk does not panic.
  pub recognize_tree-IsAnswer :
      (tree : Tree) (captures : Option Captures)
      → IsRouteTree tree
      → IsAnswer (tree_table tree) (recognize_tree path tree captures).0
  unfolding recognize_tree
  recognize_tree-IsAnswer none captures h = tt
  recognize_tree-IsAnswer (some root) captures h = node-IsAnswer root 0 captures h.1 (omega arith)
