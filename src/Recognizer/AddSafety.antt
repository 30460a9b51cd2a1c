-- ===== src/Recognizer/AddSafety.antt =====
-- tsukuyomi/src/app/recognizer.rs: the walk of `add_path` ends: it does not run out of fuel and
-- does not panic.
use tsukuyomi.Prelude.{
  ℕ, zero, suc, ◌+◌, ◌<◌, ◌≤◌, ◌≡◌, refl, sym, subst, true, false, Option, none, some, [], ◌∷◌,
  Bytes, ◌==◌, ltb, length, length-drop, get_elem?, drop, take, inl, inr, Bool-cases, Option-cases,
  Result-cases, arith, ltb→lt,
}
use tsukuyomi.Recognizer.Tree.{
  NodeKind, static, param, catch_all, Candidates, Node, node, Nodes, nil, cons, Tree, is_empty,
  any_static, any_catch_all, node_at, touch,
}
use tsukuyomi.Recognizer.Wildcard.{
  is_wildcard, longest_common_prefix, find_wildcard_begin, find_wildcard_end,
}
use tsukuyomi.Recognizer.Routes.{any_rest, starts, label, HasDistinctHeads, IsTree}
use tsukuyomi.Recognizer.WildcardLaws.{
  find_wildcard_end_lem, find_wildcard_begin_lem, find_wildcard_begin-IsMark, in_range-begin,
  lt-length, drop-head, longest_common_prefix_lem,
}
use tsukuyomi.Recognizer.SiblingLaws.{find_child-found}
use tsukuyomi.Recognizer.Growth.{split-IsTree}
use tsukuyomi.Recognizer.AddLaws.{AreTrees-node_at}
use tsukuyomi.Recognizer.RoundLaws.{onward, add_path-onward, split_less, split_whole, common}
use tsukuyomi.Recognizer.TreeLaws.{IsRouteTree}
use tsukuyomi.Recognizer.Safety.{
  is_reported, Ends, find_wildcard_end-Ends, get_elem?_lt, insert_child-Ends, HasNoLeaf,
}
use tsukuyomi.Recognizer.Insert.{
  Outcome, find_child, new_node, slice, insert_child, finish, split, descend, insert_segment,
  follow_wildcard, insert_rest, add_path, visit_tree,
}

find_child-Ends : (c : ℕ) (ns : Nodes) (i : ℕ) → HasDistinctHeads ns → Ends (find_child c ns i)
unfolding find_child is_reported
find_child-Ends c nil i h = tt
find_child-Ends c (cons (node (static []) cs leaf ms) ns) i h = absurd h.0
find_child-Ends c (cons (node (static (b ∷ s)) cs leaf ms) ns) i (first, h) =
    elim (Bool-cases (b == c)) [
      | inl same ↦ rw (same, Ends, find_child) tt
      | inr other ↦ rw (other, Ends, find_child) (find_child-Ends c ns (i + 1) h)
    ]
find_child-Ends c (cons (node param cs leaf ms) ns) i h = refl
find_child-Ends c (cons (node catch_all cs leaf ms) ns) i h = refl

finish-Ends : (index : ℕ) (n : Node) → Ends (finish index n).1
unfolding finish is_reported
finish-Ends index (node kind cs leaf ns) = elim (Bool-cases (any_catch_all ns)) [
  | inl bad ↦ rw (bad, Ends, finish) refl
  | inr fine ↦ elim (Option-cases leaf) [
    | inl free ↦ rw (fine, free, Ends, finish) tt
    | inr (i, taken) ↦ rw (fine, taken, Ends, finish) refl
  ]
]

first_child : (ns : Nodes) → is_empty ns ≡ false → (ch : Node) × (node_at ns 0 ≡ some ch)
unfolding is_empty node_at
first_child nil e = cc
first_child (cons n ns) e = (n, refl)

within-lt : (a b : ℕ) → a ≤ b → (a == b) ≡ false → a < b
within-lt a b h e = ground arith

common_pos :
    (t : Bytes) (b : ℕ) (s : Bytes) {c : ℕ} {u : Bytes}
    → t ≡ c ∷ u
    → b ≡ c
    → 0 < longest_common_prefix t (b ∷ s)
unfolding longest_common_prefix
common_pos [] b s e same = cc
common_pos (a ∷ t) b s {c} e same =
    let equal : (a == b) ≡ true = ground arith in rw equal (omega arith)

module _ (index : ℕ) (path : Bytes) where
  -- What the next rounds do from an offset on: a node that is entered past a byte, and one whose
  -- first byte is the next of the path.
  abbrev Onward : (Node → ℕ → Node × Outcome) → ℕ → Type 0
  Onward next o =
      ((ch : Node) (q : ℕ) → IsTree ch → o < q → q < length path → Ends (next ch q).1)
      × ((ch : Node) (c : ℕ)
          → IsTree ch
          → get_elem? path o ≡ some c
          → label ch ≡ starts c
          → Ends (next ch o).1)

  module _ (next : Node → ℕ → Node × Outcome) (kind : NodeKind) (cs : Candidates) (leaf : Option ℕ)
      (ns : Nodes) (o : ℕ) (h : IsTree (node kind cs leaf ns)) (ends : Onward next o) where
    segment_Ends :
        (c : ℕ)
        → get_elem? path o ≡ some c
        → Ends (insert_segment index path next (node kind cs leaf ns) o c).1
    unfolding insert_segment IsTree HasNoLeaf
    segment_Ends c at = elim (Result-cases (find_child c ns 0)) [
      | inl (x, bad) ↦ rw (bad, Ends, insert_segment) (subst Ends bad (find_child-Ends c ns 0 h.1))
      | inr (none, missing) ↦
          let bound : o ≤ length path = omega (arith, lt-length path o at) in
          let begin = find_wildcard_begin_lem path o bound any_rest in
          let end : ℕ = find_wildcard_begin path o in
          let ch : Node = new_node index (static (slice path o end)) in
          let inside = in_range-begin path o bound in
          elim (Result-cases (insert_child index path ch end).1) [
            | inl (x, bad) ↦
                rw (missing, inside, bad, Ends, insert_segment)
                  (subst Ends bad (
                    insert_child-Ends index path ch end begin.within
                      (find_wildcard_begin-IsMark path o bound) (inr refl)))
            | inr (u, good) ↦ rw (missing, inside, good, Ends, insert_segment) tt
          ]
      | inr (some pos, found) ↦
          let (k, here, ch, first, text, head) = find_child-found c ns 0 found in
          let same : k ≡ pos = omega arith in
          let first' : node_at ns pos ≡ some ch = rw same at first in
          rw (found, first', Ends, insert_segment, descend)
            (ends.1 ch c (AreTrees-node_at ns pos first' h.2) at head)
    ]

    wildcard_Ends :
        (c : ℕ)
        → get_elem? path o ≡ some c
        → is_wildcard c ≡ true
        → is_empty ns ≡ false
        → Ends (follow_wildcard index path next (node kind cs leaf ns) o).1
    unfolding follow_wildcard IsTree is_reported
    wildcard_Ends c at wild full = elim (Bool-cases (any_static ns)) [
      | inl bad ↦ rw (bad, Ends, follow_wildcard) refl
      | inr fine ↦ elim (Result-cases (find_wildcard_end path o)) [
        | inl (x, bad) ↦
            rw (fine, bad, Ends, follow_wildcard)
              (subst Ends bad (find_wildcard_end-Ends path o at wild))
        | inr (end, good) ↦
            let fact = find_wildcard_end_lem any_rest path o good in
            let (ch, first) = first_child ns full in
            let tree = AreTrees-node_at ns 0 first h.2 in
            elim (Bool-cases (end == length path)) [
              | inl at_end ↦
                  rw (fine, good, first, at_end, Ends, follow_wildcard, descend)
                    (finish-Ends index ch)
              | inr more ↦
                  let before : end < length path = within-lt end (length path) fact.within more in
                  rw (fine, good, first, more, Ends, follow_wildcard, descend)
                    (ends.0 ch end tree fact.later before)
            ]
      ]
    ]

    rest_at :
        (c : ℕ)
        → o < length path
        → get_elem? path o ≡ some c
        → Ends (insert_rest index path next (node kind cs leaf ns) o).1
    unfolding insert_rest is_reported
    rest_at c bound at = elim (Bool-cases (is_empty ns)) [
      | inl bare ↦ elim (Bool-cases (c == b':')) [
        | inl colon ↦
            let wild : is_wildcard c ≡ true = ground arith in
            rw (at, colon, bare, Ends, insert_rest)
              (insert_child-Ends index path (node kind cs leaf ns) o (omega arith)
                (inr (c, at, wild)) (inl bound))
        | inr other ↦ elim (Bool-cases (c == b'*')) [
          | inl star ↦ rw (at, other, star, bare, Ends, insert_rest) refl
          | inr plain ↦ rw (at, other, plain, Ends, insert_rest) (segment_Ends c at)
        ]
      ]
      | inr full ↦ elim (Bool-cases (c == b':')) [
        | inl colon ↦
            let star : (c == b'*') ≡ false = ground arith in
            let wild : is_wildcard c ≡ true = ground arith in
            rw (at, colon, star, full, Ends, insert_rest) (wildcard_Ends c at wild full)
        | inr other ↦ elim (Bool-cases (c == b'*')) [
          | inl star ↦
              let wild : is_wildcard c ≡ true = ground arith in
              rw (at, other, star, full, Ends, insert_rest) (wildcard_Ends c at wild full)
          | inr plain ↦ rw (at, other, plain, Ends, insert_rest) (segment_Ends c at)
        ]
      ]
    ]

    rest_Ends : o < length path → Ends (insert_rest index path next (node kind cs leaf ns) o).1
    rest_Ends bound = let (c, at) = get_elem?_lt path o bound in rest_at c bound at

  onward-Ends :
      (next : Node → ℕ → Node × Outcome) (n : Node) (o : ℕ)
      → IsTree n
      → Onward next o
      → o ≤ length path
      → Ends (onward index path next n o).1
  unfolding onward
  onward-Ends next (node kind cs leaf ns) o h ends bound = elim (Bool-cases (o == length path)) [
    | inl at_end ↦ rw (at_end, Ends, onward) (finish-Ends index (node kind cs leaf ns))
    | inr more ↦
        rw (more, Ends, onward)
          (rest_Ends next kind cs leaf ns o h ends (within-lt o (length path) bound more))
  ]

  IsTree-touch :
      (f : ℕ) (s : Bytes) (cs : Candidates) (leaf : Option ℕ) (ns : Nodes) (o : ℕ)
      → IsTree (node (static s) cs leaf ns)
      → IsTree (
          touch index
            (split index (common index path f s cs leaf ns o) s (node (static s) cs leaf ns)))
  unfolding IsTree
  IsTree-touch f s cs leaf ns o h =
      let i : ℕ = common index path f s cs leaf ns o in
      elim (Bool-cases (ltb i (length s))) [
        | inl less ↦
            rw (split_less index path f s cs leaf ns o less)
              (split-IsTree i s cs leaf ns h (ltb→lt i (length s) less))
        | inr whole ↦ rw (split_whole index path f s cs leaf ns o whole) h
      ]

  -- A round at a static node.
  static_round :
      (f : ℕ) (s : Bytes) (cs : Candidates) (leaf : Option ℕ) (ns : Nodes) (o : ℕ)
      → IsTree (node (static s) cs leaf ns)
      → o ≤ length path
      → Onward (add_path index path f) (o + common index path f s cs leaf ns o)
      → Ends (add_path index path (suc f) (node (static s) cs leaf ns) o).1
  static_round f s cs leaf ns o h bound ends =
      let i : ℕ = common index path f s cs leaf ns o in
      let (short, room, same) = longest_common_prefix_lem (drop o path) s in
      subst (λ (r : Node × Outcome). Ends r.1)
        (sym (add_path-onward index path f s cs leaf ns o bound))
        (onward-Ends (add_path index path f) _ (o + i) (IsTree-touch f s cs leaf ns o h) ends
          (omega (arith, length-drop o path)))

  -- Enough fuel for a node that is entered past a byte, and for one that is entered by its first.
  abbrev EndsPast : ℕ → Type 0
  EndsPast f =
      (ch : Node) (q : ℕ)
      → IsTree ch
      → q < length path
      → length path < q + f
      → Ends (add_path index path f ch q).1

  abbrev EndsAt : ℕ → Type 0
  EndsAt f =
      (ch : Node) (c o : ℕ)
      → IsTree ch
      → get_elem? path o ≡ some c
      → label ch ≡ starts c
      → length path ≤ o + f
      → Ends (add_path index path f ch o).1

  make-Onward :
      (f o : ℕ) → EndsPast f → EndsAt f → length path ≤ o + f → Onward (add_path index path f) o
  make-Onward f o past at fuel = (
    λ ch q tree later before. past ch q tree before (omega arith),
    λ ch c tree found head. at ch c o tree found head fuel,
  )

  past_step : (f : ℕ) → EndsPast f → EndsAt f → EndsPast (suc f)
  unfolding add_path
  past_step f past at (node (static s) cs leaf ns) q h before fuel =
      static_round f s cs leaf ns q h (omega arith) (make-Onward f _ past at (omega arith))
  past_step f past at (node param cs leaf ns) q h before fuel =
      rest_Ends (add_path index path f) param cs leaf ns q h (make-Onward f q past at (omega arith))
        before
  past_step f past at (node catch_all cs leaf ns) q h before fuel =
      rest_Ends (add_path index path f) catch_all cs leaf ns q h
        (make-Onward f q past at (omega arith)) before

  at_step : (f : ℕ) → EndsPast f → EndsAt f → EndsAt (suc f)
  at_step f past at (node (static []) cs leaf ns) c o h found head fuel = absurd (cc)
  at_step f past at (node (static (b ∷ s)) cs leaf ns) c o h found head fuel =
      let same : b ≡ c = cc in
      let some_common = common_pos (drop o path) b s (drop-head path o found) same in
      static_round f (b ∷ s) cs leaf ns o h (omega (arith, lt-length path o found))
        (make-Onward f _ past at (omega (arith, some_common)))
  at_step f past at (node param cs leaf ns) c o h found head fuel = absurd (cc)
  at_step f past at (node catch_all cs leaf ns) c o h found head fuel = absurd (cc)

  enough_fuel : (f : ℕ) → EndsPast f × EndsAt f
  enough_fuel zero = (
    λ ch q tree before fuel. absurd (omega arith),
    λ ch c o tree found head fuel. absurd (omega (arith, lt-length path o found)),
  )
  enough_fuel (suc f) = let (past, at) = enough_fuel f in (past_step f past at, at_step f past at)

  -- An insertion into a well-formed tree, or into none, ends: with success or with an error that
  -- the source reports; the walks neither panic nor run out of fuel.
  pub visit_tree-Ends : (tree : Tree) → IsRouteTree tree → Ends (visit_tree index path tree).1
  unfolding visit_tree HasNoLeaf
  visit_tree-Ends none h =
      let begin = find_wildcard_begin_lem path 0 (omega arith) any_rest in
      rw (in_range-begin path 0 (omega arith), Ends, visit_tree)
        (insert_child-Ends index path
          (new_node index (static (take (find_wildcard_begin path 0) path)))
          (find_wildcard_begin path 0) begin.within
          (find_wildcard_begin-IsMark path 0 (omega arith)) (inr refl))
  visit_tree-Ends (some (node (static s) cs leaf ns)) (r, h) =
      let fuel : length path + 2 ≡ suc (length path + 1) = omega arith in
      let (past, at) = enough_fuel (length path + 1) in
      rw fuel (
        static_round (length path + 1) s cs leaf ns 0 h (omega arith)
          (make-Onward (length path + 1) _ past at (omega arith)))
  visit_tree-Ends (some (node param cs leaf ns)) (r, h) = absurd r
  visit_tree-Ends (some (node catch_all cs leaf ns)) (r, h) = absurd r
