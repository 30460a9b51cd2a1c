-- ===== src/Recognizer/AddLaws.antt =====
-- tsukuyomi/src/app/recognizer.rs: a success of `add_path` adds the route of the path to the tree.
use tsukuyomi.Prelude.{
  ℕ, zero, suc, ◌≤◌, ◌≡◌, refl, sym, ap, ◌∙◌, subst, true, false, Option, none, some, List, [], ◌∷◌,
  ◌++◌, map, ◌&&◌, Bytes, ◌==◌, ==_iff, if◌then◌else◌, inl, inr, Bool-cases, Option-cases,
  Result-cases, length, get_elem?, drop, ok, arith,
}
use tsukuyomi.Recognizer.Tree.{
  NodeKind, static, param, catch_all, Candidates, insert_candidate, Node, node, Nodes, nil, cons,
  is_empty, is_static, any_static, any_catch_all, node_at,
}
use tsukuyomi.Recognizer.Wildcard.{is_wildcard, find_wildcard_begin, find_wildcard_end}
use tsukuyomi.Recognizer.WildcardLaws.{
  drop-head, drop-length, lt-length, find_wildcard_end_lem, find_wildcard_begin_lem, in_range-begin,
  slice-head,
}
use tsukuyomi.Recognizer.Insert.{
  slice, set_leaf, new_node, insert_child, find_child, finish, descend, insert_segment,
  follow_wildcard, insert_rest,
}
use tsukuyomi.Recognizer.Routes.{
  Token, byte, any_segment, starts, text_label, label, routes, pattern_of, IsTree, AreTrees,
}
use tsukuyomi.Recognizer.Inserted.{Inserted}
use tsukuyomi.Recognizer.Growth.{
  tokens, table, Grown, Grown-touch, Grown-touched, push_child-Grown, set_node-Grown,
  set_leaf-Grown,
}
use tsukuyomi.Recognizer.ChildLaws.{pattern_from, Walk, Adds, insert_child_lem}
use tsukuyomi.Recognizer.SiblingLaws.{
  is_empty→IsNil, find_child-found, find_child-missing, push_nodes-heads, first-is_static,
}

table-new_node : (index : ℕ) (kind : NodeKind) → table (new_node index kind) ≡ []
unfolding routes
table-new_node index kind = refl

wildcard_byte :
    (c : ℕ) (s : Bytes)
    → is_wildcard c ≡ true
    → pattern_of any_segment false (c ∷ s) ≡ any_segment ∷ pattern_of any_segment true s
unfolding pattern_of
wildcard_byte c s h = ground arith

pub AreTrees-node_at :
    (ns : Nodes) (i : ℕ) {n : Node} → node_at ns i ≡ some n → AreTrees ns → IsTree n
unfolding node_at IsTree
AreTrees-node_at nil i e h = cc
AreTrees-node_at (cons k ns) zero {n} e (h, hs) = let same : k ≡ n = cc in subst IsTree same h
AreTrees-node_at (cons k ns) (suc i) e (h, hs) = AreTrees-node_at ns i e hs

wildcard_text :
    (path : Bytes) (offset c : ℕ) {end : ℕ}
    → get_elem? path offset ≡ some c
    → is_wildcard c ≡ true
    → find_wildcard_end path offset ≡ ok end
    → pattern_from path offset ≡ any_segment ∷ pattern_from path end
wildcard_text path offset c at wild good = rw (drop-head path offset at) (
    wildcard_byte c (drop (suc offset) path) wild
    ∙ ap (λ ts. any_segment ∷ ts) (find_wildcard_end_lem any_segment path offset good).name)

module _ (index : ℕ) (path : Bytes) where
  -- The walk comes to a child by its first byte, or past a wildcard.
  abbrev pub Enters : Node → ℕ → Type 0
  Enters (node (static s) cs leaf ns) offset =
      (c : ℕ) × (t : Bytes) × (text_label s ≡ starts c) × (drop offset path ≡ c ∷ t)
  Enters _ offset = Unit

  abbrev pub entry : Node → ℕ → List Token
  entry (node (static s) cs leaf ns) offset = pattern_from path offset
  entry (node kind cs leaf ns) offset = tokens kind ++ pattern_from path offset

  pub finish_lem :
      (kind : NodeKind) (cs : Candidates) (leaf : Option ℕ) (ns : Nodes)
      → IsTree (node kind cs leaf ns)
      → (finish index (node kind cs leaf ns)).1 ≡ ok tt
      → Grown
          (node kind cs leaf ns)
          (finish index (node kind cs leaf ns)).0
          (tokens kind ++ [], index)
  unfolding finish
  finish_lem kind cs leaf ns h e = elim (Bool-cases (any_catch_all ns)) [
    | inl conflict ↦ absurd (cc (rw (conflict, finish) at e))
    | inr fine ↦ elim (Result-cases (set_leaf index (node kind cs leaf ns)).1) [
      | inl (x, bad) ↦ absurd (cc (rw (fine, bad, finish) at e))
      | inr (u, good) ↦
          rw (fine, good, finish) (Grown-touch index (set_leaf-Grown index kind cs leaf ns h good))
    ]
  ]

  module _ (next : Walk) where
    abbrev pub AddsChild : Type 0
    AddsChild =
        (ch : Node) (o : ℕ)
        → IsTree ch
        → Enters ch o
        → o ≤ length path
        → (next ch o).1 ≡ ok tt
        → Grown ch (next ch o).0 (entry ch o, index)

    child_lem :
        (ch : Node) (o c : ℕ)
        → is_static ch ≡ true
        → label ch ≡ starts c
        → get_elem? path o ≡ some c
        → IsTree ch
        → AddsChild
        → o ≤ length path
        → (next ch o).1 ≡ ok tt
        → Grown ch (next ch o).0 (pattern_from path o, index)
    child_lem (node (static s) cs leaf ns) o c text head at h ih bound e =
        ih (node (static s) cs leaf ns) o h (c, drop (suc o) path, head, drop-head path o at) bound
          e
    child_lem (node param cs leaf ns) o c text head at h ih bound e = cc
    child_lem (node catch_all cs leaf ns) o c text head at h ih bound e = cc

    -- The wildcard child, past the name of a wildcard that ends at `end`.
    visit_lem :
        (ch : Node) (end : ℕ)
        → is_static ch ≡ false
        → IsTree ch
        → AddsChild
        → end ≤ length path
        → (if end == length path then finish index ch else next ch end).1 ≡ ok tt
        → Grown ch
            (if end == length path then finish index ch else next ch end).0
            (any_segment ∷ pattern_from path end, index)
    unfolding pattern_of
    visit_lem (node (static s) cs leaf ns) end text h ih bound e = cc
    visit_lem (node param cs leaf ns) end text h ih bound e =
        elim (Bool-cases (end == length path)) [
          | inl at_end ↦
              let last : end ≡ length path = (==_iff end (length path)).0 at_end in
              rw at_end
                (rw (last, drop-length path) (finish_lem param cs leaf ns h (rw at_end at e)))
          | inr more ↦ rw more (ih (node param cs leaf ns) end h tt bound (rw more at e))
        ]
    visit_lem (node catch_all cs leaf ns) end text h ih bound e =
        elim (Bool-cases (end == length path)) [
          | inl at_end ↦
              let last : end ≡ length path = (==_iff end (length path)).0 at_end in
              rw at_end
                (rw (last, drop-length path) (finish_lem catch_all cs leaf ns h (rw at_end at e)))
          | inr more ↦ rw more (ih (node catch_all cs leaf ns) end h tt bound (rw more at e))
        ]

    module _ (kind : NodeKind) (cs : Candidates) (leaf : Option ℕ) (ns : Nodes) (offset : ℕ)
        (h : IsTree (node kind cs leaf ns)) (ih : AddsChild) where
      insert_segment_lem :
          (c : ℕ)
          → get_elem? path offset ≡ some c
          → is_wildcard c ≡ false
          → Adds index path
              (node kind cs leaf ns)
              kind
              offset
              (insert_segment index path next (node kind cs leaf ns) offset c)
      unfolding insert_segment IsTree
      insert_segment_lem c at plain e = elim (Result-cases (find_child c ns 0)) [
        | inl (x, bad) ↦ absurd (cc (rw (bad, insert_segment) at e))
        | inr (none, missing) ↦
            let bound : offset ≤ length path = omega (arith, lt-length path offset at) in
            let end : ℕ = find_wildcard_begin path offset in
            let begin = find_wildcard_begin_lem path offset bound any_segment in
            let inside = in_range-begin path offset bound in
            let (s, text) = slice-head path offset at plain in
            let ch : Node = new_node index (static (slice path offset end)) in
            elim (Result-cases (insert_child index path ch end).1) [
              | inl (x, bad) ↦ absurd (cc (rw (missing, inside, bad, insert_segment) at e))
              | inr (u, good) ↦
                  let g =
                    insert_child_lem index path (static (slice path offset end)) (index ∷ []) none
                      end (begin.plain, tt, tt) good in
                  let head = g.head ∙ ap text_label text in
                  rw (missing, inside, good, insert_segment, begin.text)
                    (Grown-touch index (
                      push_child-Grown kind cs leaf ns index (insert_child index path ch end).0 _ h
                        (push_nodes-heads c ns _ h.1 (find_child-missing c ns 0 missing) head)
                        g.tree
                        (subst
                          (λ rs.
                            Inserted
                              (map byte (slice path offset end) ++ pattern_from path end, index) rs
                              (table (insert_child index path ch end).0))
                          (table-new_node index (static (slice path offset end))) g.added)))
            ]
        | inr (some pos, found) ↦
            let (k, here, ch, first, text, head) = find_child-found c ns 0 found in
            let same : k ≡ pos = omega arith in
            let first' : node_at ns pos ≡ some ch = rw same at first in
            let bound : offset ≤ length path = omega (arith, lt-length path offset at) in
            let g =
              child_lem ch offset c text head at (AreTrees-node_at ns pos first' h.2) ih bound
                (rw (found, first', insert_segment, descend) at e) in
            rw (found, first', insert_segment, descend)
              (Grown-touched index (node kind cs leaf ns)
                (set_node-Grown kind (insert_candidate cs index) leaf ns index pos ch _ h first' g))
      ]

      follow_wildcard_lem :
          (c : ℕ)
          → get_elem? path offset ≡ some c
          → is_wildcard c ≡ true
          → Adds index path
              (node kind cs leaf ns)
              kind
              offset
              (follow_wildcard index path next (node kind cs leaf ns) offset)
      unfolding follow_wildcard IsTree
      follow_wildcard_lem c at wild e = elim (Bool-cases (any_static ns)) [
        | inl bad ↦ absurd (cc (rw (bad, follow_wildcard) at e))
        | inr fine ↦ elim (Result-cases (find_wildcard_end path offset)) [
          | inl (x, bad) ↦ absurd (cc (rw (fine, bad, follow_wildcard) at e))
          | inr (end, good) ↦ elim (Option-cases (node_at ns 0)) [
            | inl bad ↦ absurd (cc (rw (fine, good, bad, follow_wildcard, descend) at e))
            | inr (ch, first) ↦
                let fact = find_wildcard_end_lem any_segment path offset good in
                let g =
                  visit_lem ch end (first-is_static ns fine first) (AreTrees-node_at ns 0 first h.2)
                    ih fact.within (rw (fine, good, first, follow_wildcard, descend) at e) in
                rw
                  (
                    fine,
                    good,
                    first,
                    follow_wildcard,
                    descend,
                    wildcard_text path offset c at wild good,
                  )
                  (Grown-touched index (node kind cs leaf ns) (
                    set_node-Grown kind (insert_candidate cs index) leaf ns index 0 ch _ h first g))
          ]
        ]
      ]

      rest_plain_lem :
          (c : ℕ)
          → get_elem? path offset ≡ some c
          → is_wildcard c ≡ false
          → Adds index path
              (node kind cs leaf ns)
              kind
              offset
              (insert_rest index path next (node kind cs leaf ns) offset)
      unfolding insert_rest
      rest_plain_lem c at plain e =
          let colon : (c == b':') ≡ false = ground arith in
          let star : (c == b'*') ≡ false = ground arith in
          rw (at, colon, star, insert_rest)
            (insert_segment_lem c at plain (rw (at, colon, star, insert_rest) at e))

      rest_wild_lem :
          (c : ℕ)
          → get_elem? path offset ≡ some c
          → is_wildcard c ≡ true
          → Adds index path
              (node kind cs leaf ns)
              kind
              offset
              (insert_rest index path next (node kind cs leaf ns) offset)
      unfolding insert_rest
      rest_wild_lem c at wild e = elim (Bool-cases (is_empty ns)) [
        | inl empty ↦ elim (Bool-cases (c == b':')) [
          | inl colon ↦
              let same = is_empty→IsNil ns empty in
              rw (at, colon, empty, insert_rest)
                (subst
                  (λ ms.
                    IsTree (node kind cs leaf ms)
                    → Adds index path (node kind cs leaf ms) kind offset
                        (insert_child index path (node kind cs leaf ms) offset))
                  (sym same) (λ tree. insert_child_lem index path kind cs leaf offset tree) h
                  (rw (at, colon, empty, insert_rest) at e))
          | inr other ↦
              let star : (c == b'*') ≡ true = ground arith in
              absurd (cc (rw (at, other, star, empty, insert_rest) at e))
        ]
        | inr more ↦
            let no_colon : ((c == b':') && false) ≡ false = ground arith in
            let no_star : ((c == b'*') && false) ≡ false = ground arith in
            rw (at, more, wild, no_colon, no_star, insert_rest)
              (follow_wildcard_lem c at wild
                (rw (at, more, wild, no_colon, no_star, insert_rest) at e))
      ]

      pub insert_rest_lem :
          offset ≤ length path
          → Adds index path
              (node kind cs leaf ns)
              kind
              offset
              (insert_rest index path next (node kind cs leaf ns) offset)
      unfolding insert_rest
      insert_rest_lem bound e = elim (Option-cases (get_elem? path offset)) [
        | inl missing ↦ absurd (cc (rw (missing, insert_rest) at e))
        | inr (c, at) ↦ elim (Bool-cases (is_wildcard c)) [
          | inl wild ↦ rest_wild_lem c at wild e
          | inr plain ↦ rest_plain_lem c at plain e
        ]
      ]
