-- ===== src/Recognizer/TreeLaws.antt =====
-- tsukuyomi/src/app/recognizer.rs: `InsertContext::visit_tree` as an insertion into a table.
use tsukuyomi.Prelude.{
  ℕ, suc, ◌+◌, ◌≡◌, false, none, some, List, [], ◌∷◌, Bytes, length, take, ok, arith,
}
use tsukuyomi.Recognizer.Tree.{static, param, catch_all, Node, node, Tree}
use tsukuyomi.Recognizer.Wildcard.{find_wildcard_begin}
use tsukuyomi.Recognizer.WildcardLaws.{find_wildcard_begin_lem, in_range-begin}
use tsukuyomi.Recognizer.Insert.{new_node, insert_child, add_path, visit_tree}
use tsukuyomi.Recognizer.Inserted.{Inserted}
use tsukuyomi.Recognizer.Routes.{Route, any_segment, pattern_of, routes, label, text_label, IsTree}
use tsukuyomi.Recognizer.Growth.{table, Grown}
use tsukuyomi.Recognizer.ChildLaws.{insert_child_lem}
use tsukuyomi.Recognizer.Exact.{KeepsKinds, visit_tree-KeepsKinds}
use tsukuyomi.Recognizer.RoundLaws.{Rooted, round_lem, add_path_lem}

abbrev pub tree_table : Tree → List Route
tree_table none = []
tree_table (some root) = table root

-- The root is a static node, and the tree below it is well formed.
abbrev pub IsRootNode : Node → Type 0
IsRootNode (node (static s) cs leaf ns) = Unit
IsRootNode _ = ⊥

abbrev pub IsRouteTree : Tree → Type 0
IsRouteTree none = Unit
IsRouteTree (some root) = IsRootNode root × IsTree root

root_of_label : (m : Node) (u : Bytes) → label m ≡ text_label u → IsRootNode m
root_of_label (node (static s) cs leaf ns) u e = tt
root_of_label (node param cs leaf ns) [] e = cc
root_of_label (node param cs leaf ns) (c ∷ u) e = cc
root_of_label (node catch_all cs leaf ns) [] e = cc
root_of_label (node catch_all cs leaf ns) (c ∷ u) e = cc

module _ (index : ℕ) (path : Bytes) where
  add_root :
      (root : Node)
      → IsRootNode root
      → IsTree root
      → (add_path index path (length path + 2) root 0).1 ≡ ok tt
      → Rooted index path 0 root (add_path index path (length path + 2) root 0).0
  add_root (node (static s) cs leaf ns) r h e =
      let fuel : length path + 2 ≡ suc (length path + 1) = omega arith in
      rw fuel (
        round_lem index path (length path + 1) s cs leaf ns 0
          (add_path_lem index path (length path + 1)) h (omega arith) (rw fuel at e))
  add_root (node param cs leaf ns) r h e = absurd r
  add_root (node catch_all cs leaf ns) r h e = absurd r

  abbrev first_static : Bytes
  first_static = take (find_wildcard_begin path 0) path

  plant :
      (insert_child index path
          (new_node index (static first_static))
          (find_wildcard_begin path 0)).1
        ≡ ok tt
      → Grown
          (new_node index (static first_static))
          (insert_child index path
            (new_node index (static first_static))
            (find_wildcard_begin path 0)).0
          (pattern_of any_segment false path, index)
  unfolding IsTree
  plant e =
      let begin = find_wildcard_begin_lem path 0 (omega arith) any_segment in
      rw begin.text (
        insert_child_lem index path (static first_static) (index ∷ []) none
          (find_wildcard_begin path 0) (begin.plain, tt, tt) e)

  -- A success of `visit_tree` keeps the tree well formed and adds exactly one route to its table:
  -- the pattern that the path writes, with the index. A `:` and a `*` are both read as a wildcard,
  -- and this table does not tell the two kinds apart. The first path that is inserted gives the tree
  -- with its pattern as the only route, the kinds told apart: a parameter for `:`, a catch-all for
  -- `*`.
  pub visit_tree-Inserted :
      (tree : Tree)
      → IsRouteTree tree
      → (visit_tree index path tree).1 ≡ ok tt
      → IsRouteTree (visit_tree index path tree).0
        × Inserted
            (pattern_of any_segment false path, index)
            (tree_table tree)
            (tree_table (visit_tree index path tree).0)
        × KeepsKinds index path tree (visit_tree index path tree).0
  unfolding visit_tree routes
  visit_tree-Inserted (some root) (r, h) e =
      let g = add_root root r h e in ((root_of_label _ g.text.0 g.text.1, g.tree), g.added, tt)
  visit_tree-Inserted none h e =
      let inside = in_range-begin path 0 (omega arith) in
      let g = plant (rw (inside, visit_tree) at e) in
      let kinds = visit_tree-KeepsKinds index path none e in
      rw (inside, visit_tree)
        ((root_of_label _ first_static g.head, g.tree), g.added, rw (inside, visit_tree) at kinds)
