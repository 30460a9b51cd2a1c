-- ===== src/Recognizer/Insert.antt =====
-- tsukuyomi/src/app/recognizer.rs: `InsertContext`. A walk through `&mut Node` becomes a function
-- that returns the node as it is left, on an error too, with the outcome.
use tsukuyomi.Prelude.{
  ℕ, zero, suc, ◌+◌, Option, none, some, [], ◌∷◌, ◌&&◌, Bytes, ◌==◌, ltb, leb, Bool, length,
  get_elem?, take, drop, if◌then◌else◌, Result, ok, err,
}
use tsukuyomi.Recognizer.Tree.{
  NodeKind, static, param, catch_all, Node, node, Nodes, nil, cons, Tree, InsertError,
  catch_all_conflict, static_at_wildcard, wildcard_inserted, unexpected_kind, normal_path_conflict,
  panic, out_of_fuel, is_empty, any_static, any_catch_all, node_at, set_node, children_of,
  with_children, push_child, touch,
}
use tsukuyomi.Recognizer.Wildcard.{
  longest_common_prefix, is_wildcard, find_wildcard_begin, find_wildcard_end,
}

abbrev pub Outcome : Type 0
Outcome = Result InsertError (Unit {0})

-- The range `pos..index` is in the path; else a slice by it panics.
unfoldable pub in_range : Bytes → ℕ → ℕ → Bool
in_range path pos index = leb pos index && leb index (length path)

abbrev pub slice : Bytes → ℕ → ℕ → Bytes
slice path pos index = drop pos (take index path)

-- `path[pos..index]` and `path[offset..]`, which panic where they are out of range.
abbrev pub slice_of : Bytes → ℕ → ℕ → Option Bytes
slice_of path pos index = if in_range path pos index then some (slice path pos index) else none

abbrev pub slice_from : Bytes → ℕ → Option Bytes
slice_from path offset = if ltb (length path) offset then none else some (drop offset path)

-- The position of the static child that begins with the byte, where there is one. A wildcard child
-- that the loop meets before is an error.
unfoldable pub find_child : ℕ → Nodes → ℕ → Result InsertError (Option ℕ)
find_child c nil i = ok none
find_child c (cons (node (static []) cs leaf ns) more) i = err panic
find_child c (cons (node (static (b ∷ s)) cs leaf ns) more) i =
    if b == c then ok (some i) else find_child c more (i + 1)
find_child c (cons (node _ cs leaf ns) more) i = err wildcard_inserted

-- The kind of the wildcard at a position of the path.
abbrev pub wildcard_kind : Bytes → ℕ → Result InsertError NodeKind
wildcard_kind path pos = elim (get_elem? path pos) [
  | none ↦ err panic
  | some c ↦
      if c == b':' then ok param else if c == b'*' then ok catch_all else err (unexpected_kind c)
]

-- A node whose leaf has been set is `ok`.
unfoldable pub set_leaf : ℕ → Node → Node × Outcome
set_leaf index (node kind cs none ns) = (node kind cs (some index) ns, ok tt)
set_leaf index (node kind cs (some i) ns) = (node kind cs (some i) ns, err normal_path_conflict)

module _ (index : ℕ) where
  abbrev pub new_node : NodeKind → Node
  new_node kind = node kind (index ∷ []) none nil

  -- `self.set_leaf(n).expect(..)`
  unfoldable pub expect_leaf : Node → Node × Outcome
  unfolding set_leaf
  expect_leaf n =
      let (m, outcome) = set_leaf index n in
      elim outcome [ ok u ↦ (m, ok tt) | err e ↦ (m, err panic) ]

  -- What `insert_child` puts below a node for the path from `i` on: a static node and, by `next`,
  -- the wildcards after it; or the leaf, at the end.
  unfoldable pub insert_static : (Node → ℕ → Node × Outcome) → Bytes → Node → ℕ → Node × Outcome
  unfolding in_range
  insert_static next path n i =
      if ltb i (length path)
      then (let end = find_wildcard_begin path i in
          elim (slice_of path i end) [
            | none ↦ (n, err panic)
            | some text ↦
                let (ch, outcome) = next (new_node (static text)) end in (push_child n ch, outcome)
          ])
      else next n i

  -- One round of the `while` loop of `insert_child`: `path` is the slice from its offset on.
  unfoldable pub insert_round : (Node → ℕ → Node × Outcome) → Bytes → Node → ℕ → Node × Outcome
  unfolding insert_static
  insert_round next path n pos = elim (find_wildcard_end path pos) [
    | err e ↦ (n, err e)
    | ok i ↦ elim (wildcard_kind path pos) [
      | err e ↦ (n, err e)
      | ok kind ↦
          let (ch, outcome) = insert_static next path (new_node kind) i in
          (push_child n ch, outcome)
    ]
  ]

  unfoldable pub insert_loop : ℕ → Bytes → Node → ℕ → Node × Outcome
  unfolding expect_leaf
  insert_loop zero path n pos = (n, err out_of_fuel)
  insert_loop (suc f) path n pos =
      if ltb pos (length path) then insert_round (insert_loop f path) path n pos else expect_leaf n

  unfoldable pub insert_child : Bytes → Node → ℕ → Node × Outcome
  unfolding insert_loop insert_round
  insert_child path n offset = elim (slice_from path offset) [
    | none ↦ (n, err panic)
    | some rest ↦ insert_loop (length rest + 1) rest n 0
  ]

  -- The end of `add_path`, after `break 'walk`.
  unfoldable pub finish : Node → Node × Outcome
  unfolding set_leaf
  finish n =
      if any_catch_all (children_of n)
      then (n, err catch_all_conflict)
      else (let (m, outcome) = set_leaf index n in
          elim outcome [ ok u ↦ (touch index m, ok tt) | err e ↦ (m, err e) ])

  -- The head of a static node: split where the path leaves it.
  unfoldable pub split : ℕ → Bytes → Node → Node
  split i s (node kind cs leaf ns) =
      if ltb i (length s)
      then node (static (take i s)) cs none (cons (node (static (drop i s)) cs leaf ns) nil)
      else node kind cs leaf ns

  -- A walk through `&mut n.children[pos]`; the index is out of bounds where there is no such child.
  unfoldable pub descend : (Node → Node × Outcome) → Node → ℕ → Node × Outcome
  descend walk n pos = elim (node_at (children_of n) pos) [
    | none ↦ (n, err panic)
    | some ch ↦
        let (m, outcome) = walk ch in (with_children n (set_node (children_of n) pos m), outcome)
  ]

  -- The remaining path starts with a byte that is no wildcard.
  unfoldable pub insert_segment :
      Bytes → (Node → ℕ → Node × Outcome) → Node → ℕ → ℕ → Node × Outcome
  unfolding descend insert_child find_child in_range
  insert_segment path next n offset c = elim (find_child c (children_of n) 0) [
    | err e ↦ (n, err e)
    | ok (some pos) ↦ descend (λ ch. next ch offset) (touch index n) pos
    | ok none ↦
        let end = find_wildcard_begin path offset in
        elim (slice_of path offset end) [
          | none ↦ (n, err panic)
          | some text ↦
              let (ch, outcome) = insert_child path (new_node (static text)) end in
              elim outcome [ ok u ↦ (touch index (push_child n ch), ok tt) | err e ↦ (n, err e) ]
        ]
  ]

  -- The remaining path starts with a wildcard, and the node has children.
  unfoldable pub follow_wildcard : Bytes → (Node → ℕ → Node × Outcome) → Node → ℕ → Node × Outcome
  unfolding descend finish
  follow_wildcard path next n offset =
      if any_static (children_of n)
      then (n, err static_at_wildcard)
      else elim (find_wildcard_end path offset) [
        | err e ↦ (touch index n, err e)
        | ok end ↦
            descend (λ ch. if end == length path then finish ch else next ch end) (touch index n) 0
      ]

  -- The `match self.path.get(offset)`.
  unfoldable pub insert_rest : Bytes → (Node → ℕ → Node × Outcome) → Node → ℕ → Node × Outcome
  unfolding insert_segment follow_wildcard
  insert_rest path next n offset = elim (get_elem? path offset) [
    | none ↦ (n, err panic)
    | some c ↦
        if c == b':' && is_empty (children_of n)
        then insert_child path n offset
        else if c == b'*' && is_empty (children_of n)
        then (n, err catch_all_conflict)
        else if is_wildcard c
        then follow_wildcard path next n offset
        else insert_segment path next n offset c
  ]

  -- The loop `'walk`, a round for each node on the way down.
  unfoldable pub add_path : Bytes → ℕ → Node → ℕ → Node × Outcome
  unfolding insert_rest finish split
  add_path path zero n offset = (n, err out_of_fuel)
  add_path path (suc f) (node (static s) cs leaf ns) offset = elim (slice_from path offset) [
    | none ↦ (node (static s) cs leaf ns, err panic)
    | some rest ↦
        let i = longest_common_prefix rest s in
        let n = touch index (split i s (node (static s) cs leaf ns)) in
        if (offset + i) == length path
        then finish n
        else insert_rest path (add_path path f) n (offset + i)
  ]
  add_path path (suc f) n offset = insert_rest path (add_path path f) n offset

  unfoldable pub visit_tree : Bytes → Tree → Tree × Outcome
  unfolding add_path insert_child in_range
  visit_tree path (some root) =
      let (n, outcome) = add_path path (length path + 2) root 0 in (some n, outcome)
  visit_tree path none =
      let pos = find_wildcard_begin path 0 in
      elim (slice_of path 0 pos) [
        | none ↦ (none, err panic)
        | some text ↦
            let (n, outcome) = insert_child path (new_node (static text)) pos in (some n, outcome)
      ]
