-- ===== src/Recognizer/Tree.antt =====
-- tsukuyomi/src/app/recognizer.rs: `NodeKind`, `Node`, `Candidates`, `Tree`, and the operations on
-- a node's children that the walks use.
use tsukuyomi.Prelude.{
  ℕ, zero, suc, Bool, true, false, Option, none, some, List, [], ◌∷◌, ◌++◌, ◌||◌, Bytes, ◌==◌, any,
  if◌then◌else◌,
}

pub data NodeKind : Type 0 where
  static : Bytes → NodeKind
  param catch_all : NodeKind

-- An `IndexSet<usize>`, in order of insertion.
abbrev pub Candidates : Type 0
Candidates = List ℕ

-- `Candidates::insert`: an index that is in the set stays where it is.
unfoldable pub insert_candidate : Candidates → ℕ → Candidates
insert_candidate cs i = if any (λ j. j == i) cs then cs else cs ++ i ∷ []

-- `Vec<Node>` is the type `Nodes` of the block.
mutual
  pub data Node : Type 0 where
    node : (kind : NodeKind) (candidates : Candidates) (leaf : Option ℕ) (children : Nodes) → Node

  pub data Nodes : Type 0 where
    nil : Nodes
    cons : Node → Nodes → Nodes

abbrev pub Tree : Type 0
Tree = Option Node

-- The `failure::bail!` messages, and the panics of the code: an index out of bounds, `expect` and
-- `unreachable!`. `out_of_fuel` belongs to the model only.
pub data InsertError : Type 0 where
  not_ascii : InsertError
  asterisk_conflict : InsertError
  catch_all_conflict : InsertError
  static_at_wildcard : InsertError
  wildcard_inserted : InsertError
  unexpected_kind : ℕ → InsertError
  normal_path_conflict : InsertError
  not_next_of_slash : InsertError
  wrong_wildcard : InsertError
  empty_name : InsertError
  catch_all_not_at_end : InsertError
  panic : InsertError
  out_of_fuel : InsertError

-- `n.children.is_empty()`
unfoldable pub is_empty : Nodes → Bool
is_empty nil = true
is_empty (cons n ns) = false

-- `n.children.push(ch)`
unfoldable pub push_nodes : Nodes → Node → Nodes
push_nodes nil m = cons m nil
push_nodes (cons n ns) m = cons n (push_nodes ns m)

abbrev pub is_static : Node → Bool
is_static (node (static s) cs leaf ns) = true
is_static _ = false

abbrev pub is_catch_all : Node → Bool
is_catch_all (node catch_all cs leaf ns) = true
is_catch_all _ = false

unfoldable pub any_static : Nodes → Bool
any_static nil = false
any_static (cons n ns) = is_static n || any_static ns

unfoldable pub any_catch_all : Nodes → Bool
any_catch_all nil = false
any_catch_all (cons n ns) = is_catch_all n || any_catch_all ns

unfoldable pub node_at : Nodes → ℕ → Option Node
node_at nil i = none
node_at (cons n ns) zero = some n
node_at (cons n ns) (suc i) = node_at ns i

-- The vector after a write through `&mut children[i]`.
unfoldable pub set_node : Nodes → ℕ → Node → Nodes
set_node nil i m = nil
set_node (cons n ns) zero m = cons m ns
set_node (cons n ns) (suc i) m = cons n (set_node ns i m)

abbrev pub children_of : Node → Nodes
children_of (node kind cs leaf ns) = ns

abbrev pub with_children : Node → Nodes → Node
with_children (node kind cs leaf ns) ms = node kind cs leaf ms

-- `n.children.push(ch)`, on the node.
abbrev pub push_child : Node → Node → Node
push_child (node kind cs leaf ns) ch = node kind cs leaf (push_nodes ns ch)

-- `n.candidates.insert(index)`
abbrev pub touch : ℕ → Node → Node
touch index (node kind cs leaf ns) = node kind (insert_candidate cs index) leaf ns
