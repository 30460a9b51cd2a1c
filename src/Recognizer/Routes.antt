-- ===== src/Recognizer/Routes.antt =====
-- What a tree of routes stands for: the table of its leaves, each with the pattern that leads to
-- it. The walks of `InsertContext` and `RecognizeContext` are specified by this table.
use tsukuyomi.Prelude.{
  ℕ, zero, suc, ◌≡◌, ◌≢◌, sym, subst, Bool, true, false, Option, none, some, List, [], ◌∷◌, ◌++◌,
  map, append-nil, append_assoc, Bytes, All, ◌==◌, if◌then◌else◌,
}
use tsukuyomi.Recognizer.Tree.{
  NodeKind, static, param, catch_all, Node, node, Nodes, nil, cons, push_nodes, node_at, set_node,
}
use tsukuyomi.Recognizer.Wildcard.{is_wildcard}
use tsukuyomi.Recognizer.Inserted.{Inserted, Inserted-append_left, Inserted-append_right}

pub data Token : Type 0 where
  byte : ℕ → Token
  any_segment any_rest : Token

abbrev pub Route : Type 0
Route = List Token × ℕ

abbrev pub prepend : List Token → Route → Route
prepend ts (us, i) = (ts ++ us, i)

abbrev pub leaf_routes : Option ℕ → List Route
leaf_routes none = []
leaf_routes (some i) = ([], i) ∷ []

-- `rest` is the token of a catch-all: `any_rest`, or `any_segment` for a reading of the tree that
-- does not tell the two kinds of wildcard apart.
module _ (rest : Token) where
  abbrev pub kind_tokens : NodeKind → List Token
  kind_tokens (static s) = map byte s
  kind_tokens param = any_segment ∷ []
  kind_tokens catch_all = rest ∷ []

  unfoldable mutual
    pub routes : Node → List Route
    routes (node kind cs leaf ns) =
        map (prepend (kind_tokens kind)) (leaf_routes leaf ++ routes_all ns)

    pub routes_all : Nodes → List Route
    routes_all nil = []
    routes_all (cons n ns) = routes n ++ routes_all ns

  -- The pattern that a path writes; inside the name of a wildcard up to the next slash.
  unfoldable pub pattern_of : Bool → Bytes → List Token
  pattern_of in_name [] = []
  pattern_of true (c ∷ s) = if c == b'/' then byte c ∷ pattern_of false s else pattern_of true s
  pattern_of false (c ∷ s) =
      if c == b':'
      then any_segment ∷ pattern_of true s
      else if c == b'*'
      then rest ∷ pattern_of true s
      else byte c ∷ pattern_of false s

  pub routes_all-push_nodes :
      (ns : Nodes) (m : Node) → routes_all (push_nodes ns m) ≡ routes_all ns ++ routes m
  unfolding push_nodes routes
  routes_all-push_nodes nil m = append-nil _
  routes_all-push_nodes (cons n ns) m =
      rw (routes_all-push_nodes ns m) (sym (append_assoc (routes n) (routes_all ns) (routes m)))

  pub routes_all-set_node :
      {x : Route} (ns : Nodes) (pos : ℕ) {n : Node} (m : Node)
      → node_at ns pos ≡ some n
      → Inserted x (routes n) (routes m)
      → Inserted x (routes_all ns) (routes_all (set_node ns pos m))
  unfolding node_at set_node routes
  routes_all-set_node nil pos m e h = cc
  routes_all-set_node {x} (cons k ns) zero {n} m e h =
      let same : k ≡ n = cc in
      Inserted-append_right (routes_all ns)
        (subst (λ z. Inserted x (routes z) (routes m)) (sym same) h)
  routes_all-set_node (cons k ns) (suc pos) m e h =
      Inserted-append_left (routes k) (routes_all-set_node ns pos m e h)

-- A byte that begins no wildcard.
abbrev pub IsPlain : ℕ → Type 0
IsPlain c = is_wildcard c ≡ false

-- What tells siblings apart: the first byte of a static node, or that it is a wildcard.
pub data Label : Type 0 where
  starts : ℕ → Label
  blank wild : Label

abbrev pub text_label : Bytes → Label
text_label [] = blank
text_label (b ∷ s) = starts b

abbrev pub kind_label : NodeKind → Label
kind_label (static s) = text_label s
kind_label param = wild
kind_label catch_all = wild

abbrev pub label : Node → Label
label (node kind cs leaf ns) = kind_label kind

abbrev pub StartsOther : ℕ → Label → Type 0
StartsOther c (starts b) = b ≢ c
StartsOther c _ = ⊥

-- No sibling begins with the byte, and none is a wildcard.
abbrev pub Avoids : ℕ → Nodes → Type 0
Avoids c nil = Unit
Avoids c (cons n ns) = StartsOther c (label n) × Avoids c ns

abbrev pub IsNil : Nodes → Type 0
IsNil nil = Unit
IsNil (cons n ns) = ⊥

abbrev pub Allows : Label → Nodes → Type 0
Allows (starts b) ns = Avoids b ns
Allows blank ns = ⊥
Allows wild ns = IsNil ns

-- Static siblings begin with different bytes; a wildcard has no sibling.
abbrev pub HasDistinctHeads : Nodes → Type 0
HasDistinctHeads nil = Unit
HasDistinctHeads (cons n ns) = Allows (label n) ns × HasDistinctHeads ns

abbrev pub HasPlainText : NodeKind → Type 0
HasPlainText (static s) = All IsPlain s
HasPlainText _ = Unit

unfoldable mutual
  pub IsTree : Node → Type 0
  IsTree (node kind cs leaf ns) = HasPlainText kind × HasDistinctHeads ns × AreTrees ns

  pub AreTrees : Nodes → Type 0
  AreTrees nil = Unit
  AreTrees (cons n ns) = IsTree n × AreTrees ns
