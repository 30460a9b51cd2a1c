-- ===== src/Recognizer/Growth.antt =====
-- tsukuyomi/src/app/recognizer.rs: what a successful walk of `InsertContext` does to a node, and
-- how the changes below a node add up.
use tsukuyomi.Prelude.{
  ℕ, zero, suc, ◌≡◌, refl, sym, ap, ◌∙◌, subst, Option, none, some, List, [], ◌∷◌, ◌++◌, map,
  append-nil, append_assoc, Bytes, All, length, take, drop, take-append-drop, ◌<◌, ok, arith,
}
use tsukuyomi.Recognizer.Tree.{
  NodeKind, static, Candidates, Node, node, Nodes, nil, cons, push_nodes, node_at, set_node,
  push_child, touch,
}
use tsukuyomi.Recognizer.Insert.{new_node, set_leaf}
use tsukuyomi.Recognizer.Inserted.{Inserted, here, Inserted-append_left, Inserted-map}
use tsukuyomi.Recognizer.Routes.{
  Token, byte, any_segment, text_label, IsPlain, Route, prepend, leaf_routes, kind_tokens, routes,
  routes_all, routes_all-push_nodes, routes_all-set_node, Label, starts, blank, wild, label,
  kind_label, StartsOther, Avoids, Allows, HasDistinctHeads, IsTree, AreTrees,
}

-- The table of a tree, with no difference between the two kinds of wildcard.
abbrev pub table : Node → List Route
table n = routes any_segment n

abbrev pub tokens : NodeKind → List Token
tokens kind = kind_tokens any_segment kind

pub record Grown (n m : Node) (x : Route) : Type 0 where
  pub tree : IsTree m
  pub head : label m ≡ label n
  pub added : Inserted x (table n) (table m)

module _ (index : ℕ) where
  touch-routes : (n : Node) → table (touch index n) ≡ table n
  unfolding routes
  touch-routes (node kind cs leaf ns) = refl

  touch-label : (n : Node) → label (touch index n) ≡ label n
  touch-label (node kind cs leaf ns) = refl

  pub touch-IsTree : (n : Node) → IsTree n → IsTree (touch index n)
  unfolding IsTree
  touch-IsTree (node kind cs leaf ns) h = h

  pub Grown-touch : {n m : Node} {x : Route} → Grown n m x → Grown n (touch index m) x
  Grown-touch {n} {m} {x} g = record {
    tree = touch-IsTree m g.tree;
    head = touch-label m ∙ g.head;
    added = subst (Inserted x (table n)) (sym (touch-routes m)) g.added;
  }

  pub Grown-touched : (n : Node) {m : Node} {x : Route} → Grown (touch index n) m x → Grown n m x
  Grown-touched n {m} {x} g = record {
    tree = g.tree;
    head = g.head ∙ touch-label n;
    added = subst (λ rs. Inserted x rs (table m)) (touch-routes n) g.added;
  }

AreTrees-push_nodes :
    (ns : Nodes) (ch : Node) → AreTrees ns → IsTree ch → AreTrees (push_nodes ns ch)
unfolding push_nodes IsTree
AreTrees-push_nodes nil ch h k = (k, tt)
AreTrees-push_nodes (cons n ns) ch (p, h) k = (p, AreTrees-push_nodes ns ch h k)

AreTrees-set_node :
    (ns : Nodes) (pos : ℕ) (m : Node) → IsTree m → AreTrees ns → AreTrees (set_node ns pos m)
unfolding set_node IsTree
AreTrees-set_node nil pos m h k = tt
AreTrees-set_node (cons n ns) zero m h (p, k) = (h, k)
AreTrees-set_node (cons n ns) (suc pos) m h (p, k) = (p, AreTrees-set_node ns pos m h k)

Avoids-set_node :
    (c : ℕ) (ns : Nodes) (pos : ℕ) (n m : Node)
    → node_at ns pos ≡ some n
    → label m ≡ label n
    → Avoids c ns
    → Avoids c (set_node ns pos m)
unfolding node_at set_node
Avoids-set_node c nil pos n m e same h = tt
Avoids-set_node c (cons k ns) zero n m e same (p, h) =
    let here : k ≡ n = cc in (subst (StartsOther c) (ap label here ∙ sym same) p, h)
Avoids-set_node c (cons k ns) (suc pos) n m e same (p, h) =
    (p, Avoids-set_node c ns pos n m e same h)

Allows-set_node :
    (l : Label) (ns : Nodes) (pos : ℕ) (n m : Node)
    → node_at ns pos ≡ some n
    → label m ≡ label n
    → Allows l ns
    → Allows l (set_node ns pos m)
unfolding node_at set_node
Allows-set_node (starts b) ns pos n m e same h = Avoids-set_node b ns pos n m e same h
Allows-set_node blank ns pos n m e same h = h
Allows-set_node wild nil pos n m e same h = tt
Allows-set_node wild (cons k ns) pos n m e same h = absurd h

set_node-heads :
    (ns : Nodes) (pos : ℕ) (n m : Node)
    → node_at ns pos ≡ some n
    → label m ≡ label n
    → HasDistinctHeads ns
    → HasDistinctHeads (set_node ns pos m)
unfolding node_at set_node
set_node-heads nil pos n m e same h = tt
set_node-heads (cons k ns) zero n m e same (p, h) =
    let here : k ≡ n = cc in (subst (λ l. Allows l ns) (ap label here ∙ sym same) p, h)
set_node-heads (cons k ns) (suc pos) n m e same (p, h) =
    (Allows-set_node (label k) ns pos n m e same p, set_node-heads ns pos n m e same h)

drop-Allows : (i : ℕ) (s : Bytes) → i < length s → Allows (text_label (drop i s)) nil
drop-Allows i [] h = elim h [ ]
drop-Allows zero (c ∷ s) h = tt
drop-Allows (suc i) (c ∷ s) h = drop-Allows i s (omega arith)

module _ (kind : NodeKind) (cs : Candidates) (leaf : Option ℕ) (ns : Nodes) (index : ℕ) where
  -- A new child adds its routes.
  pub push_child-Grown :
      (ch : Node) (ts : List Token)
      → IsTree (node kind cs leaf ns)
      → HasDistinctHeads (push_nodes ns ch)
      → IsTree ch
      → Inserted (ts, index) [] (table ch)
      → Grown
          (node kind cs leaf ns)
          (push_child (node kind cs leaf ns) ch)
          (tokens kind ++ ts, index)
  unfolding IsTree routes
  push_child-Grown ch ts (plain, _, trees) heads tree added = record {
    tree = (plain, heads, AreTrees-push_nodes ns ch trees tree);
    head = refl;
    added = Inserted-map (prepend (tokens kind)) (
        Inserted-append_left (leaf_routes leaf) (
          subst (Inserted (ts, index) (routes_all any_segment ns))
            (sym (routes_all-push_nodes any_segment ns ch))
            (subst (λ rs. Inserted (ts, index) rs (routes_all any_segment ns ++ table ch))
              (append-nil _) (Inserted-append_left (routes_all any_segment ns) added))));
  }

  -- A leaf on a node that had none.
  pub leaf-Grown :
      IsTree (node kind cs none ns)
      → Grown (node kind cs none ns) (node kind cs (some index) ns) (tokens kind ++ [], index)
  unfolding IsTree routes
  leaf-Grown h = record { tree = h; head = refl; added = here }

  -- A child that has grown in its place.
  pub set_node-Grown :
      (pos : ℕ) (n m : Node) {ts : List Token}
      → IsTree (node kind cs leaf ns)
      → node_at ns pos ≡ some n
      → Grown n m (ts, index)
      → Grown
          (node kind cs leaf ns)
          (node kind cs leaf (set_node ns pos m))
          (tokens kind ++ ts, index)
  unfolding IsTree routes
  set_node-Grown pos n m (plain, heads, trees) at g = record {
    tree =
        (plain, set_node-heads ns pos n m at g.head heads, AreTrees-set_node ns pos m g.tree trees);
    head = refl;
    added = Inserted-map (prepend (tokens kind)) (
        Inserted-append_left (leaf_routes leaf)
          (routes_all-set_node any_segment ns pos m at g.added));
  }

pub set_leaf-Grown :
    (index : ℕ) (kind : NodeKind) (cs : Candidates) (leaf : Option ℕ) (ns : Nodes)
    → IsTree (node kind cs leaf ns)
    → (set_leaf index (node kind cs leaf ns)).1 ≡ ok tt
    → Grown
        (node kind cs leaf ns)
        (set_leaf index (node kind cs leaf ns)).0
        (tokens kind ++ [], index)
unfolding set_leaf
set_leaf-Grown index kind cs none ns h e = leaf-Grown kind cs none ns index h
set_leaf-Grown index kind cs (some i) ns h e = cc

map-prepend :
    (ts us : List Token) (rs : List Route)
    → map (prepend ts) (map (prepend us) rs) ≡ map (prepend (ts ++ us)) rs
map-prepend ts us [] = refl
map-prepend ts us ((vs, i) ∷ rs) = rw (append_assoc ts us vs, map-prepend ts us rs)

map-byte-append : (s t : Bytes) → map byte (s ++ t) ≡ map byte s ++ map byte t
map-byte-append [] t = refl
map-byte-append (c ∷ s) t = rw (map-byte-append s t)

All-take : (i : ℕ) (s : Bytes) → All IsPlain s → All IsPlain (take i s)
All-take zero s h = tt
All-take (suc i) [] h = tt
All-take (suc i) (c ∷ s) (p, h) = (p, All-take i s h)

All-drop : (i : ℕ) (s : Bytes) → All IsPlain s → All IsPlain (drop i s)
All-drop zero s h = h
All-drop (suc i) [] h = tt
All-drop (suc i) (c ∷ s) (p, h) = All-drop i s h

-- A node that is split has the same table, and is still a tree.
module _ (i : ℕ) (s : Bytes) (cs : Candidates) (leaf : Option ℕ) (ns : Nodes) where
  pub split-routes :
      table (node (static (take i s)) cs none (cons (node (static (drop i s)) cs leaf ns) nil))
      ≡ table (node (static s) cs leaf ns)
  unfolding routes
  split-routes =
      let rs = leaf_routes leaf ++ routes_all any_segment ns in
      ap (map (prepend (map byte (take i s)))) (append-nil _)
      ∙ map-prepend (map byte (take i s)) (map byte (drop i s)) rs
      ∙ ap (λ ts. map (prepend ts) rs)
          (sym (map-byte-append (take i s) (drop i s)) ∙ ap (map byte) (take-append-drop i s))

  pub split-IsTree :
      IsTree (node (static s) cs leaf ns)
      → i < length s
      → IsTree (node (static (take i s)) cs none (cons (node (static (drop i s)) cs leaf ns) nil))
  unfolding IsTree
  split-IsTree (plain, heads, trees) short =
      (All-take i s plain, (drop-Allows i s short, tt), ((All-drop i s plain, heads, trees), tt))

-- A new child of a node that had none.
pub push_fresh-Grown :
    (index : ℕ) (kind : NodeKind) (cs : Candidates) (leaf : Option ℕ) (k : NodeKind) (ch : Node)
    (ts : List Token)
    → IsTree (node kind cs leaf nil)
    → Allows (kind_label k) nil
    → Grown (new_node index k) ch (ts, index)
    → Grown
        (node kind cs leaf nil)
        (push_child (node kind cs leaf nil) ch)
        (tokens kind ++ ts, index)
unfolding push_nodes routes
push_fresh-Grown index kind cs leaf k ch ts h allowed g =
    push_child-Grown kind cs leaf nil index ch ts h
      (subst (λ l. Allows l nil) (sym g.head) allowed, tt) g.tree g.added
