-- ===== src/Recognizer/SiblingLaws.antt =====
-- tsukuyomi/src/app/recognizer.rs: what the search among a node's children in `add_path` finds.
use tsukuyomi.Prelude.{
  ℕ, suc, ◌+◌, ◌≡◌, ◌≢◌, refl, sym, ap, ◌∙◌, subst, true, false, none, some, [], ◌∷◌, ◌==◌, ==_iff,
  inl, inr, Bool-cases, ok, arith,
}
use mathlib.Core.Bool.{false≢true}
use tsukuyomi.Recognizer.Tree.{
  static, param, catch_all, Node, node, Nodes, nil, cons, is_empty, push_nodes, is_static,
  any_static, node_at,
}
use tsukuyomi.Recognizer.Insert.{find_child}
use tsukuyomi.Recognizer.Routes.{
  Label, starts, blank, wild, label, StartsOther, Avoids, Allows, HasDistinctHeads,
}

pub is_empty→IsNil : (ns : Nodes) → is_empty ns ≡ true → ns ≡ nil
unfolding is_empty
is_empty→IsNil nil e = refl
is_empty→IsNil (cons n ns) e = cc

-- The child that is found begins with the byte.
pub find_child-found :
    (c : ℕ) (ns : Nodes) (i : ℕ) {p : ℕ}
    → find_child c ns i ≡ ok (some p)
    → (k : ℕ) × (p ≡ i + k)
      × (ch : Node) × (node_at ns k ≡ some ch)
      × (is_static ch ≡ true)
      × (label ch ≡ starts c)
unfolding find_child node_at
find_child-found c nil i e = cc
find_child-found c (cons (node (static []) cs leaf ms) ns) i e = cc
find_child-found c (cons (node (static (b ∷ s)) cs leaf ms) ns) i {p} e =
    elim (Bool-cases (b == c)) [
      | inl same ↦ (
        0,
        ground arith,
        node (static (b ∷ s)) cs leaf ms,
        refl,
        refl,
        ap starts ((==_iff b c).0 same),
      )
      | inr other ↦
          let (k, at, ch, found, text, head) =
            find_child-found c ns (i + 1) {p = p} (rw (other, find_child) at e) in
          (suc k, omega arith, ch, found, text, head)
    ]
find_child-found c (cons (node param cs leaf ms) ns) i e = cc
find_child-found c (cons (node catch_all cs leaf ms) ns) i e = cc

pub find_child-missing : (c : ℕ) (ns : Nodes) (i : ℕ) → find_child c ns i ≡ ok none → Avoids c ns
unfolding find_child
find_child-missing c nil i e = tt
find_child-missing c (cons (node (static []) cs leaf ms) ns) i e = cc
find_child-missing c (cons (node (static (b ∷ s)) cs leaf ms) ns) i e = elim (Bool-cases (b == c)) [
  | inl same ↦ absurd (cc (rw (same, find_child) at e))
  | inr other ↦ (
    λ q. false≢true (sym other ∙ (==_iff b c).1 q),
    find_child-missing c ns (i + 1) (rw (other, find_child) at e),
  )
]
find_child-missing c (cons (node param cs leaf ms) ns) i e = cc
find_child-missing c (cons (node catch_all cs leaf ms) ns) i e = cc

-- A new last child whose first byte the others avoid.
Avoids-push_nodes :
    (b c : ℕ) (ns : Nodes) (ch : Node)
    → Avoids b ns
    → c ≢ b
    → label ch ≡ starts c
    → Avoids b (push_nodes ns ch)
unfolding push_nodes
Avoids-push_nodes b c nil ch h ne head = (subst (StartsOther b) (sym head) ne, tt)
Avoids-push_nodes b c (cons n ns) ch (p, h) ne head = (p, Avoids-push_nodes b c ns ch h ne head)

Allows-push_nodes :
    (l : Label) (c : ℕ) (ns : Nodes) (ch : Node)
    → StartsOther c l
    → Allows l ns
    → label ch ≡ starts c
    → Allows l (push_nodes ns ch)
Allows-push_nodes (starts b) c ns ch other h head =
    Avoids-push_nodes b c ns ch h (λ q. other (sym q)) head
Allows-push_nodes blank c ns ch other h head = absurd other
Allows-push_nodes wild c ns ch other h head = absurd other

pub push_nodes-heads :
    (c : ℕ) (ns : Nodes) (ch : Node)
    → HasDistinctHeads ns
    → Avoids c ns
    → label ch ≡ starts c
    → HasDistinctHeads (push_nodes ns ch)
unfolding push_nodes
push_nodes-heads c nil ch h avoid head = (subst (λ l. Allows l nil) (sym head) tt, tt)
push_nodes-heads c (cons n ns) ch (p, h) (q, avoid) head =
    (Allows-push_nodes (label n) c ns ch q p head, push_nodes-heads c ns ch h avoid head)

-- With no static child, the first child is a wildcard.
pub first-is_static :
    (ns : Nodes) {ch : Node} → any_static ns ≡ false → node_at ns 0 ≡ some ch → is_static ch ≡ false
unfolding any_static node_at
first-is_static nil e at = cc
first-is_static (cons n ns) e at = ground arith
