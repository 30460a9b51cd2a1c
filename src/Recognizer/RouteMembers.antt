-- ===== src/Recognizer/RouteMembers.antt =====
-- The members of a tree's table: which leaf a route leads to, and that no two routes of a tree
-- share a pattern.
use tsukuyomi.Prelude.{
  ℕ, ◌≡◌, ◌≢◌, refl, sym, ap, ◌∙◌, subst, Option, none, some, List, [], ◌∷◌, ◌++◌, map, drop, ◌⊎◌,
  inl, inr,
}
use mathlib.Core.List.{Memᴰ}
use tsukuyomi.Recognizer.Tree.{
  NodeKind, static, param, catch_all, Candidates, Node, node, Nodes, nil, cons,
}
use tsukuyomi.Recognizer.Routes.{
  Token, byte, any_rest, Route, prepend, leaf_routes, kind_tokens, routes, routes_all, Label,
  starts, blank, wild, label, kind_label, StartsOther, Avoids, Allows, HasDistinctHeads, IsTree,
  AreTrees,
}
use tsukuyomi.Recognizer.Members.{mem-append_split, mem-map_split}

-- The table with the kinds of wildcards.
abbrev pub exact : Node → List Route
exact n = routes any_rest n

abbrev pub exact_all : Nodes → List Route
exact_all ns = routes_all any_rest ns

byte_injective : {a b : ℕ} {us vs : List Token} → byte a ∷ us ≡ byte b ∷ vs → a ≡ b
byte_injective e = cc

append_cancel : (ts us vs : List Token) → ts ++ us ≡ ts ++ vs → us ≡ vs
append_cancel [] us vs e = e
append_cancel (t ∷ ts) us vs e = append_cancel ts us vs (ap (drop 1) e)

pub other_label : (b : ℕ) (l : Label) → StartsOther b l → (a : ℕ) × (l ≡ starts a) × (a ≢ b)
other_label b (starts a) h = (a, refl, h)
other_label b blank h = absurd h
other_label b wild h = absurd h

module _ (rest : Token) where
  -- The route of a leaf has no tokens below the leaf's node.
  leaf_mem :
      (leaf : Option ℕ) (us : List Token) (i : ℕ)
      → Memᴰ (us, i) (leaf_routes leaf)
      → (us ≡ []) × (leaf ≡ some i)
  leaf_mem none us i m = elim m [ ]
  leaf_mem (some j) us i (Memᴰ.head e) = (ap (λ (r : Route). r.0) e, ap (λ r. some (r.1)) (sym e))
  leaf_mem (some j) us i (Memᴰ.tail m) = elim m [ ]

  pub node_mem :
      (kind : NodeKind) (cs : Candidates) (leaf : Option ℕ) (ns : Nodes) (ts : List Token) (i : ℕ)
      → Memᴰ (ts, i) (routes rest (node kind cs leaf ns))
      → (us : List Token) × (ts ≡ kind_tokens rest kind ++ us)
        × (((us ≡ []) × (leaf ≡ some i)) ⊎ Memᴰ (us, i) (routes_all rest ns))
  unfolding routes
  node_mem kind cs leaf ns ts i m =
      let ((us, j), k, e) = mem-map_split (prepend (kind_tokens rest kind)) _ m in
      let index : i ≡ j = ap (λ r. r.1) e in
      (
        us,
        ap (λ (r : Route). r.0) e,
        elim (mem-append_split (leaf_routes leaf) (routes_all rest ns) k) [
          | inl here ↦ inl (rw index (leaf_mem leaf us j here))
          | inr below ↦ inr (rw index below)
        ],
      )

  kind_tokens-ne_nil :
      (kind : NodeKind) (ns : Nodes) (us : List Token)
      → Allows (kind_label kind) ns
      → kind_tokens rest kind ++ us ≢ []
  kind_tokens-ne_nil (static []) ns us h e = h
  kind_tokens-ne_nil (static (c ∷ s)) ns us h e = cc
  kind_tokens-ne_nil param ns us h e = cc
  kind_tokens-ne_nil catch_all ns us h e = cc

  -- The routes below a node begin with a token.
  pub below_mem :
      (ns : Nodes) (ts : List Token) (i : ℕ)
      → HasDistinctHeads ns
      → Memᴰ (ts, i) (routes_all rest ns)
      → ts ≢ []
  unfolding routes
  below_mem nil ts i h m e = elim m [ ]
  below_mem (cons (node kind cs leaf ms) ns) ts i (p, h) m e =
      elim (mem-append_split (routes rest (node kind cs leaf ms)) (routes_all rest ns) m) [
        | inl here ↦
            let (us, same, place) = node_mem kind cs leaf ms ts i here in
            kind_tokens-ne_nil kind ns us p (sym same ∙ e)
        | inr there ↦ below_mem ns ts i h there e
      ]

  -- The first token of a route below a node that begins with a byte.
  starts_token :
      (n : Node) (b : ℕ) (ts : List Token) (i : ℕ)
      → label n ≡ starts b
      → Memᴰ (ts, i) (routes rest n)
      → (us : List Token) × (ts ≡ byte b ∷ us)
  starts_token (node (static []) cs leaf ms) b ts i e m = cc
  starts_token (node (static (a ∷ s)) cs leaf ms) b ts i e m =
      let (us, same, place) = node_mem (static (a ∷ s)) cs leaf ms ts i m in
      let one : a ≡ b = cc in (map byte s ++ us, same ∙ ap (λ x. byte x ∷ (map byte s ++ us)) one)
  starts_token (node param cs leaf ms) b ts i e m = cc
  starts_token (node catch_all cs leaf ms) b ts i e m = cc

  Avoids-token :
      (b : ℕ) (ns : Nodes) (ts : List Token) (i : ℕ)
      → Avoids b ns
      → Memᴰ (ts, i) (routes_all rest ns)
      → (a : ℕ) × (us : List Token) × (ts ≡ byte a ∷ us) × (a ≢ b)
  unfolding routes
  Avoids-token b nil ts i h m = elim m [ ]
  Avoids-token b (cons n ns) ts i (other, h) m =
      elim (mem-append_split (routes rest n) (routes_all rest ns) m) [
        | inl here ↦
            let (a, head, ne) = other_label b (label n) other in
            let (us, e) = starts_token n a ts i head here in (a, us, e, ne)
        | inr there ↦ Avoids-token b ns ts i h there
      ]

  -- A node and a later sibling have no route in common.
  sibling_mem :
      (n : Node) (ns : Nodes) (ts : List Token) (i j : ℕ)
      → Allows (label n) ns
      → Memᴰ (ts, i) (routes rest n)
      → Memᴰ (ts, j) (routes_all rest ns)
      → ⊥
  unfolding routes
  sibling_mem (node (static []) cs leaf ms) ns ts i j h k m = h
  sibling_mem (node (static (b ∷ s)) cs leaf ms) ns ts i j h k m =
      let (us, e) = starts_token (node (static (b ∷ s)) cs leaf ms) b ts i refl k in
      let (a, vs, e', ne) = Avoids-token b ns ts j h m in ne (byte_injective (sym e' ∙ e))
  sibling_mem (node param cs leaf ms) nil ts i j h k m = elim m [ ]
  sibling_mem (node param cs leaf ms) (cons n ns) ts i j h k m = h
  sibling_mem (node catch_all cs leaf ms) nil ts i j h k m = elim m [ ]
  sibling_mem (node catch_all cs leaf ms) (cons n ns) ts i j h k m = h

  two_members :
      (n : Node) (ns : Nodes) (ts : List Token) (i j : ℕ)
      → Allows (label n) ns
      → (Memᴰ (ts, i) (routes rest n) → Memᴰ (ts, j) (routes rest n) → i ≡ j)
      → (Memᴰ (ts, i) (routes_all rest ns) → Memᴰ (ts, j) (routes_all rest ns) → i ≡ j)
      → Memᴰ (ts, i) (routes rest n) ⊎ Memᴰ (ts, i) (routes_all rest ns)
      → Memᴰ (ts, j) (routes rest n) ⊎ Memᴰ (ts, j) (routes_all rest ns)
      → i ≡ j
  two_members n ns ts i j h here there (inl k) (inl k') = here k k'
  two_members n ns ts i j h here there (inl k) (inr k') = absurd (sibling_mem n ns ts i j h k k')
  two_members n ns ts i j h here there (inr k) (inl k') = absurd (sibling_mem n ns ts j i h k' k)
  two_members n ns ts i j h here there (inr k) (inr k') = there k k'

  -- Two places of one node's route, with the routes of the children at hand.
  place_unique :
      (leaf : Option ℕ) (ns : Nodes) (us : List Token) (i j : ℕ)
      → HasDistinctHeads ns
      → (Memᴰ (us, i) (routes_all rest ns) → Memᴰ (us, j) (routes_all rest ns) → i ≡ j)
      → ((us ≡ []) × (leaf ≡ some i)) ⊎ Memᴰ (us, i) (routes_all rest ns)
      → ((us ≡ []) × (leaf ≡ some j)) ⊎ Memᴰ (us, j) (routes_all rest ns)
      → i ≡ j
  place_unique leaf ns us i j heads below (inl (e, p)) (inl (e', q)) = cc
  place_unique leaf ns us i j heads below (inl (e, p)) (inr m) =
      absurd (below_mem ns us j heads m e)
  place_unique leaf ns us i j heads below (inr m) (inl (e, q)) =
      absurd (below_mem ns us i heads m e)
  place_unique leaf ns us i j heads below (inr m) (inr m') = below m m'

  mutual
    unfolding IsTree routes

    node_unique :
        (n : Node) (ts : List Token) (i j : ℕ)
        → IsTree n
        → Memᴰ (ts, i) (routes rest n)
        → Memᴰ (ts, j) (routes rest n)
        → i ≡ j
    node_unique (node kind cs leaf ns) ts i j (plain, heads, trees) m m' =
        let (us, same, place) = node_mem kind cs leaf ns ts i m in
        let (vs, same', place') = node_mem kind cs leaf ns ts j m' in
        let e : vs ≡ us = append_cancel (kind_tokens rest kind) vs us (sym same' ∙ same) in
        place_unique leaf ns us i j heads (λ k k'. child_unique ns us i j heads trees k k') place
          (subst (λ ws. ((ws ≡ []) × (leaf ≡ some j)) ⊎ Memᴰ (ws, j) (routes_all rest ns)) e place')

    child_unique :
        (ns : Nodes) (ts : List Token) (i j : ℕ)
        → HasDistinctHeads ns
        → AreTrees ns
        → Memᴰ (ts, i) (routes_all rest ns)
        → Memᴰ (ts, j) (routes_all rest ns)
        → i ≡ j
    child_unique nil ts i j heads trees m m' = elim m [ ]
    child_unique (cons n ns) ts i j (p, heads) (tree, trees) m m' =
        two_members n ns ts i j p (λ k k'. node_unique n ts i j tree k k')
          (λ k k'. child_unique ns ts i j heads trees k k')
          (mem-append_split (routes rest n) (routes_all rest ns) m)
          (mem-append_split (routes rest n) (routes_all rest ns) m')

  -- No two routes of a well-formed tree share a pattern.
  pub routes_unique :
      (n : Node) (ts : List Token) (i j : ℕ)
      → IsTree n
      → Memᴰ (ts, i) (routes rest n)
      → Memᴰ (ts, j) (routes rest n)
      → i ≡ j
  routes_unique n ts i j h m m' = node_unique n ts i j h m m'
