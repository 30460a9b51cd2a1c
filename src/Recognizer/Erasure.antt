-- ===== src/Recognizer/Erasure.antt =====
-- The table that does not tell the kinds of wildcard apart, against the exact one.
use tsukuyomi.Prelude.{
  ℕ, ◌≡◌, refl, sym, ap, ◌∙◌, subst, Option, none, some, List, [], ◌∷◌, ◌++◌, map, drop, Bytes, ◌⊎◌,
  inl, inr,
}
use mathlib.Core.List.{Memᴰ}
use mathlib.Core.Path.{ap₂}
use tsukuyomi.Recognizer.Tree.{NodeKind, static, param, catch_all, Node, node, Nodes, nil, cons}
use tsukuyomi.Recognizer.Routes.{
  Token, byte, any_segment, any_rest, Route, prepend, leaf_routes, kind_tokens, routes, routes_all,
}
use tsukuyomi.Recognizer.Growth.{table}
use tsukuyomi.Recognizer.Members.{
  mem-append_split, mem-append_left, mem-append_right, mem-map_split, mem-map,
}
use tsukuyomi.Recognizer.RouteMembers.{exact, exact_all}

abbrev pub erase : Token → Token
erase (byte c) = byte c
erase _ = any_segment

-- A route of the exact table that reads as the pattern when the kinds are forgotten.
abbrev pub ReadsAs : List Token → ℕ → List Route → Type 0
ReadsAs ts i rs = (us : List Token) × Memᴰ (us, i) rs × (map erase us ≡ ts)

erase-kind_tokens :
    (kind : NodeKind) (us : List Token)
    → map erase (kind_tokens any_rest kind ++ us) ≡ kind_tokens any_segment kind ++ map erase us
erase-kind_tokens (static []) us = refl
erase-kind_tokens (static (c ∷ s)) us = ap (λ ts. byte c ∷ ts) (erase-kind_tokens (static s) us)
erase-kind_tokens param us = refl
erase-kind_tokens catch_all us = refl

part_erased :
    (leaf : Option ℕ) (ns : Nodes) (vs : List Token) (j : ℕ)
    → Memᴰ (vs, j) (leaf_routes leaf) ⊎ Memᴰ (vs, j) (routes_all any_segment ns)
    → (Memᴰ (vs, j) (routes_all any_segment ns) → ReadsAs vs j (exact_all ns))
    → ReadsAs vs j (leaf_routes leaf ++ exact_all ns)
part_erased none ns vs j (inl here) below = elim here [ ]
part_erased (some i) ns vs j (inl (Memᴰ.head e)) below =
    ([], Memᴰ.head (ap (λ (r : Route). ([], r.1)) e), ap (λ (r : Route). r.0) (sym e))
part_erased (some i) ns vs j (inl (Memᴰ.tail m)) below = elim m [ ]
part_erased leaf ns vs j (inr there) below =
    let (us, at, same) = below there in
    (us, mem-append_right (leaf_routes leaf) (exact_all ns) at, same)

join_erased :
    (n : Node) (ns : Nodes) (ts : List Token) (i : ℕ)
    → (Memᴰ (ts, i) (table n) → ReadsAs ts i (exact n))
    → (Memᴰ (ts, i) (routes_all any_segment ns) → ReadsAs ts i (exact_all ns))
    → Memᴰ (ts, i) (table n) ⊎ Memᴰ (ts, i) (routes_all any_segment ns)
    → ReadsAs ts i (exact n ++ exact_all ns)
join_erased n ns ts i here there (inl k) =
    let (us, at, same) = here k in (us, mem-append_left (exact n) (exact_all ns) at, same)
join_erased n ns ts i here there (inr k) =
    let (us, at, same) = there k in (us, mem-append_right (exact n) (exact_all ns) at, same)

mutual
  unfolding routes

  node_erased :
      (n : Node) (ts : List Token) (i : ℕ) → Memᴰ (ts, i) (table n) → ReadsAs ts i (exact n)
  node_erased (node kind cs leaf ns) ts i m =
      let ((vs, j), k, e) = mem-map_split (prepend (kind_tokens any_segment kind)) _ m in
      let (us, at, same) =
        part_erased leaf ns vs j (mem-append_split (leaf_routes leaf) (routes_all any_segment ns) k)
          (λ k'. nodes_erased ns vs j k') in
      let index : j ≡ i = ap (λ (r : Route). r.1) (sym e) in
      (
        kind_tokens any_rest kind ++ us,
        subst (λ x. Memᴰ (kind_tokens any_rest kind ++ us, x) (exact (node kind cs leaf ns))) index
            (mem-map (prepend (kind_tokens any_rest kind)) at),
        erase-kind_tokens kind us
            ∙ ap (λ ws. kind_tokens any_segment kind ++ ws) same
            ∙ ap (λ (r : Route). r.0) (sym e),
      )

  nodes_erased :
      (ns : Nodes) (ts : List Token) (i : ℕ)
      → Memᴰ (ts, i) (routes_all any_segment ns)
      → ReadsAs ts i (exact_all ns)
  nodes_erased nil ts i m = elim m [ ]
  nodes_erased (cons n ns) ts i m =
      join_erased n ns ts i (λ k. node_erased n ts i k) (λ k. nodes_erased ns ts i k)
        (mem-append_split (table n) (routes_all any_segment ns) m)

-- Each route that the reading of a tree without the kinds shows stands in the tree.
pub table-ReadsAs :
    (n : Node) (ts : List Token) (i : ℕ) → Memᴰ (ts, i) (table n) → ReadsAs ts i (exact n)
table-ReadsAs n ts i m = node_erased n ts i m

pub erase-bytes : (us : List Token) (s : Bytes) → map erase us ≡ map byte s → us ≡ map byte s
erase-bytes [] [] e = refl
erase-bytes [] (c ∷ s) e = cc
erase-bytes (u ∷ us) [] e = cc
erase-bytes (byte b ∷ us) (c ∷ s) e =
    let one : b ≡ c = cc in ap₂ (λ x ts. byte x ∷ ts) one (erase-bytes us s (ap (drop 1) e))
erase-bytes (any_segment ∷ us) (c ∷ s) e = cc
erase-bytes (any_rest ∷ us) (c ∷ s) e = cc
