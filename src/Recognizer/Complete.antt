-- ===== src/Recognizer/Complete.antt =====
-- tsukuyomi/src/app/recognizer.rs: the search among the children, and the whole of
-- `RecognizeContext::recognize`: every route of a well-formed tree is found.
use tsukuyomi.Prelude.{
  ℕ, zero, suc, ◌≤◌, ◌≡◌, ◌≢◌, refl, ap, ◌∙◌, Bool, true, false, Option, some, List, [], ◌∷◌, Bytes,
  ◌==◌, ==_iff, get_elem?, drop, inl, inr, ok, err, arith, length,
}
use mathlib.Core.List.{Memᴰ}
use tsukuyomi.Recognizer.Tree.{static, param, catch_all, Candidates, Node, node, Nodes, nil, cons}
use tsukuyomi.Recognizer.Routes.{
  Token, byte, any_rest, routes, starts, label, Avoids, Allows, HasDistinctHeads, IsTree, AreTrees,
}
use tsukuyomi.Recognizer.Recognize.{Captures, accepts, recognize, recognize_child}
use tsukuyomi.Recognizer.Matching.{Matches, captured}
use tsukuyomi.Recognizer.RouteMembers.{exact, exact_all, node_mem, other_label}
use tsukuyomi.Recognizer.Members.{mem-append_split}
use tsukuyomi.Recognizer.RecognizeLaws.{
  Answers, static_complete, param_complete, catch_all_complete,
}

get_elem?-head : (xs : Bytes) (i c : ℕ) (t : Bytes) → drop i xs ≡ c ∷ t → get_elem? xs i ≡ some c
get_elem?-head [] zero c t e = cc
get_elem?-head [] (suc i) c t e = cc
get_elem?-head (x ∷ xs) zero c t e = ground arith
get_elem?-head (x ∷ xs) (suc i) c t e = get_elem?-head xs i c t e

byte_first :
    (a : ℕ) (us : List Token) (p : Bytes) → Matches (byte a ∷ us) p → (t : Bytes) × (p ≡ a ∷ t)
byte_first a us [] h = absurd h
byte_first a us (c ∷ p) (e, h) = (p, ap (λ x. x ∷ p) e)

-- A route below a node that begins with a byte matches only paths that begin with it.
starts_mem :
    (n : Node) (b : ℕ) (ts : List Token) (i : ℕ) (p : Bytes)
    → label n ≡ starts b
    → Memᴰ (ts, i) (exact n)
    → Matches ts p
    → (t : Bytes) × (p ≡ b ∷ t)
starts_mem (node (static []) cs leaf ms) b ts i p e m fits = cc
starts_mem (node (static (a ∷ s)) cs leaf ms) b ts i p e m fits =
    let (us, same, place) = node_mem any_rest (static (a ∷ s)) cs leaf ms ts i m in
    let (t, first) = byte_first a _ p (rw same at fits) in
    let one : a ≡ b = cc in (t, first ∙ ap (λ x. x ∷ t) one)
starts_mem (node param cs leaf ms) b ts i p e m fits = cc
starts_mem (node catch_all cs leaf ms) b ts i p e m fits = cc

Avoids-mem :
    (b : ℕ) (ns : Nodes) (ts : List Token) (i : ℕ) (p : Bytes)
    → Avoids b ns
    → Memᴰ (ts, i) (exact_all ns)
    → Matches ts p
    → (c : ℕ) × (t : Bytes) × (p ≡ c ∷ t) × (c ≢ b)
unfolding routes
Avoids-mem b nil ts i p h m fits = elim m [ ]
Avoids-mem b (cons n ns) ts i p (other, h) m fits =
    elim (mem-append_split (exact n) (exact_all ns) m) [
      | inl here ↦
          let (a, head, ne) = other_label b (label n) other in
          let (t, e) = starts_mem n a ts i p head here fits in (a, t, e, ne)
      | inr there ↦ Avoids-mem b ns ts i p h there fits
    ]

module _ (path : Bytes) where
  accepts-here :
      (n : Node) (ns : Nodes) (ts : List Token) (i o : ℕ)
      → Allows (label n) ns
      → Memᴰ (ts, i) (exact n)
      → Matches ts (drop o path)
      → accepts path n o ≡ ok true
  unfolding accepts
  accepts-here (node (static []) cs leaf ms) ns ts i o h m fits = absurd h
  accepts-here (node (static (b ∷ s)) cs leaf ms) ns ts i o h m fits =
      let (t, e) = starts_mem (node (static (b ∷ s)) cs leaf ms) b ts i (drop o path) refl m fits in
      rw (get_elem?-head path o b t e, (==_iff b b).1 refl, accepts) refl
  accepts-here (node param cs leaf ms) ns ts i o h m fits = refl
  accepts-here (node catch_all cs leaf ms) ns ts i o h m fits = refl

  accepts-there :
      (n : Node) (ns : Nodes) (ts : List Token) (i o : ℕ)
      → Allows (label n) ns
      → Memᴰ (ts, i) (exact_all ns)
      → Matches ts (drop o path)
      → accepts path n o ≡ ok false
  unfolding accepts routes
  accepts-there (node (static []) cs leaf ms) ns ts i o h m fits = absurd h
  accepts-there (node (static (b ∷ s)) cs leaf ms) ns ts i o h m fits =
      let (c, t, e, ne) = Avoids-mem b ns ts i (drop o path) h m fits in
      let other : (b == c) ≡ false = ground arith in
      rw (get_elem?-head path o c t e, other, accepts) refl
  accepts-there (node param cs leaf ms) nil ts i o h m fits = elim m [ ]
  accepts-there (node param cs leaf ms) (cons n ns) ts i o h m fits = absurd h
  accepts-there (node catch_all cs leaf ms) nil ts i o h m fits = elim m [ ]
  accepts-there (node catch_all cs leaf ms) (cons n ns) ts i o h m fits = absurd h

  recognize_child-accepts :
      (n : Node) (ns : Nodes) (cs : Candidates) (o : ℕ) (captures : Option Captures) (b : Bool)
      → accepts path n o ≡ ok b
      → recognize_child path (cons n ns) cs o captures ≡ elim b [
        | true ↦ recognize path n o captures
        | false ↦ recognize_child path ns cs o captures
      ]
  unfolding recognize
  recognize_child-accepts n ns cs o captures true e = λ j. elim (e j) [
    | err x ↦ (err x, captures)
    | ok true ↦ recognize path n o captures
    | ok false ↦ recognize_child path ns cs o captures
  ]
  recognize_child-accepts n ns cs o captures false e = λ j. elim (e j) [
    | err x ↦ (err x, captures)
    | ok true ↦ recognize path n o captures
    | ok false ↦ recognize_child path ns cs o captures
  ]

  -- The children answer for the routes below, if each child answers for its own.
  child_step :
      (n : Node) (ns : Nodes) (cs : Candidates) (ts : List Token) (i o : ℕ)
      (captures : Option Captures)
      → Allows (label n) ns
      → (Memᴰ (ts, i) (exact n) → Answers path (recognize path n o captures) ts i o captures)
      → (Memᴰ (ts, i) (exact_all ns)
          → Answers path (recognize_child path ns cs o captures) ts i o captures)
      → Memᴰ (ts, i) (exact_all (cons n ns))
      → Matches ts (drop o path)
      → Answers path (recognize_child path (cons n ns) cs o captures) ts i o captures
  unfolding routes
  child_step n ns cs ts i o captures h here there m fits =
      elim (mem-append_split (exact n) (exact_all ns) m) [
        | inl k ↦
            recognize_child-accepts n ns cs o captures true (accepts-here n ns ts i o h k fits)
            ∙ here k
        | inr k ↦
            recognize_child-accepts n ns cs o captures false (accepts-there n ns ts i o h k fits)
            ∙ there k
      ]

  mutual
    unfolding IsTree routes

    node_complete :
        (n : Node) (ts : List Token) (i o : ℕ) (captures : Option Captures)
        → IsTree n
        → o ≤ length path
        → Memᴰ (ts, i) (exact n)
        → Matches ts (drop o path)
        → Answers path (recognize path n o captures) ts i o captures
    node_complete (node (static s) cs leaf ns) ts i o captures (plain, heads, trees) inside m fits =
        static_complete path s cs leaf ns ts i o captures heads
          (λ us o' c k w f. child_complete ns cs us i o' c heads trees w k f) inside m fits
    node_complete (node param cs leaf ns) ts i o captures (plain, heads, trees) inside m fits =
        param_complete path cs leaf ns ts i o captures heads
          (λ us o' c k w f. child_complete ns cs us i o' c heads trees w k f) inside m fits
    node_complete (node catch_all cs leaf ns) ts i o captures (plain, heads, trees) inside m fits =
        catch_all_complete path cs leaf ns ts i o captures heads m fits

    child_complete :
        (ns : Nodes) (cs : Candidates) (ts : List Token) (i o : ℕ) (captures : Option Captures)
        → HasDistinctHeads ns
        → AreTrees ns
        → o ≤ length path
        → Memᴰ (ts, i) (exact_all ns)
        → Matches ts (drop o path)
        → Answers path (recognize_child path ns cs o captures) ts i o captures
    child_complete nil cs ts i o captures heads trees inside m fits = elim m [ ]
    child_complete (cons n ns) cs ts i o captures (p, heads) (tree, trees) inside m fits =
        child_step n ns cs ts i o captures p
          (λ k. node_complete n ts i o captures tree inside k fits)
          (λ k. child_complete ns cs ts i o captures heads trees inside k fits) m fits

  -- A route of a well-formed tree that matches the path from an offset in it on is the answer,
  -- whatever else the tree holds, with the spans of its parameters as captures.
  pub recognize_complete :
      (n : Node) (ts : List Token) (i offset : ℕ) (captures : Option Captures)
      → IsTree n
      → offset ≤ length path
      → Memᴰ (ts, i) (exact n)
      → Matches ts (drop offset path)
      → recognize path n offset captures
        ≡ (ok i, captured (length path) ts (drop offset path) offset captures)
  recognize_complete n ts i offset captures tree inside m fits =
      node_complete n ts i offset captures tree inside m fits
