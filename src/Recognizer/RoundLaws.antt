-- ===== src/Recognizer/RoundLaws.antt =====
-- tsukuyomi/src/app/recognizer.rs: a round of the loop `'walk` of `add_path`, and the whole loop.
use tsukuyomi.Prelude.{
  ℕ, zero, suc, ◌+◌, ◌≤◌, ◌≡◌, refl, sym, ap, ◌∙◌, subst, true, false, Option, none, [], ◌∷◌, ◌++◌,
  map, Bytes, All, ◌==◌, ==_iff, if◌then◌else◌, ltb, ltb→lt, inl, inr, Bool-cases, length, take,
  drop, drop-drop, length-drop, ok, arith,
}
use tsukuyomi.Recognizer.Tree.{
  static, param, catch_all, Candidates, insert_candidate, Node, node, Nodes, nil, cons, touch,
}
use tsukuyomi.Recognizer.Wildcard.{longest_common_prefix}
use tsukuyomi.Recognizer.WildcardLaws.{drop-length, pattern_of-split, longest_common_prefix_lem}
use tsukuyomi.Recognizer.Insert.{Outcome, finish, split, insert_rest, add_path}
use tsukuyomi.Recognizer.Inserted.{Inserted}
use tsukuyomi.Recognizer.Routes.{
  byte, any_segment, starts, text_label, label, pattern_of, IsPlain, IsTree,
}
use tsukuyomi.Recognizer.Growth.{table, Grown, Grown-touched, split-routes, split-IsTree}
use tsukuyomi.Recognizer.ChildLaws.{pattern_from, Walk}
use tsukuyomi.Recognizer.AddLaws.{Enters, AddsChild, finish_lem, insert_rest_lem}

-- A byte that the path and a text share is still the first when the text is cut.
text_label-take :
    (s t u : Bytes) {c : ℕ}
    → text_label s ≡ starts c
    → t ≡ c ∷ u
    → text_label (take (longest_common_prefix t s) s) ≡ text_label s
unfolding longest_common_prefix
text_label-take [] t u e h = cc
text_label-take (b ∷ s) [] u e h = cc
text_label-take (b ∷ s) (a ∷ t) u {c} e h =
    let same : (a == b) ≡ true = ground arith in rw (same, longest_common_prefix, take) refl

take-all : (s : Bytes) (i : ℕ) → length s ≤ i → take i s ≡ s
take-all [] zero h = refl
take-all [] (suc i) h = refl
take-all (c ∷ s) zero h = absurd (omega arith)
take-all (c ∷ s) (suc i) h = ap (λ t. c ∷ t) (take-all s i (omega arith))

module _ (index : ℕ) (path : Bytes) where
  -- What a round does: as `Grown`, but the first byte is kept only where the walk came by it.
  pub record Rooted (offset : ℕ) (n m : Node) : Type 0 where
    pub tree : IsTree m
    pub added : Inserted (pattern_from path offset, index) (table n) (table m)
    pub text : (u : Bytes) × (label m ≡ text_label u)
    pub head : Enters index path n offset → label m ≡ label n

  Rooted-Grown :
      (offset : ℕ) (n n' m : Node)
      → table n' ≡ table n
      → (u : Bytes) → label n' ≡ text_label u
      → (Enters index path n offset → label n' ≡ label n)
      → Grown n' m (pattern_from path offset, index)
      → Rooted offset n m
  Rooted-Grown offset n n' m same u text head g = record {
    text = (u, g.head ∙ text);
    tree = g.tree;
    added = subst (λ rs. Inserted (pattern_from path offset, index) rs (table m)) same g.added;
    head = λ k. g.head ∙ head k;
  }

  -- The end of a round, after the split.
  unfoldable pub onward : Walk → Node → ℕ → Node × Outcome
  onward next n offset =
      if offset == length path then finish index n else insert_rest index path next n offset

  onward_lem :
      (next : Walk) (u : Bytes) (cs : Candidates) (leaf : Option ℕ) (ns : Nodes) (offset i : ℕ)
      → AddsChild index path next
      → IsTree (node (static u) cs leaf ns)
      → u ≡ take i (drop offset path)
      → i ≤ length (drop offset path)
      → offset ≤ length path
      → (onward next (touch index (node (static u) cs leaf ns)) (offset + i)).1 ≡ ok tt
      → Grown
          (node (static u) cs leaf ns)
          (onward next (touch index (node (static u) cs leaf ns)) (offset + i)).0
          (pattern_from path offset, index)
  unfolding onward IsTree pattern_of
  onward_lem next u cs leaf ns offset i ih h cut bound within e =
      let bare = node (static u) cs leaf ns in
      let plain = subst (All IsPlain) cut h.0 in
      let text : pattern_from path offset ≡ map byte u ++ pattern_from path (offset + i) =
        rw (cut, ← drop-drop offset i path)
          (pattern_of-split any_segment i (drop offset path) plain) in
      let room : offset + i ≤ length path = omega (arith, length-drop offset path) in
      elim (Bool-cases ((offset + i) == length path)) [
        | inl at_end ↦
            let last : offset + i ≡ length path = (==_iff (offset + i) (length path)).0 at_end in
            let done =
              finish_lem index path (static u) (insert_candidate cs index) leaf ns h
                (rw (at_end, onward) at e) in
            rw (at_end, onward, text, last, drop-length path) (Grown-touched index bare done)
        | inr more ↦
            rw (more, onward, text)
              (Grown-touched index bare (
                insert_rest_lem index path next (static u) (insert_candidate cs index) leaf ns
                  (offset + i) h ih room (rw (more, onward) at e)))
      ]

  module _ (f : ℕ) (s : Bytes) (cs : Candidates) (leaf : Option ℕ) (ns : Nodes) (offset : ℕ) where
    abbrev pub common : ℕ
    common = longest_common_prefix (drop offset path) s

    abbrev pub root : Node
    root = node (static s) cs leaf ns

    -- A round splits the node and goes on from there.
    pub add_path-onward :
        offset ≤ length path
        → add_path index path (suc f) root offset
          ≡ onward
              (add_path index path f)
              (touch index (split index common s root))
              (offset + common)
    unfolding add_path onward
    add_path-onward bound =
        let inside : ltb (length path) offset ≡ false = ground arith in rw (inside, add_path) refl

    pub split_less :
        ltb common (length s) ≡ true
        → split index common s root
          ≡ node
              (static (take common s))
              cs
              none
              (cons (node (static (drop common s)) cs leaf ns) nil)
    unfolding split
    split_less e = rw e refl

    pub split_whole : ltb common (length s) ≡ false → split index common s root ≡ root
    unfolding split
    split_whole e = rw e refl

    pub round_lem :
        AddsChild index path (add_path index path f)
        → IsTree root
        → offset ≤ length path
        → (add_path index path (suc f) root offset).1 ≡ ok tt
        → Rooted offset root (add_path index path (suc f) root offset).0
    unfolding IsTree
    round_lem ih h bound e =
        let (short, room, same) = longest_common_prefix_lem (drop offset path) s in
        elim (Bool-cases (ltb common (length s))) [
          | inl less ↦
              let below = ltb→lt common (length s) less in
              let shape = split_less less in
              let g =
                onward_lem (add_path index path f) (take common s) cs none
                  (cons (node (static (drop common s)) cs leaf ns) nil) offset common ih
                  (split-IsTree common s cs leaf ns h below) (sym same) room bound
                  (rw (add_path-onward bound, shape) at e) in
              rw (add_path-onward bound, shape)
                (Rooted-Grown offset root _ _ (split-routes common s cs leaf ns) (take common s)
                  refl (λ (c, t, first, here). text_label-take s (drop offset path) t first here) g)
          | inr whole ↦
              let long : length s ≤ common = ground arith in
              let full = take-all s common long in
              let shape = split_whole whole in
              let g =
                onward_lem (add_path index path f) s cs leaf ns offset common ih h
                  (sym full ∙ sym same) room bound (rw (add_path-onward bound, shape) at e) in
              rw (add_path-onward bound, shape)
                (Rooted-Grown offset root root _ refl s refl (λ k. refl) g)
        ]

  -- The loop adds the path below each node that it enters.
  pub add_path_lem : (f : ℕ) → AddsChild index path (add_path index path f)
  unfolding add_path
  add_path_lem zero n o h enters bound e = cc
  add_path_lem (suc f) (node (static s) cs leaf ns) o h enters bound e =
      let r = round_lem f s cs leaf ns o (add_path_lem f) h bound e in
      record { tree = r.tree; head = r.head enters; added = r.added }
  add_path_lem (suc f) (node param cs leaf ns) o h enters bound e =
      insert_rest_lem index path (add_path index path f) param cs leaf ns o h (add_path_lem f) bound
        e
  add_path_lem (suc f) (node catch_all cs leaf ns) o h enters bound e =
      insert_rest_lem index path (add_path index path f) catch_all cs leaf ns o h (add_path_lem f)
        bound e
