-- ===== src/Recognizer/Recognize.antt =====
-- tsukuyomi/src/app/recognizer.rs: `Captures`, `RecognizeError` and `RecognizeContext`. The loop
-- that follows `n` down the tree is a recursion on the tree.
use tsukuyomi.Prelude.{
  ℕ, ◌+◌, ◌-◌, Bool, true, false, Option, none, some, List, [], ◌∷◌, ◌++◌, Bytes, ◌==◌, ltb, length,
  get_elem?, position, drop, eq_bytes, starts_with, if◌then◌else◌, Result, ok, err,
}
use tsukuyomi.Recognizer.Tree.{
  NodeKind, static, param, catch_all, Candidates, Node, node, Nodes, nil, cons, Tree,
}

pub record Captures : Type 0 where
  pub params : List (ℕ × ℕ)
  pub wildcard : Option (ℕ × ℕ)

-- `panic` stands for an index or a slice out of range, or a failed `expect`.
pub data RecognizeError : Type 0 where
  not_matched : RecognizeError
  partially_matched : Candidates → RecognizeError
  panic : RecognizeError

abbrev pub Answer : Type 0
Answer = Result RecognizeError ℕ × Option Captures

-- `captures.get_or_insert_with(Default::default)`
abbrev pub get_captures : Option Captures → Captures
get_captures none = record { params = []; wildcard = none }
get_captures (some c) = c

abbrev pub push_param : ℕ → ℕ → Option Captures → Option Captures
push_param start end captures =
    let c = get_captures captures in some (record c { params = c.params ++ (start, end) ∷ [] })

abbrev pub set_wildcard : ℕ → ℕ → Option Captures → Option Captures
set_wildcard start end captures =
    let c = get_captures captures in some (record c { wildcard = some (start, end) })

-- How the `match n.kind` of a round ends: by `return`, or with the offset for the children.
pub data Round : Type 0 where
  stop : Answer → Round
  go_on : ℕ → Option Captures → Round

abbrev pub after : Round → (ℕ → Option Captures → Answer) → Answer
after (stop answer) next = answer
after (go_on offset captures) next = next offset captures

-- `n.leaf.ok_or_else(|| PartiallyMatched(&n.candidates))`
unfoldable pub leaf_or_partial : Option ℕ → Candidates → Result RecognizeError ℕ
leaf_or_partial (some i) cs = ok i
leaf_or_partial none cs = err (partially_matched cs)

-- The byte that ends a segment.
abbrev pub is_slash : ℕ → Bool
is_slash c = c == b'/'

module _ (path : Bytes) where
  -- The slice `path[offset..]`, which is out of range behind the end.
  unfoldable pub path_from : ℕ → Option Bytes
  path_from offset = if ltb (length path) offset then none else some (drop offset path)

  unfoldable pub match_static : Bytes → Option ℕ → ℕ → Option Captures → Round
  unfolding path_from
  match_static s leaf offset captures = elim (path_from offset) [
    | none ↦ stop (err panic, captures)
    | some rest ↦
        if ltb (length s) (length rest)
        then (if starts_with rest s
            then go_on (offset + length s) captures
            else stop (err not_matched, captures))
        else if ltb (length rest) (length s)
        then (if starts_with s rest
            then go_on (length path) captures
            else stop (err not_matched, captures))
        else if eq_bytes s rest
        then elim leaf [ some i ↦ stop (ok i, captures) | none ↦ go_on (length path) captures ]
        else stop (err not_matched, captures)
  ]

  -- How many bytes a parameter takes at the offset. `path.len() - offset` does not underflow where
  -- the slice is in range.
  unfoldable pub param_span : ℕ → Option ℕ
  unfolding path_from
  param_span offset = elim (path_from offset) [
    | none ↦ none
    | some rest ↦ elim (position is_slash rest) [
      | none ↦ some (length path - offset)
      | some i ↦ some i
    ]
  ]

  unfoldable pub match_param : Option ℕ → Candidates → ℕ → Option Captures → Round
  unfolding param_span leaf_or_partial
  match_param leaf cs offset captures = elim (param_span offset) [
    | none ↦ stop (err panic, captures)
    | some span ↦
        let end = offset + span in
        let captures' = push_param offset end captures in
        if ltb end (length path)
        then go_on end captures'
        else stop (leaf_or_partial leaf cs, captures')
  ]

  unfoldable pub match_kind : NodeKind → Option ℕ → Candidates → ℕ → Option Captures → Round
  unfolding match_static match_param leaf_or_partial
  match_kind (static s) leaf cs offset captures = match_static s leaf offset captures
  match_kind param leaf cs offset captures = match_param leaf cs offset captures
  match_kind catch_all leaf cs offset captures =
      stop (leaf_or_partial leaf cs, set_wildcard offset (length path) captures)

  -- The test that picks a child; `s[0]` is out of bounds where `s` is empty.
  unfoldable pub accepts : Node → ℕ → Result RecognizeError Bool
  accepts (node (static s) cs leaf ns) offset = elim (get_elem? path offset) [
    | none ↦ ok false
    | some c ↦ elim s [ [] ↦ err panic | b ∷ s' ↦ ok (b == c) ]
  ]
  accepts (node _ cs leaf ns) offset = ok true

  unfoldable mutual
    pub recognize : Node → ℕ → Option Captures → Answer
    recognize (node kind cs leaf ns) offset captures =
        after (match_kind kind leaf cs offset captures) (recognize_child ns cs)

    -- `n.children.iter().find(..)`, and the next round; `cs` are the candidates of the parent.
    pub recognize_child : Nodes → Candidates → ℕ → Option Captures → Answer
    recognize_child nil cs offset captures = (err (partially_matched cs), captures)
    recognize_child (cons n ns) cs offset captures = elim (accepts n offset) [
      | err e ↦ (err e, captures)
      | ok true ↦ recognize n offset captures
      | ok false ↦ recognize_child ns cs offset captures
    ]

  unfoldable pub recognize_tree : Tree → Option Captures → Answer
  unfolding recognize match_kind accepts
  recognize_tree none captures = (err not_matched, captures)
  recognize_tree (some root) captures = recognize root 0 captures
