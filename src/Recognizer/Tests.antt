-- ===== src/Recognizer/Tests.antt =====
-- tsukuyomi/src/app/recognizer.rs: cases of its test modules, run on the model, and witnesses.
use Prim.Native.String.{String}
use tsukuyomi.Prelude.{ℕ, suc, ◌≡◌, refl, Option, none, some, List, [], ◌∷◌, codes, Result, ok, err}
use mathlib.Core.List.{Memᴰ}
use tsukuyomi.Prelude.{arith, false}
use tsukuyomi.Recognizer.Tree.{
  Node, push_nodes, node_at, set_node, is_empty, any_static, any_catch_all, insert_candidate,
  static, param, node, nil, cons, normal_path_conflict, catch_all_conflict, static_at_wildcard,
  wildcard_inserted,
}
use tsukuyomi.Recognizer.Wildcard.{find_wildcard_begin, find_wildcard_end, longest_common_prefix}
use tsukuyomi.Recognizer.Insert.{Outcome, visit_tree}
use tsukuyomi.Recognizer.Recognize.{Captures, RecognizeError, not_matched, partially_matched}
use tsukuyomi.Recognizer.Table.{Recognizer, default, insert, recognize}
use tsukuyomi.Recognizer.Table
use tsukuyomi.Recognizer.Recognize
use tsukuyomi.Recognizer.Routes.{byte, any_segment, pattern_of, routes, IsTree}
use tsukuyomi.Recognizer.Inserted.{Inserted}
use tsukuyomi.Recognizer.Exact.{KeepsKinds}
use tsukuyomi.Recognizer.TreeLaws.{IsRouteTree, tree_table, visit_tree-Inserted}
use tsukuyomi.Recognizer.Complete.{recognize_complete}
use tsukuyomi.Recognizer.Built.{IsBuilt, default-IsBuilt, insert-IsBuilt}
use tsukuyomi.Recognizer.Safety.{Ends}
use tsukuyomi.Recognizer.Total.{insert-Ends, IsReply, recognize-IsReply}
use tsukuyomi.Recognizer.Routing.{recognize-static, recognize-insert}

-- What a run of the recognizer looks through.
runs : Unit {0}
unfolding insert recognize find_wildcard_begin find_wildcard_end longest_common_prefix push_nodes
    node_at set_node is_empty any_static any_catch_all insert_candidate
runs = tt

-- The recognizer after the paths are inserted in turn, each with its position as the value, and
-- the outcome of the last.
abbrev insert_from : Recognizer ℕ → ℕ → List String → Recognizer ℕ × Outcome
insert_from r i [] = (r, ok tt)
insert_from r i (p ∷ []) = insert r (codes p) i
insert_from r i (p ∷ ps) = insert_from (insert r (codes p) i).0 (suc i) ps

abbrev built : List String → Recognizer ℕ
built ps = (insert_from default 0 ps).0

abbrev outcome : List String → Outcome
outcome ps = (insert_from default 0 ps).1

abbrev ask : List String → String → Result RecognizeError ℕ × Option Captures
ask ps path = recognize (built ps) (codes path) none

param_case2 :
    (built (
      "/files" ∷ "/files/:name/likes/" ∷ "/files/:name" ∷ "/files/:name/likes/:id/"
      ∷ "/files/:name/likes/:id" ∷ [])).tree
    ≡ some (
        node (static (codes "/files")) (0 ∷ 1 ∷ 2 ∷ 3 ∷ 4 ∷ []) (some 0) (
          cons
            (node (static (codes "/")) (1 ∷ 2 ∷ 3 ∷ 4 ∷ []) none (
              cons
                (node param (1 ∷ 2 ∷ 3 ∷ 4 ∷ []) (some 2) (
                  cons
                    (node (static (codes "/likes/")) (1 ∷ 3 ∷ 4 ∷ []) (some 1) (
                      cons
                        (node param
                          (3 ∷ 4 ∷ [])
                          (some 4)
                          (cons (node (static (codes "/")) (3 ∷ []) (some 3) nil) nil))
                        nil))
                    nil))
                nil))
            nil))
unfolding runs
param_case2 = refl

case2_multi_param :
    ask ("/files/:name/:id" ∷ []) "/files/readme/0"
    ≡ (ok 0, some (record { params = (7, 13) ∷ (14, 15) ∷ []; wildcard = none }))
unfolding runs
case2_multi_param = refl

case7_wildcard_empty_with_param :
    ask ("/path/to/:id/*path" ∷ []) "/path/to/10/"
    ≡ (ok 0, some (record { params = (9, 11) ∷ []; wildcard = some (12, 12) }))
unfolding runs
case7_wildcard_empty_with_param = refl

case8_too_short :
    ask ("/path/to/foo" ∷ "/path/to/bar" ∷ []) "/path/to/"
    ≡ (err (partially_matched (0 ∷ 1 ∷ [])), none)
unfolding runs
case8_too_short = refl

case8_too_long :
    ask ("/path/to/foo" ∷ "/path/to/bar" ∷ []) "/path/to/foo/baz"
    ≡ (err (partially_matched (0 ∷ [])), none)
unfolding runs
case8_too_long = refl

case9_completely_mismatched : ask ("/path/to/foo" ∷ []) "/path/to/baz" ≡ (err not_matched, none)
unfolding runs
case9_completely_mismatched = refl

case10_asterisk : ask ("*" ∷ []) "*" ≡ (ok 0, none)
unfolding runs
case10_asterisk = refl

failcase1 : outcome ("/foo" ∷ "/:id" ∷ []) ≡ err static_at_wildcard
unfolding runs
failcase1 = refl

failcase3 : outcome ("/:id" ∷ "/foo" ∷ []) ≡ err wildcard_inserted
unfolding runs
failcase3 = refl

failcase4 : outcome ("/foo/*path" ∷ "/foo/" ∷ []) ≡ err catch_all_conflict
unfolding runs
failcase4 = refl

failcase5 : outcome ("/:id" ∷ "/:name" ∷ []) ≡ err normal_path_conflict
unfolding runs
failcase5 = refl

-- A path that stops inside the static part of a route is answered by its parameter.
cut_short :
    ask ("/path/to/:id" ∷ []) "/pa"
    ≡ (ok 0, some (record { params = (3, 3) ∷ []; wildcard = none }))
unfolding runs
cut_short = refl

-- A catch-all that meets a parameter is stored as that parameter.
kind_confusion :
    ask ("/:id/foo" ∷ "/*path" ∷ []) "/a/b"
    ≡ (err not_matched, some (record { params = (1, 2) ∷ []; wildcard = none }))
unfolding runs
kind_confusion = refl

abbrev one : Recognizer ℕ
one = built ("/a" ∷ [])

abbrev two : Recognizer ℕ
two = built ("/a" ∷ "/b/:id" ∷ [])

one-IsBuilt : IsBuilt one
unfolding runs
one-IsBuilt = insert-IsBuilt default (codes "/a") 0 default-IsBuilt refl

two-IsBuilt : IsBuilt two
unfolding runs
two-IsBuilt = insert-IsBuilt one (codes "/b/:id") 1 one-IsBuilt refl

-- The node below the slash of "/a" and "/b/:id".
abbrev root : Node
root = node (static (codes "/")) (0 ∷ 1 ∷ []) none (
    cons (node (static (codes "a")) (0 ∷ []) (some 0) nil) (
      cons (node (static (codes "b/")) (1 ∷ []) none (cons (node param (1 ∷ []) (some 1) nil) nil))
        nil))

root_of_two : two.tree ≡ some root
unfolding runs
root_of_two = refl

root-IsTree : IsTree root
unfolding runs
root-IsTree = two-IsBuilt.tree.1

visit_tree-Inserted_example :
    IsRouteTree (visit_tree 1 (codes "/b/:id") one.tree).0
    × Inserted
        (pattern_of any_segment false (codes "/b/:id"), 1)
        (tree_table one.tree)
        (tree_table (visit_tree 1 (codes "/b/:id") one.tree).0)
    × KeepsKinds 1 (codes "/b/:id") one.tree (visit_tree 1 (codes "/b/:id") one.tree).0
unfolding runs
visit_tree-Inserted_example = visit_tree-Inserted 1 (codes "/b/:id") one.tree one-IsBuilt.tree refl

recognize_complete_example :
    Recognize.recognize (codes "/b/7") root 0 none
    ≡ (ok 1, some (record { params = (3, 4) ∷ []; wildcard = none }))
unfolding runs routes
recognize_complete_example =
    recognize_complete (codes "/b/7") root (byte b'/' ∷ byte b'b' ∷ byte b'/' ∷ any_segment ∷ []) 1
      0 none root-IsTree (omega arith) (Memᴰ.tail (Memᴰ.head refl))
      (refl, (refl, (refl, (omega arith, tt))))

insert-IsBuilt_example : IsBuilt two
unfolding runs
insert-IsBuilt_example = insert-IsBuilt one (codes "/b/:id") 1 one-IsBuilt refl

recognize-static_example : Table.recognize two (codes "/a") none ≡ (ok 0, none)
unfolding runs
recognize-static_example =
    recognize-static two 0 (codes "/a") 0 none two-IsBuilt refl (refl, (refl, tt))

recognize-insert_example : Table.recognize one (codes "/a") none ≡ (ok 0, none)
unfolding runs
recognize-insert_example =
    recognize-insert default (codes "/a") 0 none default-IsBuilt refl (refl, (refl, tt))

insert-Ends_example : Ends (insert two (codes "/b/:id/*rest") 2).1
insert-Ends_example = insert-Ends two (codes "/b/:id/*rest") 2 two-IsBuilt

recognize-IsReply_example : IsReply two.inner (Table.recognize two (codes "/b/7") none).0
recognize-IsReply_example = recognize-IsReply two (codes "/b/7") none two-IsBuilt
