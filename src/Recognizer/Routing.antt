-- ===== src/Recognizer/Routing.antt =====
-- tsukuyomi/src/app/recognizer.rs: `Recognizer::recognize` after `Recognizer::insert`.
use tsukuyomi.Prelude.{
  ℕ, zero, suc, ◌≡◌, refl, sym, ap, ◌∙◌, subst, false, Option, none, some, List, [], ◌∷◌, map,
  append-nil, Bytes, All, eq_bytes, ◌==◌, length, get_elem?, ok, err, arith,
}
use mathlib.Core.List.{Memᴰ}
use tsukuyomi.Recognizer.Tree.{Tree}
use tsukuyomi.Recognizer.Routes.{Token, byte, any_segment, Route, pattern_of, IsPlain}
use tsukuyomi.Recognizer.WildcardLaws.{pattern_of-append}
use tsukuyomi.Recognizer.RouteMembers.{exact}
use tsukuyomi.Recognizer.Matching.{Matches, captured}
use tsukuyomi.Recognizer.Complete.{recognize_complete}
use tsukuyomi.Recognizer.Erasure.{erase, ReadsAs, table-ReadsAs, erase-bytes}
use tsukuyomi.Recognizer.TreeLaws.{IsRouteTree, tree_table}
use tsukuyomi.Recognizer.Recognize.{Captures, RecognizeError, recognize_tree}
use tsukuyomi.Recognizer.Table.{
  asterisk_path, entry_at, Recognizer, insert, value_of, recognize_index, recognize,
}
use tsukuyomi.Recognizer.Built.{
  pattern, IsKeptAt, IsBuilt, insert-IsBuilt, inner-insert, get_elem?-end, get_elem?-append_left,
}

abbrev pub tree_exact : Tree → List Route
tree_exact none = []
tree_exact (some root) = exact root

tree_ReadsAs :
    (tree : Tree) (ts : List Token) (i : ℕ)
    → Memᴰ (ts, i) (tree_table tree)
    → ReadsAs ts i (tree_exact tree)
tree_ReadsAs none ts i m = elim m [ ]
tree_ReadsAs (some root) ts i m = table-ReadsAs root ts i m

tree_complete :
    (tree : Tree) (ts : List Token) (i : ℕ) (path : Bytes) (captures : Option Captures)
    → IsRouteTree tree
    → Memᴰ (ts, i) (tree_exact tree)
    → Matches ts path
    → recognize_tree path tree captures ≡ (ok i, captured (length path) ts path 0 captures)
unfolding recognize_tree
tree_complete none ts i path captures h m fits = elim m [ ]
tree_complete (some root) ts i path captures h m fits =
    recognize_complete path root ts i 0 captures h.1 (omega arith) m fits

Matches-bytes : (s : Bytes) → Matches (map byte s) s
Matches-bytes [] = tt
Matches-bytes (c ∷ s) = (refl, Matches-bytes s)

captured-bytes :
    (size : ℕ) (s : Bytes) (offset : ℕ) (captures : Option Captures)
    → captured size (map byte s) s offset captures ≡ captures
captured-bytes size [] offset captures = refl
captured-bytes size (c ∷ s) offset captures = captured-bytes size s _ captures

IsPlain-ne_asterisk : (path : Bytes) → All IsPlain path → eq_bytes path asterisk_path ≡ false
IsPlain-ne_asterisk [] h = refl
IsPlain-ne_asterisk (c ∷ s) (p, h) = let other : (c == b'*') ≡ false = ground arith in rw other refl

pattern-plain : (path : Bytes) → All IsPlain path → pattern path ≡ map byte path
unfolding pattern_of
pattern-plain path plain =
    ap pattern (sym (append-nil path)) ∙ pattern_of-append any_segment path [] plain ∙ append-nil _

module _ {ℓ} {T : Type ℓ} where
  pub entry_at-get_elem? :
      (m : List (Bytes × T)) (i : ℕ) {k : Bytes} {v : T}
      → get_elem? m i ≡ some (k, v)
      → entry_at m i ≡ some v
  entry_at-get_elem? [] i e = cc
  entry_at-get_elem? ((k, v) ∷ m) zero e = ground arith
  entry_at-get_elem? ((k, v) ∷ m) (suc i) e = entry_at-get_elem? m i e

  recognize_index-tree :
      (r : Recognizer T) (path : Bytes) (captures : Option Captures)
      → eq_bytes path asterisk_path ≡ false
      → recognize_index r path captures ≡ recognize_tree path r.tree captures
  unfolding recognize_index
  recognize_index-tree r path captures other = rw other refl

  -- How `recognize` answers from the index.
  recognize-index :
      (r : Recognizer T) (path : Bytes) (captures captures' : Option Captures) {i : ℕ} {v : T}
      → recognize_index r path captures ≡ (ok i, captures')
      → entry_at r.inner i ≡ some v
      → recognize r path captures ≡ (ok v, captures')
  unfolding recognize
  recognize-index r path captures captures' found at = ap (value_of r) found ∙ (λ j. elim (at j) [
    | none ↦ (err RecognizeError.panic, captures')
    | some v ↦ (ok v, captures')
  ])

  -- Each entry with a path other than the asterisk is reachable: some pattern that reads as its
  -- path, up to the kind of a wildcard, has all its matches answered by the entry's value.
  pub recognize-route :
      (r : Recognizer T) (i : ℕ) (path : Bytes) (v : T)
      → IsBuilt r
      → get_elem? r.inner i ≡ some (path, v)
      → eq_bytes path asterisk_path ≡ false
      → (us : List Token) × (map erase us ≡ pattern path)
        × ((p : Bytes) (captures : Option Captures)
            → eq_bytes p asterisk_path ≡ false
            → Matches us p
            → recognize r p captures ≡ (ok v, captured (length p) us p 0 captures))
  recognize-route r i path v h at other =
      let kept = subst (λ b. IsKeptAt b path i r.tree r.asterisk) other (h.kept i path v at) in
      let (us, m, reads) = tree_ReadsAs r.tree (pattern path) i kept in
      (
        us,
        reads,
        λ p captures request fits.
            recognize-index r p captures (captured (length p) us p 0 captures)
              (recognize_index-tree r p captures request
                ∙ tree_complete r.tree us i p captures h.tree m fits)
              (entry_at-get_elem? r.inner i at),
      )

  -- A path with no wildcard is answered by the value that was inserted for it, whatever else was
  -- inserted, and leaves the captures alone.
  pub recognize-static :
      (r : Recognizer T) (i : ℕ) (path : Bytes) (v : T) (captures : Option Captures)
      → IsBuilt r
      → get_elem? r.inner i ≡ some (path, v)
      → All IsPlain path
      → recognize r path captures ≡ (ok v, captures)
  recognize-static r i path v captures h at plain =
      let other = IsPlain-ne_asterisk path plain in
      let (us, reads, answers) = recognize-route r i path v h at other in
      let same = erase-bytes us path (reads ∙ pattern-plain path plain) in
      answers path captures other (subst (λ ts. Matches ts path) (sym same) (Matches-bytes path))
      ∙ ap (λ ts. (ok v, captured (length path) ts path 0 captures)) same
      ∙ ap (λ c. (ok v, c)) (captured-bytes (length path) path 0 captures)

  -- Inserting a path with no wildcard and asking for it gives the value back.
  pub recognize-insert :
      (r : Recognizer T) (path : Bytes) (v : T) (captures : Option Captures)
      → IsBuilt r
      → (insert r path v).1 ≡ ok tt
      → All IsPlain path
      → recognize (insert r path v).0 path captures ≡ (ok v, captures)
  recognize-insert r path v captures h e plain =
      let entries = inner-insert r path v h e in
      recognize-static (insert r path v).0 (length r.inner) path v captures
        (insert-IsBuilt r path v h e)
        (ap (λ m. get_elem? m (length r.inner)) entries ∙ get_elem?-end r.inner (path, v)) plain

  -- What was inserted before is still found.
  recognize-insert_before :
      (r : Recognizer T) (path : Bytes) (v : T) (i : ℕ) (k : Bytes) (w : T)
      (captures : Option Captures)
      → IsBuilt r
      → (insert r path v).1 ≡ ok tt
      → get_elem? r.inner i ≡ some (k, w)
      → All IsPlain k
      → recognize (insert r path v).0 k captures ≡ recognize r k captures
  recognize-insert_before r path v i k w captures h e at plain =
      recognize-static (insert r path v).0 i k w captures (insert-IsBuilt r path v h e)
        (ap (λ m. get_elem? m i) (inner-insert r path v h e)
          ∙ get_elem?-append_left r.inner ((path, v) ∷ []) i at)
        plain
      ∙ sym (recognize-static r i k w captures h at plain)
