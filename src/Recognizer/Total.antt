-- ===== src/Recognizer/Total.antt =====
-- tsukuyomi/src/app/recognizer.rs: a recognizer that `insert` has built neither panics nor gets
-- stuck.
use tsukuyomi.Prelude.{
  ℕ, ◌<◌, ◌≡◌, refl, sym, subst, true, false, Option, none, some, List, Bytes, eq_bytes, length,
  get_elem?, inl, inr, Bool-cases, Option-cases, Result-cases, Result, ok, err,
}
use mathlib.Core.List.{Memᴰ}
use tsukuyomi.Recognizer.Tree.{Candidates}
use tsukuyomi.Recognizer.Routes.{Token}
use tsukuyomi.Recognizer.TreeLaws.{tree_table}
use tsukuyomi.Recognizer.Safety.{Ends, is_reported, get_elem?_lt}
use tsukuyomi.Recognizer.Soundness.{IsAnswer, recognize_tree-IsAnswer}
use tsukuyomi.Recognizer.Routing.{entry_at-get_elem?}
use tsukuyomi.Recognizer.AddSafety.{visit_tree-Ends}
use tsukuyomi.Recognizer.Recognize.{
  Captures, RecognizeError, not_matched, partially_matched, panic, Answer, recognize_tree,
}
use tsukuyomi.Recognizer.Table.{
  is_ascii, asterisk_path, entry_at, Recognizer, insert_path, insert, get, recognize_index,
  value_of,
}
use tsukuyomi.Recognizer.Table
use tsukuyomi.Recognizer.Built.{IsBuilt}

module _ {ℓ} {T : Type ℓ} where
  path_Ends : (r : Recognizer T) (path : Bytes) → IsBuilt r → Ends (insert_path r path).1
  unfolding insert_path is_reported
  path_Ends r path h = elim (Bool-cases (eq_bytes path asterisk_path)) [
    | inl star ↦ elim (Option-cases r.asterisk) [
      | inl free ↦ rw (star, free, Ends, insert_path) tt
      | inr (i, taken) ↦ rw (star, taken, Ends, insert_path) refl
    ]
    | inr other ↦
        rw (other, Ends, insert_path) (visit_tree-Ends (length r.inner) path r.tree h.tree)
  ]

  -- Inserting a path into a recognizer that satisfies the invariant ends: with success or with an
  -- error that the source reports; no `expect`, index, slice or debug assertion fails, and the fuel
  -- is enough.
  pub insert-Ends : (r : Recognizer T) (path : Bytes) (v : T) → IsBuilt r → Ends (insert r path v).1
  unfolding insert is_reported
  insert-Ends r path v h = elim (Bool-cases (is_ascii path)) [
    | inr bad ↦ rw (bad, Ends, insert) refl
    | inl good ↦ elim (Result-cases (insert_path r path).1) [
      | inl (e, bad) ↦ rw (good, bad, Ends, insert) (subst Ends bad (path_Ends r path h))
      | inr (u, fine) ↦ rw (good, fine, Ends, insert) tt
    ]
  ]

  -- The value of an entry, or one of the two errors that the source returns.
  pub data IsReply (entries : List (Bytes × T)) : Result RecognizeError T → Type ℓ where
    found_value :
        {v : T} (i : ℕ) (key : Bytes) → get_elem? entries i ≡ some (key, v) → IsReply entries (ok v)
    found_nothing : IsReply entries (err not_matched)
    found_part : {cs : Candidates} → IsReply entries (err (partially_matched cs))

  value-IsReply :
      (r : Recognizer T) (i : ℕ) (captures : Option Captures)
      → i < length r.inner
      → IsReply r.inner (value_of r (ok i, captures)).0
  unfolding value_of get
  value-IsReply r i captures below =
      let ((key, v), at) = get_elem?_lt r.inner i below in
      rw (entry_at-get_elem? r.inner i at, value_of) (found_value i key at)

  nothing :
      (r : Recognizer T) (captures : Option Captures)
      → IsReply r.inner (value_of r (err not_matched, captures)).0
  unfolding value_of
  nothing r captures = found_nothing

  reply_lem :
      (r : Recognizer T) (answer : Answer)
      → ((ts : List Token) (i : ℕ) → Memᴰ (ts, i) (tree_table r.tree) → i < length r.inner)
      → IsAnswer (tree_table r.tree) answer.0
      → IsReply r.inner (value_of r answer).0
  unfolding value_of
  reply_lem r (ok i, captures) below (ts, m) = value-IsReply r i captures (below ts i m)
  reply_lem r (err not_matched, captures) below a = found_nothing
  reply_lem r (err (partially_matched cs), captures) below a = found_part
  reply_lem r (err panic, captures) below a = absurd a

  index_tree :
      (r : Recognizer T) (path : Bytes) (captures : Option Captures)
      → eq_bytes path asterisk_path ≡ false
      → recognize_index r path captures ≡ recognize_tree path r.tree captures
  unfolding recognize_index
  index_tree r path captures other = rw other refl

  index_asterisk :
      (r : Recognizer T) (path : Bytes) (captures : Option Captures) (i : ℕ)
      → eq_bytes path asterisk_path ≡ true
      → r.asterisk ≡ some i
      → recognize_index r path captures ≡ (ok i, captures)
  unfolding recognize_index
  index_asterisk r path captures i star taken = rw (star, taken) refl

  index_no_asterisk :
      (r : Recognizer T) (path : Bytes) (captures : Option Captures)
      → eq_bytes path asterisk_path ≡ true
      → r.asterisk ≡ none
      → recognize_index r path captures ≡ (err not_matched, captures)
  unfolding recognize_index
  index_no_asterisk r path captures star free = rw (star, free) refl

  IsReply-from :
      (r : Recognizer T) (path : Bytes) (captures : Option Captures) (answer : Answer)
      → recognize_index r path captures ≡ answer
      → IsReply r.inner (value_of r answer).0
      → IsReply r.inner (Table.recognize r path captures).0
  unfolding Table.recognize
  IsReply-from r path captures answer same reply =
      subst (λ a. IsReply r.inner (value_of r a).0) (sym same) reply

  -- Every request to a recognizer that satisfies the invariant is answered by the value of an
  -- entry or by one of the two errors that the source returns: no index, slice or `expect`
  -- fails.
  pub recognize-IsReply :
      (r : Recognizer T) (path : Bytes) (captures : Option Captures)
      → IsBuilt r
      → IsReply r.inner (Table.recognize r path captures).0
  recognize-IsReply r path captures h = elim (Bool-cases (eq_bytes path asterisk_path)) [
    | inr other ↦ IsReply-from r path captures _ (index_tree r path captures other) (
        reply_lem r (recognize_tree path r.tree captures) h.routes_below
          (recognize_tree-IsAnswer path r.tree captures h.tree))
    | inl star ↦ elim (Option-cases r.asterisk) [
      | inl free ↦
          IsReply-from r path captures _ (index_no_asterisk r path captures star free)
            (nothing r captures)
      | inr (i, taken) ↦
          IsReply-from r path captures _ (index_asterisk r path captures i star taken)
            (value-IsReply r i captures (h.asterisk_below i taken))
    ]
  ]
