-- ===== src/Recognizer/Table.antt =====
-- tsukuyomi/src/app/recognizer.rs: `Recognizer<T>`. Its `IndexMap` is the sequence of its entries
-- in order of insertion, in which a key that is present keeps its place.
use tsukuyomi.Prelude.{
  ℕ, zero, suc, Bool, Option, none, some, List, [], ◌∷◌, Bytes, eq_bytes, all, length, codes,
  if◌then◌else◌, Result, ok, err, ltb,
}
use tsukuyomi.Recognizer.Tree.{Tree, not_ascii, asterisk_conflict}
use tsukuyomi.Recognizer.Insert.{Outcome, visit_tree}
use tsukuyomi.Recognizer.Recognize.{Captures, RecognizeError, not_matched, panic, recognize_tree}

-- `str::is_ascii`
abbrev pub is_ascii : Bytes → Bool
is_ascii s = all (λ c. ltb c 128) s

abbrev pub asterisk_path : Bytes
asterisk_path = codes "*"

module _ {ℓ} {T : Type ℓ} where
  abbrev pub entry_at : List (Bytes × T) → ℕ → Option T
  entry_at [] i = none
  entry_at ((k, v) ∷ m) zero = some v
  entry_at ((k, v) ∷ m) (suc i) = entry_at m i

  -- `IndexMap::insert`
  abbrev pub insert_entry : Bytes → T → List (Bytes × T) → List (Bytes × T)
  insert_entry k v [] = (k, v) ∷ []
  insert_entry k v ((j, w) ∷ m) = if eq_bytes j k then (j, v) ∷ m else (j, w) ∷ insert_entry k v m

pub record Recognizer {ℓ} (T : Type ℓ) : Type ℓ where
  pub inner : List (Bytes × T)
  pub tree : Tree
  pub asterisk : Option ℕ

module _ {ℓ} {T : Type ℓ} where
  abbrev pub default : Recognizer T
  default = record { inner = []; tree = none; asterisk = none }

  -- The asterisk, or the tree: all of `insert` but the entry.
  unfoldable pub insert_path : Recognizer T → Bytes → Recognizer T × Outcome
  unfolding visit_tree
  insert_path r path =
      if eq_bytes path asterisk_path
      then elim r.asterisk [
        | some i ↦ (r, err asterisk_conflict)
        | none ↦ (record r { asterisk = some (length r.inner) }, ok tt)
      ]
      else (let (tree, outcome) = visit_tree (length r.inner) path r.tree in
          (record r { tree = tree }, outcome))

  -- `&mut self`: the recognizer as it is left, on an error too.
  unfoldable pub insert : Recognizer T → Bytes → T → Recognizer T × Outcome
  unfolding insert_path
  insert r path value =
      if is_ascii path
      then (let (r', outcome) = insert_path r path in
          elim outcome [
            | err e ↦ (r', err e)
            | ok u ↦ (record r' { inner = insert_entry path value r'.inner }, ok tt)
          ])
      else (r, err not_ascii)

  unfoldable pub get : Recognizer T → ℕ → Option T
  get r i = entry_at r.inner i

  -- The index that `Recognizer::recognize` looks up.
  unfoldable pub recognize_index :
      Recognizer T → Bytes → Option Captures → Result RecognizeError ℕ × Option Captures
  unfolding recognize_tree
  recognize_index r path captures =
      if eq_bytes path asterisk_path
      then elim r.asterisk [ some i ↦ (ok i, captures) | none ↦ (err not_matched, captures) ]
      else recognize_tree path r.tree captures

  -- `Ok(self.get(index).expect("should be success"))`
  unfoldable pub value_of :
      Recognizer T
      → Result RecognizeError ℕ × Option Captures
      → Result RecognizeError T × Option Captures
  unfolding get
  value_of r (err e, captures) = (err e, captures)
  value_of r (ok i, captures) = elim (get r i) [
    | none ↦ (err panic, captures)
    | some v ↦ (ok v, captures)
  ]

  unfoldable pub recognize :
      Recognizer T → Bytes → Option Captures → Result RecognizeError T × Option Captures
  unfolding recognize_index value_of
  recognize r path captures = value_of r (recognize_index r path captures)
