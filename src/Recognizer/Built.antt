-- ===== src/Recognizer/Built.antt =====
-- tsukuyomi/src/app/recognizer.rs: the invariant of `Recognizer<T>` under `insert`: each entry
-- stands in the tree under the pattern of its path, with its position as the index.
use tsukuyomi.Prelude.{
  none-some, some_injective, ℕ, zero, suc, ◌+◌, ◌<◌, ◌≡◌, ◌≢◌, refl, sym, ap, ◌∙◌, subst, Bool,
  true, false, Option, none, some, List, [], ◌∷◌, ◌++◌, Bytes, eq_bytes, eq_bytes→eq, length,
  length-append, get_elem?, ◌⊎◌, inl, inr, Bool-cases, Result-cases, ok, err, arith,
}
use mathlib.Core.List.{Memᴰ}
use tsukuyomi.Recognizer.Tree.{Tree, asterisk_conflict}
use tsukuyomi.Recognizer.WildcardLaws.{lt-length}
use tsukuyomi.Recognizer.Insert.{visit_tree}
use tsukuyomi.Recognizer.Inserted.{Inserted, Inserted-mem, Inserted-keeps, Inserted-only}
use tsukuyomi.Recognizer.Routes.{Token, any_segment, Route, pattern_of}
use tsukuyomi.Recognizer.RouteMembers.{routes_unique}
use tsukuyomi.Recognizer.TreeLaws.{IsRouteTree, tree_table, visit_tree-Inserted}
use tsukuyomi.Recognizer.Table.{
  is_ascii, asterisk_path, insert_entry, Recognizer, default, insert_path, insert,
}

abbrev pub pattern : Bytes → List Token
pattern path = pattern_of any_segment false path

-- Where the index of a path is kept: as the asterisk, or in the tree.
abbrev pub IsKeptAt : Bool → Bytes → ℕ → Tree → Option ℕ → Type 0
IsKeptAt true path i tree asterisk = asterisk ≡ some i
IsKeptAt false path i tree asterisk = Memᴰ (pattern path, i) (tree_table tree)

tree_unique :
    (tree : Tree) (ts : List Token) (i j : ℕ)
    → IsRouteTree tree
    → Memᴰ (ts, i) (tree_table tree)
    → Memᴰ (ts, j) (tree_table tree)
    → i ≡ j
tree_unique none ts i j h m k = elim m [ ]
tree_unique (some root) ts i j h m k = routes_unique any_segment root ts i j h.1 m k

module _ {ℓ} {A : Type ℓ} where
  pub get_elem?-append_left :
      (xs ys : List A) (i : ℕ) {x : A} → get_elem? xs i ≡ some x → get_elem? (xs ++ ys) i ≡ some x
  get_elem?-append_left [] ys i e = cc
  get_elem?-append_left (a ∷ xs) ys zero e = e
  get_elem?-append_left (a ∷ xs) ys (suc i) e = get_elem?-append_left xs ys i e

  pub get_elem?-end : (xs : List A) (x : A) → get_elem? (xs ++ x ∷ []) (length xs) ≡ some x
  get_elem?-end [] x = refl
  get_elem?-end (a ∷ xs) x = get_elem?-end xs x

  pub get_elem?-snoc :
      (xs : List A) (x : A) (i : ℕ) {y : A}
      → get_elem? (xs ++ x ∷ []) i ≡ some y
      → (get_elem? xs i ≡ some y) ⊎ ((i ≡ length xs) × (x ≡ y))
  get_elem?-snoc [] x zero e = inr (refl, some_injective e)
  get_elem?-snoc [] x (suc i) e = cc
  get_elem?-snoc (a ∷ xs) x zero e = inl e
  get_elem?-snoc (a ∷ xs) x (suc i) e = elim (get_elem?-snoc xs x i e) [
    | inl old ↦ inl old
    | inr (at, same) ↦ inr (ap suc at, same)
  ]

IsKeptAt-mono :
    (b : Bool) (path : Bytes) (i : ℕ) (tree tree' : Tree) (asterisk asterisk' : Option ℕ)
    → (Memᴰ (pattern path, i) (tree_table tree) → Memᴰ (pattern path, i) (tree_table tree'))
    → (asterisk ≡ some i → asterisk' ≡ some i)
    → IsKeptAt b path i tree asterisk
    → IsKeptAt b path i tree' asterisk'
IsKeptAt-mono true path i tree tree' asterisk asterisk' f g h = g h
IsKeptAt-mono false path i tree tree' asterisk asterisk' f g h = f h

module _ {ℓ} {T : Type ℓ} where
  abbrev pub IsKept : Recognizer T → Bytes → ℕ → Type 0
  IsKept r path i = IsKeptAt (eq_bytes path asterisk_path) path i r.tree r.asterisk

  pub record IsBuilt (r : Recognizer T) : Type ℓ where
    pub tree : IsRouteTree r.tree
    pub routes_below :
        (ts : List Token) (i : ℕ) → Memᴰ (ts, i) (tree_table r.tree) → i < length r.inner
    pub asterisk_below : (i : ℕ) → r.asterisk ≡ some i → i < length r.inner
    pub kept :
        (i : ℕ) (path : Bytes) (v : T) → get_elem? r.inner i ≡ some (path, v) → IsKept r path i

  pub default-IsBuilt : IsBuilt (default {T = T})
  default-IsBuilt = record {
    tree = tt;
    routes_below = λ ts i m. elim m [ ];
    asterisk_below = λ i e. cc;
    kept = λ i path v e. cc;
  }

  -- An index of a path that is stored already.
  abbrev IsNew : Bytes → List (Bytes × T) → Type ℓ
  IsNew path m = (i : ℕ) (v : T) → get_elem? m i ≢ some (path, v)

  insert_entry-new :
      (path : Bytes) (v : T) (m : List (Bytes × T))
      → IsNew path m
      → insert_entry path v m ≡ m ++ (path, v) ∷ []
  insert_entry-new path v [] h = refl
  insert_entry-new path v ((k, w) ∷ m) h = elim (Bool-cases (eq_bytes k path)) [
    | inl same ↦ absurd (h 0 w (ap (λ p. some (p, w)) (eq_bytes→eq k path same)))
    | inr other ↦ rw other (ap (λ xs. (k, w) ∷ xs) (insert_entry-new path v m (λ i x. h (suc i) x)))
  ]

  -- The entry that a success of `insert` adds, after the tree and the asterisk have taken the path.
  add_entry-IsBuilt :
      (r r' : Recognizer T) (path : Bytes) (v : T)
      → IsBuilt r
      → r'.inner ≡ r.inner
      → IsNew path r.inner
      → IsRouteTree r'.tree
      → ((ts : List Token) (i : ℕ) → Memᴰ (ts, i) (tree_table r'.tree) → i < suc (length r.inner))
      → ((i : ℕ) → r'.asterisk ≡ some i → i < suc (length r.inner))
      → ((k : Bytes) (i : ℕ) → i < length r.inner → IsKept r k i → IsKept r' k i)
      → IsKept r' path (length r.inner)
      → IsBuilt (record r' { inner = insert_entry path v r'.inner })
  add_entry-IsBuilt r r' path v h same fresh tree routes stars old new =
      let entries = ap (insert_entry path v) same ∙ insert_entry-new path v r.inner fresh in
      let one : length r.inner + 1 ≡ suc (length r.inner) = omega arith in
      let size : length (insert_entry path v r'.inner) ≡ suc (length r.inner) =
        ap length entries ∙ length-append r.inner ((path, v) ∷ []) ∙ one in
      record {
        tree = tree;
        routes_below = λ ts i m. subst (λ n. i < n) (sym size) (routes ts i m);
        asterisk_below = λ i e. subst (λ n. i < n) (sym size) (stars i e);
        kept = λ i k w e. elim (get_elem?-snoc r.inner (path, v) i (rw entries at e)) [
          | inl before ↦ old k i (lt-length r.inner i before) (h.kept i k w before)
          | inr (at, here) ↦
              subst (λ j. IsKept r' k j) (sym at)
                (subst (λ p. IsKept r' p (length r.inner)) (ap (λ (x : Bytes × T). x.0) here) new)
        ];
      }

  insert_parts :
      (r : Recognizer T) (path : Bytes) (v : T)
      → (insert r path v).1 ≡ ok tt
      → ((insert_path r path).1 ≡ ok tt)
        × ((insert r path v).0 ≡ record (insert_path r path).0 {
          inner = insert_entry path v (insert_path r path).0.inner;
        })
  unfolding insert
  insert_parts r path v e = elim (Bool-cases (is_ascii path)) [
    | inl yes' ↦ elim (Result-cases (insert_path r path).1) [
      | inl (x, bad) ↦ absurd (cc (rw (yes', bad, insert) at e))
      | inr (u, good) ↦ (good, rw (yes', good, insert) refl)
    ]
    | inr no' ↦ absurd (cc (rw (no', insert) at e))
  ]

  asterisk_stored :
      (r : Recognizer T) (path : Bytes)
      → eq_bytes path asterisk_path ≡ true
      → r.asterisk ≡ none
      → insert_path r path ≡ (record r { asterisk = some (length r.inner) }, ok tt)
  unfolding insert_path
  asterisk_stored r path star free = rw star (λ j. elim (free j) [
    | some i ↦ (r, err asterisk_conflict)
    | none ↦ (record r { asterisk = some (length r.inner) }, ok tt)
  ])

  asterisk_free :
      (r : Recognizer T) (path : Bytes)
      → eq_bytes path asterisk_path ≡ true
      → (insert_path r path).1 ≡ ok tt
      → r.asterisk ≡ none
  unfolding insert_path
  asterisk_free r path star e = ground arith

  asterisk_clash :
      (r : Recognizer T) (path : Bytes)
      → IsBuilt r
      → eq_bytes path asterisk_path ≡ true
      → r.asterisk ≡ none
      → IsNew path r.inner
  asterisk_clash r path h star free i w at =
      none-some
        (sym free ∙ subst (λ b. IsKeptAt b path i r.tree r.asterisk) star (h.kept i path w at))

  asterisk_case :
      (r : Recognizer T) (path : Bytes) (v : T)
      → IsBuilt r
      → eq_bytes path asterisk_path ≡ true
      → r.asterisk ≡ none
      → IsBuilt (record r { asterisk = some (length r.inner); inner = insert_entry path v r.inner })
  asterisk_case r path v h star free =
      add_entry-IsBuilt r (record r { asterisk = some (length r.inner) }) path v h refl
        (asterisk_clash r path h star free) h.tree (λ ts i m. omega (arith, h.routes_below ts i m))
        (λ i at. omega (arith, some_injective at))
        (λ k i below at.
          IsKeptAt-mono (eq_bytes k asterisk_path) k i r.tree r.tree r.asterisk
            (some (length r.inner)) (λ m. m) (λ at'. absurd (none-some (sym free ∙ at'))) at)
        (subst (λ b. IsKeptAt b path (length r.inner) r.tree (some (length r.inner))) (sym star)
          refl)

  tree_clash :
      (r : Recognizer T) (path : Bytes) (tree : Tree)
      → IsBuilt r
      → eq_bytes path asterisk_path ≡ false
      → IsRouteTree tree
      → Inserted (pattern path, length r.inner) (tree_table r.tree) (tree_table tree)
      → IsNew path r.inner
  tree_clash r path tree h other planted added i w at =
      let m = subst (λ b. IsKeptAt b path i r.tree r.asterisk) other (h.kept i path w at) in
      let same =
        tree_unique tree (pattern path) i (length r.inner) planted (Inserted-keeps added m)
          (Inserted-mem added) in
      absurd (omega (arith, h.routes_below (pattern path) i m, same))

  tree_case :
      (r : Recognizer T) (path : Bytes) (v : T) (tree : Tree)
      → IsBuilt r
      → eq_bytes path asterisk_path ≡ false
      → IsRouteTree tree
      → Inserted (pattern path, length r.inner) (tree_table r.tree) (tree_table tree)
      → IsBuilt (record r { tree = tree; inner = insert_entry path v r.inner })
  tree_case r path v tree h other planted added =
      add_entry-IsBuilt r (record r { tree = tree }) path v h refl
        (tree_clash r path tree h other planted added) planted
        (λ ts i m. elim (Inserted-only added m) [
          | inl e ↦ omega (arith, ap (λ (x : Route). x.1) e)
          | inr old ↦ omega (arith, h.routes_below ts i old)
        ])
        (λ i at. omega (arith, h.asterisk_below i at))
        (λ k i below at.
          IsKeptAt-mono (eq_bytes k asterisk_path) k i r.tree tree r.asterisk r.asterisk
            (Inserted-keeps added) (λ x. x) at)
        (subst (λ b. IsKeptAt b path (length r.inner) tree r.asterisk) (sym other)
          (Inserted-mem added))

  tree_stored :
      (r : Recognizer T) (path : Bytes)
      → eq_bytes path asterisk_path ≡ false
      → insert_path r path ≡ (
        record r { tree = (visit_tree (length r.inner) path r.tree).0 },
        (visit_tree (length r.inner) path r.tree).1,
      )
  unfolding insert_path
  tree_stored r path other = rw other refl

  -- A success of `insert` keeps the invariant: a well-formed tree whose routes are indexes of
  -- entries, and the pattern of each entry's path kept as a route with the entry's index. The pattern
  -- does not tell the two kinds of wildcard apart.
  pub insert-IsBuilt :
      (r : Recognizer T) (path : Bytes) (v : T)
      → IsBuilt r
      → (insert r path v).1 ≡ ok tt
      → IsBuilt (insert r path v).0
  insert-IsBuilt r path v h e =
      let (fine, same) = insert_parts r path v e in
      elim (Bool-cases (eq_bytes path asterisk_path)) [
        | inl star ↦
            let free = asterisk_free r path star fine in
            rw (same, asterisk_stored r path star free) (asterisk_case r path v h star free)
        | inr other ↦
            let (planted, added, kinds) =
              visit_tree-Inserted (length r.inner) path r.tree h.tree
                (rw (tree_stored r path other) at fine) in
            rw (same, tree_stored r path other)
              (tree_case r path v (visit_tree (length r.inner) path r.tree).0 h other planted added)
      ]

  -- A success of `insert` appends the entry.
  pub inner-insert :
      (r : Recognizer T) (path : Bytes) (v : T)
      → IsBuilt r
      → (insert r path v).1 ≡ ok tt
      → (insert r path v).0.inner ≡ r.inner ++ (path, v) ∷ []
  inner-insert r path v h e =
      let (fine, same) = insert_parts r path v e in
      elim (Bool-cases (eq_bytes path asterisk_path)) [
        | inl star ↦
            let free = asterisk_free r path star fine in
            rw (same, asterisk_stored r path star free)
              (insert_entry-new path v r.inner (asterisk_clash r path h star free))
        | inr other ↦
            let (planted, added, kinds) =
              visit_tree-Inserted (length r.inner) path r.tree h.tree
                (rw (tree_stored r path other) at fine) in
            rw (same, tree_stored r path other)
              (insert_entry-new path v r.inner (
                tree_clash r path (visit_tree (length r.inner) path r.tree).0 h other planted
                  added))
      ]
