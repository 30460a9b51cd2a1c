-- ===== src/Session/Laws.antt =====
-- tsukuyomi-session/src/backend/cookie.rs: what the operations of a session do to what `get` finds,
-- one by one and in sequence.
use tsukuyomi.Prelude.{
  ◌≡◌, refl, sym, ap, ◌∙◌, Bool, true, false, Option, none, some, List, [], ◌∷◌, Bytes, eq_bytes,
  eq_bytes→eq, eq_bytes_refl, false-true, if◌then◌else◌, inl, inr, Bool-cases,
}
use tsukuyomi.Session.{
  Entries, lookup, insert, remove_entry, Inner, empty, entries, clear, get, set, remove, cleared,
}

other_name :
    (k name other : Bytes)
    → eq_bytes k name ≡ false
    → eq_bytes k other ≡ true
    → eq_bytes name other ≡ false
other_name k name other apart here = elim (Bool-cases (eq_bytes name other)) [
  | inr different ↦ different
  | inl same ↦
      absurd (false-true (sym apart ∙ ap (eq_bytes k) (eq_bytes→eq name other same) ∙ here))
]

module _ (name value : Bytes) where
  -- What the key `other` gives after a write of `name`.
  abbrev pub written : Option Bytes → Bytes → Option Bytes
  written before other = if eq_bytes name other then some value else before

  lookup-insert :
      (es : Entries) (other : Bytes)
      → lookup (insert es name value) other ≡ written (lookup es other) other
  unfolding lookup insert
  lookup-insert [] other = refl
  lookup-insert ((k, v) ∷ es) other = elim (Bool-cases (eq_bytes k name)) [
    | inl same ↦ elim (Bool-cases (eq_bytes name other)) [
      | inl here ↦ rw (eq_bytes→eq k name same, eq_bytes_refl name, here, lookup) refl
      | inr there ↦ rw (eq_bytes→eq k name same, eq_bytes_refl name, there, lookup) refl
    ]
    | inr apart ↦ elim (Bool-cases (eq_bytes k other)) [
      | inl here ↦ rw (apart, lookup, here, other_name k name other apart here) refl
      | inr there ↦ rw (apart, lookup, there) (lookup-insert es other)
    ]
  ]

  lookup-remove_entry :
      (es : Entries) (other : Bytes)
      → lookup (remove_entry es name) other
        ≡ (if eq_bytes name other then none else lookup es other)
  unfolding lookup remove_entry
  lookup-remove_entry [] other = elim (Bool-cases (eq_bytes name other)) [
    | inl here ↦ rw here refl
    | inr there ↦ rw there refl
  ]
  lookup-remove_entry ((k, v) ∷ es) other = elim (Bool-cases (eq_bytes k name)) [
    | inl same ↦ elim (Bool-cases (eq_bytes name other)) [
      | inl here ↦ rw (same, here) (lookup-remove_entry es other ∙ rw here refl)
      | inr there ↦
          rw (same, there, eq_bytes→eq k name same, lookup, there)
            (lookup-remove_entry es other ∙ rw there refl)
    ]
    | inr apart ↦ elim (Bool-cases (eq_bytes k other)) [
      | inl here ↦ rw (apart, lookup, here, other_name k name other apart here) refl
      | inr there ↦ rw (apart, lookup, there) (lookup-remove_entry es other)
    ]
  ]

-- The operations of a session.
pub data Op : Type 0 where
  write_op : Bytes → Bytes → Op
  remove_op : Bytes → Op
  clear_op : Op

abbrev pub step : Inner → Op → Inner
step inner (write_op name value) = set inner name value
step inner (remove_op name) = remove inner name
step inner clear_op = cleared inner

unfoldable pub run : Inner → List Op → Inner
run inner [] = inner
run inner (op ∷ ops) = run (step inner op) ops

-- A session as its client sees it: a map from names, until it is closed.
pub record View : Type 0 where
  pub closed : Bool
  pub at : Bytes → Option Bytes

-- A write has no effect on a session that is closed.
abbrev pub write_view : View → Bytes → Bytes → Bool → View
write_view w name value true = w
write_view w name value false = record {
  closed = false;
  at = λ other. written name value (w.at other) other;
}

abbrev pub step_view : View → Op → View
step_view w (write_op name value) = write_view w name value w.closed
step_view w (remove_op name) = record {
  closed = w.closed;
  at = λ other. if eq_bytes name other then none else w.at other;
}
step_view w clear_op = record { closed = true; at = λ other. none }

unfoldable pub run_view : View → List Op → View
run_view w [] = w
run_view w (op ∷ ops) = run_view (step_view w op) ops

abbrev pub is_clear : Inner → Bool
is_clear clear = true
is_clear _ = false

abbrev pub view : Inner → View
view inner = record { closed = is_clear inner; at = get inner }

-- The state of a session, and what its client sees.
pub record Shows (inner : Inner) (w : View) : Type 0 where
  pub closed : is_clear inner ≡ w.closed
  pub at : (name : Bytes) → get inner name ≡ w.at name

pub write-Shows :
    (inner : Inner) (w : View) (name value : Bytes) (b : Bool)
    → is_clear inner ≡ b
    → Shows inner w
    → Shows (set inner name value) (write_view w name value b)
unfolding set get
write-Shows empty w name value true e s = absurd (false-true e)
write-Shows empty w name value false e s = record {
  closed = refl;
  at = λ other.
      lookup-insert name value [] other ∙ ap (λ o. written name value o other) (s.at other);
}
write-Shows (entries es) w name value true e s = absurd (false-true e)
write-Shows (entries es) w name value false e s = record {
  closed = refl;
  at = λ other.
      lookup-insert name value es other ∙ ap (λ o. written name value o other) (s.at other);
}
write-Shows clear w name value true e s = s
write-Shows clear w name value false e s = absurd (false-true (sym e))

removed-none : (b : Bool) (o : Option Bytes) → none ≡ o → none ≡ (if b then none else o)
removed-none true o e = refl
removed-none false o e = e

remove-Shows :
    (inner : Inner) (w : View) (name : Bytes)
    → Shows inner w
    → Shows (remove inner name) (step_view w (remove_op name))
unfolding remove get
remove-Shows empty w name s = record {
  closed = s.closed;
  at = λ other. removed-none (eq_bytes name other) (w.at other) (s.at other);
}
remove-Shows (entries es) w name s = record {
  closed = s.closed;
  at = λ other.
      lookup-remove_entry name [] es other
      ∙ ap (λ o. if eq_bytes name other then none else o) (s.at other);
}
remove-Shows clear w name s = record {
  closed = s.closed;
  at = λ other. removed-none (eq_bytes name other) (w.at other) (s.at other);
}

step-Shows :
    (inner : Inner) (w : View) (op : Op) → Shows inner w → Shows (step inner op) (step_view w op)
unfolding get
step-Shows inner w (write_op name value) s = write-Shows inner w name value w.closed s.closed s
step-Shows inner w (remove_op name) s = remove-Shows inner w name s
step-Shows inner w clear_op s = record { closed = refl; at = λ name. refl }

-- A session implements the map that its client sees, through every sequence of writes, removals
-- and clearings: `get` gives the last value written under a name and not removed since; after a
-- clearing there is none, and a write has no effect any more.
pub run-Shows :
    (inner : Inner) (w : View) (ops : List Op)
    → Shows inner w
    → Shows (run inner ops) (run_view w ops)
unfolding run run_view
run-Shows inner w [] s = s
run-Shows inner w (op ∷ ops) s =
    run-Shows (step inner op) (step_view w op) ops (step-Shows inner w op s)

-- Once cleared, a session stays so, whatever is written to it.
pub run-clear : (ops : List Op) → run clear ops ≡ clear
unfolding run set remove
run-clear [] = refl
run-clear (write_op name value ∷ ops) = run-clear ops
run-clear (remove_op name ∷ ops) = run-clear ops
run-clear (clear_op ∷ ops) = run-clear ops
