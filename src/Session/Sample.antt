-- ===== src/Session/Sample.antt =====
-- Jars that are lists of entries, whatever the format, with a text for a map of entries, as an instance
-- of what the backends of sessions use.
use tsukuyomi.Prelude.{
  ℕ, zero, suc, ◌≡◌, refl, ap, ◌∙◌, Option, none, some, List, [], ◌∷◌, Bytes, eq_bytes,
  eq_bytes_refl, if◌then◌else◌, push_first, inl, inr, Bool-cases,
}
use tsukuyomi.Session.{Entries, lookup}
use tsukuyomi.Session.Cookie.{Security, plain, signed, private_, Jars, get_from, add_to}
use tsukuyomi.Session.CookieLaws.{IsJars}

-- A text, each of its bytes after a 1, and then a 0
abbrev write_text : Bytes → Bytes → Bytes
write_text [] rest = 0 ∷ rest
write_text (b ∷ s) rest = 1 ∷ b ∷ write_text s rest

abbrev read_texts : Bytes → List Bytes
read_texts [] = []
read_texts (zero ∷ s) = [] ∷ read_texts s
read_texts (suc n ∷ []) = []
read_texts (suc n ∷ b ∷ s) = push_first b (read_texts s)

read_texts-write_text : (s rest : Bytes) → read_texts (write_text s rest) ≡ s ∷ read_texts rest
read_texts-write_text [] rest = refl
read_texts-write_text (b ∷ s) rest = ap (push_first b) (read_texts-write_text s rest)

abbrev write_entries : Entries → Bytes
write_entries [] = []
write_entries ((k, v) ∷ es) = write_text k (write_text v (write_entries es))

abbrev pair_up : List Bytes → Entries
pair_up (k ∷ v ∷ ts) = (k, v) ∷ pair_up ts
pair_up _ = []

pair-read : (es : Entries) → pair_up (read_texts (write_entries es)) ≡ es
pair-read [] = refl
pair-read ((k, v) ∷ es) =
    ap pair_up (
      read_texts-write_text k (write_text v (write_entries es))
      ∙ ap (λ ts. k ∷ ts) (read_texts-write_text v (write_entries es)))
    ∙ ap (λ r. (k, v) ∷ r) (pair-read es)

abbrev find : Entries → Bytes → Option (Bytes × Bytes)
find [] name = none
find ((k, v) ∷ j) name = if eq_bytes k name then some (k, v) else find j name

abbrev drop_name : Entries → Bytes → Entries
drop_name [] name = []
drop_name ((k, v) ∷ j) name =
    let rest = drop_name j name in if eq_bytes k name then rest else (k, v) ∷ rest

find-drop_name : (j : Entries) (name : Bytes) → find (drop_name j name) name ≡ none
find-drop_name [] name = refl
find-drop_name ((k, v) ∷ j) name = elim (Bool-cases (eq_bytes k name)) [
  | inl same ↦ rw same (find-drop_name j name)
  | inr apart ↦ rw (apart, find, apart) (find-drop_name j name)
]

abbrev pub lists : Jars Entries (Bytes × Bytes) ℕ
lists = record {
  get_cookie = find;
  add_cookie = λ j c. c ∷ j;
  get_signed = λ j key. find j;
  add_signed = λ j key c. c ∷ j;
  get_private = λ j key. find j;
  add_private = λ j key c. c ∷ j;
  remove_cookie = λ j c. drop_name j c.0;
  named = λ name. (name, []);
  build = λ name value. (name, value);
  value = λ c. c.1;
  from_str = λ s. some (pair_up (read_texts s));
  to_string = write_entries;
}

found-added :
    (security : Security ℕ) (j : Entries) (c : Bytes × Bytes)
    → get_from lists security (add_to lists security j c) c.0 ≡ some c
found-added plain j (k, v) = rw (eq_bytes_refl k) refl
found-added (signed key) j (k, v) = rw (eq_bytes_refl k) refl
found-added (private_ key) j (k, v) = rw (eq_bytes_refl k) refl

lost-removed :
    (security : Security ℕ) (j : Entries) (name : Bytes)
    → get_from lists security (lists.remove_cookie j (lists.named name)) name ≡ none
lost-removed plain j name = find-drop_name j name
lost-removed (signed key) j name = find-drop_name j name
lost-removed (private_ key) j name = find-drop_name j name

pub lists-IsJars : IsJars lists
lists-IsJars = record {
  name_of = λ c. c.0;
  name-build = λ name value. refl;
  value-build = λ name value. refl;
  get-add = λ security j c. (c, found-added security j c, refl);
  get-remove = lost-removed;
  from-to = λ es. (
    pair_up (read_texts (write_entries es)),
    refl,
    λ name. ap (λ e. lookup e name) (pair-read es),
  );
}
