-- ===== src/Http/Sample.antt =====
-- A small instance of the interface to the `http` crate: URIs, methods and values are texts, header
-- names are numbers, and a header map is the list of its entries.
use tsukuyomi.Prelude.{
  ℕ, ◌≡◌, refl, false, Option, none, some, List, [], ◌∷◌, ◌++◌, Bytes, codes, eq_bytes, starts_with,
  ◌==◌, ==_iff, if◌then◌else◌, inl, inr, Bool-cases, arith,
}
use tsukuyomi.Http.{Http, IsHttp}

abbrev pub Entries : Type 0
Entries = List (ℕ × Bytes)

unfoldable pub get_entry : Entries → ℕ → Option Bytes
get_entry [] j = none
get_entry ((k, v) ∷ m) j = let rest = get_entry m j in if k == j then some v else rest

unfoldable pub remove_entries : Entries → ℕ → Entries
remove_entries [] k = []
remove_entries ((j, v) ∷ m) k =
    let rest = remove_entries m k in if j == k then rest else (j, v) ∷ rest

get-remove :
    (m : Entries) (k j : ℕ) → (k == j) ≡ false → get_entry (remove_entries m k) j ≡ get_entry m j
unfolding get_entry remove_entries
get-remove [] k j differ = refl
get-remove ((i, v) ∷ m) k j differ = elim (Bool-cases (i == k)) [
  | inl same ↦
      let other : (i == j) ≡ false = ground arith in rw (same, other) (get-remove m k j differ)
  | inr apart ↦ elim (Bool-cases (i == j)) [
    | inl here ↦ rw (apart, here) refl
    | inr there ↦ rw (apart, there) (get-remove m k j differ)
  ]
]

get-append_entry :
    (m : Entries) (k j : ℕ) (v : Bytes)
    → get_entry (m ++ (k, v) ∷ []) j
      ≡ elim (get_entry m j) [ some w ↦ some w | none ↦ if k == j then some v else none ]
unfolding get_entry
get-append_entry [] k j v = refl
get-append_entry ((i, w) ∷ m) k j v = elim (Bool-cases (i == j)) [
  | inl here ↦ rw here refl
  | inr there ↦ rw there (get-append_entry m k j v)
]

-- A text that starts with "http" is a URI.
abbrev pub sample : Http Bytes Bytes ℕ Bytes Entries
sample = record {
  eq_uri = eq_bytes;
  eq_method = eq_bytes;
  eq_name = λ a b. a == b;
  parse_uri = λ s. some s;
  has_scheme = λ s. starts_with s (codes "http");
  has_host = λ s. starts_with s (codes "http");
  parse_method = λ s. some s;
  method_str = λ s. s;
  get = codes "GET";
  post = codes "POST";
  options = codes "OPTIONS";
  parse_name = λ s. some 9;
  name_str = λ n. codes "name";
  to_str = λ v. some v;
  from_shared = λ s. some s;
  from_shared_unchecked = λ s. s;
  from_number = λ n. codes "1";
  empty = [];
  get_header = get_entry;
  insert_header = λ m k v. (k, v) ∷ remove_entries m k;
  append_header = λ m k v. m ++ (k, v) ∷ [];
  origin = 0;
  request_method = 1;
  request_headers = 2;
  allow_origin = 3;
  allow_methods = 4;
  allow_headers = 5;
  allow_credentials = 6;
  max_age = 7;
  allow = 8;
  any_value = codes "*";
  true_value = codes "true";
}

get-insert_entry :
    (m : Entries) (k j : ℕ) (v : Bytes)
    → get_entry ((k, v) ∷ remove_entries m k) j ≡ (if k == j then some v else get_entry m j)
unfolding get_entry
get-insert_entry m k j v = elim (Bool-cases (k == j)) [
  | inl here ↦ rw here refl
  | inr there ↦ rw there (get-remove m k j there)
]

pub sample-IsHttp : IsHttp sample
unfolding get_entry
sample-IsHttp = record {
  get-empty = λ j. refl;
  get-insert = get-insert_entry;
  get-append = get-append_entry;
  eq_self = λ k. (==_iff k k).1 refl;
  methods-origin = refl;
  origin-methods = refl;
  origin-headers = refl;
  origin-max_age = refl;
  origin-credentials = refl;
  credentials-methods = refl;
  credentials-headers = refl;
  credentials-max_age = refl;
  methods-headers = refl;
  methods-max_age = refl;
}
