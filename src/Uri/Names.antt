-- ===== src/Uri/Names.antt =====
-- tsukuyomi/src/uri.rs: `CaptureNames`. An `IndexSet<String>` is the list of its names in order.
use tsukuyomi.Prelude.{
  ℕ, suc, Bool, true, false, Option, none, some, List, [], ◌∷◌, ◌++◌, ◌||◌, Bytes, ◌==◌, any,
  eq_bytes, if◌then◌else◌, Result, ok, err, ◌>>=◌,
}

-- The `failure::bail!` messages; `panic` is `split_at` out of bounds.
pub data UriError : Type 0 where
  not_ascii no_leading_slash : UriError
  wildcard_already_set : UriError
  empty_segment invalid_character : UriError
  unknown_kind : ℕ → UriError
  empty_name duplicated_name : UriError
  panic : UriError

pub record CaptureNames : Type 0 where
  pub params : List Bytes
  pub has_wildcard : Bool

abbrev pub default : CaptureNames
default = record { params = []; has_wildcard = false }

abbrev pub contains : List Bytes → Bytes → Bool
contains names name = any (λ n. eq_bytes n name) names

abbrev pub is_nil : Bytes → Bool
is_nil [] = true
is_nil (c ∷ s) = false

abbrev pub is_kind : ℕ → Bool
is_kind c = c == b':' || c == b'*'

-- The part of `push` after `split_at(1)`.
unfoldable pub push_name : CaptureNames → ℕ → Bytes → Result UriError CaptureNames
push_name names kind name =
    if is_kind kind
    then (if is_nil name
        then err empty_name
        else if contains names.params name
        then err duplicated_name
        else ok (record {
          params = names.params ++ name ∷ [];
          has_wildcard = if kind == b'*' then true else names.has_wildcard;
        }))
    else err (unknown_kind kind)

-- On an error the names are as before.
unfoldable pub push : CaptureNames → Bytes → Result UriError CaptureNames
unfolding push_name
push names segment =
    if names.has_wildcard
    then err wildcard_already_set
    else elim segment [ [] ↦ err panic | kind ∷ name ↦ push_name names kind name ]

unfoldable pub extend : CaptureNames → List Bytes → Result UriError CaptureNames
unfolding push
extend names [] = ok names
extend names (n ∷ ns) = push names n >>= λ names'. extend names' ns

-- `IndexSet::get_full(name)?.0`
unfoldable pub position : List Bytes → Bytes → Option ℕ
position [] name = none
position (n ∷ ns) name =
    if eq_bytes n name
    then some 0
    else elim (position ns name) [ none ↦ none | some i ↦ some (suc i) ]
