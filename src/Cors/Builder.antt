-- ===== src/Cors/Builder.antt =====
-- tsukuyomi-cors/src/lib.rs: `Builder`, and `Inner`, which it builds. A `HashSet` is the list of
-- its items, each once; a conversion by `HttpTryFrom` is an argument.
use tsukuyomi.Prelude.{
  ℕ, Bool, false, Option, none, some, List, [], ◌∷◌, Bytes, set_insert, set_extend, join_sep,
  Result, ok, ◌>>=◌, collect,
}
use tsukuyomi.Http.{Http}

pub record Duration : Type 0 where
  pub as_secs : ℕ
  pub subsec_nanos : ℕ

pub record Builder (Uri Method Name : Type 0) : Type 0 where
  pub origins : Option (List Uri)
  pub methods : Option (List Method)
  pub headers : Option (List Name)
  pub max_age : Option Duration
  pub allow_credentials : Bool

pub record Inner (Uri Method Name Value : Type 0) : Type 0 where
  pub origins : Option (List Uri)
  pub methods : List Method
  pub methods_value : Value
  pub headers : Option (List Name)
  pub headers_value : Option Value
  pub max_age : Option Duration
  pub allow_credentials : Bool

-- `get_or_insert_with(Default::default)`
abbrev pub or_default {ℓ} : {A : Type ℓ} → Option (List A) → List A
or_default none = []
or_default (some xs) = xs

abbrev pub comma : Bytes
comma = b',' ∷ []

module _ {Uri Method Name : Type 0} where
  abbrev pub new : Builder Uri Method Name
  new = record {
    origins = none;
    methods = none;
    headers = none;
    max_age = none;
    allow_credentials = false;
  }

  unfoldable pub allow_credentials : Builder Uri Method Name → Bool → Builder Uri Method Name
  allow_credentials b enabled = record b { allow_credentials = enabled }

  unfoldable pub max_age : Builder Uri Method Name → Duration → Builder Uri Method Name
  max_age b d = record b { max_age = some d }

module _ {Uri Method Name Value Headers : Type 0} (h : Http Uri Method Name Value Headers) where
  module _ {E U : Type 0} where
    unfoldable pub allow_origin :
        (U → Result E Uri) → Builder Uri Method Name → U → Result E (Builder Uri Method Name)
    allow_origin try_from b u = try_from u >>= λ o.
        ok (record b { origins = some (set_insert h.eq_uri (or_default b.origins) o) })

    unfoldable pub allow_origins :
        (U → Result E Uri) → Builder Uri Method Name → List U → Result E (Builder Uri Method Name)
    allow_origins try_from b us = collect try_from us >>= λ os.
        ok (record b { origins = some (set_extend h.eq_uri (or_default b.origins) os) })

    unfoldable pub allow_method :
        (U → Result E Method) → Builder Uri Method Name → U → Result E (Builder Uri Method Name)
    allow_method try_from b u = try_from u >>= λ m.
        ok (record b { methods = some (set_insert h.eq_method (or_default b.methods) m) })

    unfoldable pub allow_methods :
        (U → Result E Method)
        → Builder Uri Method Name
        → List U
        → Result E (Builder Uri Method Name)
    allow_methods try_from b us = collect try_from us >>= λ ms.
        ok (record b { methods = some (set_extend h.eq_method (or_default b.methods) ms) })

    unfoldable pub allow_header :
        (U → Result E Name) → Builder Uri Method Name → U → Result E (Builder Uri Method Name)
    allow_header try_from b u = try_from u >>= λ n.
        ok (record b { headers = some (set_insert h.eq_name (or_default b.headers) n) })

    unfoldable pub allow_headers :
        (U → Result E Name) → Builder Uri Method Name → List U → Result E (Builder Uri Method Name)
    allow_headers try_from b us = collect try_from us >>= λ ns.
        ok (record b { headers = some (set_extend h.eq_name (or_default b.headers) ns) })

  -- `self.methods.unwrap_or_else(..)`
  unfoldable pub methods_or_default : Option (List Method) → List Method
  methods_or_default none = set_extend h.eq_method [] (h.get ∷ h.post ∷ h.options ∷ [])
  methods_or_default (some ms) = ms

  -- `self.headers.as_ref().map(..)`; `none` outside is the failed `expect`.
  unfoldable pub headers_value_of : Option (List Name) → Option (Option Value)
  headers_value_of none = some none
  headers_value_of (some ns) = elim (h.from_shared (join_sep comma h.name_str false ns)) [
    | none ↦ none
    | some v ↦ some (some v)
  ]

  -- `none` is a failed `expect`.
  unfoldable pub build : Builder Uri Method Name → Option (Inner Uri Method Name Value)
  unfolding methods_or_default headers_value_of
  build b =
      let methods = methods_or_default b.methods in
      elim (h.from_shared (join_sep comma h.method_str false methods)) [
        | none ↦ none
        | some methods_value ↦ elim (headers_value_of b.headers) [
          | none ↦ none
          | some headers_value ↦ some (record {
            origins = b.origins;
            methods = methods;
            methods_value = methods_value;
            headers = b.headers;
            headers_value = headers_value;
            max_age = b.max_age;
            allow_credentials = b.allow_credentials;
          })
        ]
      ]

module _ {Uri Method Name Value Headers : Type 0} (h : Http Uri Method Name Value Headers) where
  -- `CORS::new`
  unfoldable pub new_cors : Option (Inner Uri Method Name Value)
  unfolding build
  new_cors = build h new
