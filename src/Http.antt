-- ===== src/Http.antt =====
-- What the framework uses of the `http` crate, as an interface: URIs, methods, header
-- names, header values and header maps, with the documented laws of the header map.
use tsukuyomi.Prelude.{ℕ, ◌≡◌, Bool, true, false, Option, none, some, Bytes, if◌then◌else◌}
pub mod Sample

pub record Http (Uri Method Name Value Headers : Type 0) : Type 0 where
  pub eq_uri : Uri → Uri → Bool
  pub eq_method : Method → Method → Bool
  pub eq_name : Name → Name → Bool
  -- `Uri::from_str`, `Uri::scheme_part().is_some()` and `Uri::host().is_some()`
  pub parse_uri : Bytes → Option Uri
  pub has_scheme : Uri → Bool
  pub has_host : Uri → Bool
  -- `Method::from_str`, `Method::as_str`, and the methods that the code names
  pub parse_method : Bytes → Option Method
  pub method_str : Method → Bytes
  pub get : Method
  pub post : Method
  pub options : Method
  -- `HeaderName::from_str` and `HeaderName::as_str`
  pub parse_name : Bytes → Option Name
  pub name_str : Name → Bytes
  -- `HeaderValue::to_str`, `HeaderValue::from_shared`, `HeaderValue::from_shared_unchecked` and `From<u64>`
  pub to_str : Value → Option Bytes
  pub from_shared : Bytes → Option Value
  pub from_shared_unchecked : Bytes → Value
  pub from_number : ℕ → Value
  -- `HeaderMap`: `get` gives the first value of a name.
  pub empty : Headers
  pub get_header : Headers → Name → Option Value
  pub insert_header : Headers → Name → Value → Headers
  pub append_header : Headers → Name → Value → Headers
  pub origin : Name
  pub request_method : Name
  pub request_headers : Name
  pub allow_origin : Name
  pub allow_methods : Name
  pub allow_headers : Name
  pub allow_credentials : Name
  pub max_age : Name
  -- `HeaderValue::from_static` of "*" and "true"
  pub allow : Name
  pub any_value : Value
  pub true_value : Value

module _ {Uri Method Name Value Headers : Type 0} (h : Http Uri Method Name Value Headers) where
  -- The documented behaviour of `HeaderMap`, and that the names of the response are different.
  pub record IsHttp : Type 0 where
    pub get-empty : (j : Name) → h.get_header h.empty j ≡ none
    pub get-insert :
        (m : Headers) (k j : Name) (v : Value)
        → h.get_header (h.insert_header m k v) j
          ≡ (if h.eq_name k j then some v else h.get_header m j)
    pub get-append :
        (m : Headers) (k j : Name) (v : Value)
        → h.get_header (h.append_header m k v) j ≡ elim (h.get_header m j) [
          | some w ↦ some w
          | none ↦ if h.eq_name k j then some v else none
        ]
    pub eq_self : (k : Name) → h.eq_name k k ≡ true
    pub methods-origin : h.eq_name h.allow_origin h.allow_methods ≡ false
    pub origin-methods : h.eq_name h.allow_methods h.allow_origin ≡ false
    pub origin-headers : h.eq_name h.allow_headers h.allow_origin ≡ false
    pub origin-max_age : h.eq_name h.max_age h.allow_origin ≡ false
    pub origin-credentials : h.eq_name h.allow_origin h.allow_credentials ≡ false
    pub credentials-methods : h.eq_name h.allow_methods h.allow_credentials ≡ false
    pub credentials-headers : h.eq_name h.allow_headers h.allow_credentials ≡ false
    pub credentials-max_age : h.eq_name h.max_age h.allow_credentials ≡ false
    pub methods-headers : h.eq_name h.allow_headers h.allow_methods ≡ false
    pub methods-max_age : h.eq_name h.max_age h.allow_methods ≡ false
