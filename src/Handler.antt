-- ===== src/Handler.antt =====
-- tsukuyomi/src/handler.rs: `AllowedMethods`, `Handler` and `ModifyHandler`. An `IndexSet` is the
-- list of its items; a handler is the methods that it accepts and the future that it makes.
use tsukuyomi.Prelude.{
  ℕ, Bool, true, false, Option, none, some, List, [], ◌∷◌, ◌++◌, Bytes, ◌==◌, leb, ◌||◌, ◌&&◌,
  codes, set_contains, set_extend, join_sep, if◌then◌else◌, Result, ok, err, ◌>>=◌, collect,
  or_fail, split_comma, trim,
}
use tsukuyomi.Http.{Http}
use tsukuyomi.Future.{TryFuture}
pub mod Modifiers
pub mod Laws
mod Tests

abbrev pub AllowedMethods : Type 0 → Type 0
AllowedMethods Method = List Method

module _ {Uri Method Name Value Headers : Type 0} (h : Http Uri Method Name Value Headers) where
  -- `FromIterator` and `Extend`, and `From<Method>`
  unfoldable pub from_iter : List Method → AllowedMethods Method
  from_iter methods = set_extend h.eq_method [] methods

  unfoldable pub extend_methods : AllowedMethods Method → List Method → AllowedMethods Method
  extend_methods allowed methods = set_extend h.eq_method allowed methods

  abbrev pub from_method : Method → AllowedMethods Method
  from_method method = method ∷ []

  -- `AllowedMethods::get()`
  abbrev pub get_only : AllowedMethods Method
  get_only = from_method h.get

  -- `AllowedMethods::contains`
  abbrev pub accepts_method : AllowedMethods Method → Method → Bool
  accepts_method allowed method = set_contains h.eq_method allowed method

  -- `AllowedMethods::to_header_value`
  unfoldable pub to_header_value : AllowedMethods Method → Value
  to_header_value allowed =
      h.from_shared_unchecked (join_sep (codes ", ") h.method_str false allowed)

  module _ {M E : Type 0} where
    -- `TryFrom<Vec<M>>`
    unfoldable pub try_from_vec : (M → Result E Method) → List M → Result E (AllowedMethods Method)
    unfolding from_iter
    try_from_vec try_from methods = collect try_from methods >>= λ ms. ok (from_iter ms)

  -- `Method::try_from(s.trim())`
  abbrev pub method_from : Bytes → Result (Unit {0}) Method
  method_from s = or_fail tt (h.parse_method (trim s))

  -- `TryFrom<&str>`; a method that is not parsed is an error.
  unfoldable pub try_from_str : Bytes → Option (AllowedMethods Method)
  unfolding from_iter split_comma
  try_from_str s = elim (collect method_from (split_comma s)) [
    | ok ms ↦ some (from_iter ms)
    | err e ↦ none
  ]

-- `poll` is the handle's `poll_ready`, which reads the request `R`.
pub record Handler (Method R S I E A : Type 0) : Type 0 where
  pub allowed_methods : Option (AllowedMethods Method)
  pub handle : S
  pub poll : R → TryFuture S I E A

-- `ModifyHandler::modify`: what a handler is turned into.
abbrev pub ModifyHandler : Type 0 → Type 0 → Type 0
ModifyHandler H K = H → K

module _ {H : Type 0} where
  -- `ModifyHandler<H> for ()`
  abbrev pub modify_none : ModifyHandler H H
  modify_none handler = handler

module _ {H K L : Type 0} where
  -- `ModifyHandler<H> for Chain<I, O>`
  unfoldable pub modify_chain : ModifyHandler H K → ModifyHandler K L → ModifyHandler H L
  modify_chain left right handler = right (left handler)

module _ {Method R S I E A : Type 0} where
  -- `handler(handle_fn, allowed_methods)`
  abbrev pub handler :
      (R → TryFuture S I E A) → S → Option (AllowedMethods Method) → Handler Method R S I E A
  handler poll handle allowed = record { allowed_methods = allowed; handle = handle; poll = poll }
