-- ===== src/Extractor.antt =====
-- tsukuyomi/src/extractor.rs: `Extractor` and the primitives. An extractor is the future that it
-- makes; an output is what stands in the tuple.
use tsukuyomi.Prelude.{ℕ, Option, none, some, Bytes, Result, ok, err, ◌>>=◌, or_fail}
use tsukuyomi.Input.{Request}
use tsukuyomi.Input.Cookies.{bad_request_status}
use tsukuyomi.Future.{Async, ready, not_ready, Poll, TryFuture, PartialFuture, map_err}
pub mod Ext
pub mod Race
pub mod Laws
mod Tests

-- `extract` is the state of the future that `Extractor::extract` makes.
pub record Extractor (S I E A : Type 0) : Type 0 where
  pub extract : S
  pub poll : TryFuture S I E A

-- `Never`
pub data Never : Type 0 where

module _ {I : Type 0} where
  -- `unit::Unit`
  unfoldable pub poll_unit : TryFuture (Unit {0}) I Never (Unit {0})
  poll_unit s i = (s, i, ok (ready tt))

  -- `Extractor for ()`
  abbrev pub unit : Extractor (Unit {0}) I Never (Unit {0})
  unit = record { extract = tt; poll = poll_unit }

module _ {I E A : Type 0} where
  -- `ready::Ready`, whose state is the function, which it keeps
  unfoldable pub poll_function : TryFuture (I → I × Result E A) I E A
  poll_function f i = let (i', result) = f i in (f, i', (result >>= λ a. ok (ready a)))

  -- `ready(f)`
  abbrev pub from_function : (I → I × Result E A) → Extractor (I → I × Result E A) I E A
  from_function f = record { extract = f; poll = poll_function }

module _ {I A : Type 0} where
  -- `value::Value`: the value, until it is taken
  unfoldable pub poll_value : PartialFuture (Option A) I Never A
  poll_value none i = none
  poll_value (some a) i = some (none, i, ok (ready a))

abbrev pub internal_server_error_status : ℕ
internal_server_error_status = 500

module _ {I Method Headers : Type 0} (request : Request Method Headers) where
  -- `method()`
  unfoldable pub extract_method : I → I × Result Never Method
  extract_method i = (i, ok request.method)

module _ {I A : Type 0} where
  -- `query()`, from the query of the URI, with the parser of `serde_urlencoded`
  unfoldable pub extract_query : Option Bytes → (Bytes → Option A) → I → I × Result ℕ A
  extract_query query from_str i =
      (i, (or_fail bad_request_status query >>= λ s. or_fail bad_request_status (from_str s)))

  -- `extension()`, from the extension of that type
  unfoldable pub extract_extension : Option A → I → I × Result ℕ A
  extract_extension extension i = (i, or_fail internal_server_error_status extension)
