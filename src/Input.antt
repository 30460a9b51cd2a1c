-- ===== src/Input.antt =====
-- tsukuyomi/src/input.rs: `Input`. What it refers to by `&` is the request, which the model passes
-- beside it; the record holds what it refers to by `&mut`: the headers of the response, and the
-- rest (cookies and local data), which the modelled code only passes on.
use tsukuyomi.Prelude.{ℕ, Option}
pub mod Params
pub mod ParamsLaws
pub mod Cookies
mod Tests

-- The parts of `http::Request` that the modelled code reads.
pub record Request (Method Headers : Type 0) : Type 0 where
  pub method : Method
  pub headers : Headers

pub record Input (Headers Rest : Type 0) : Type 0 where
  pub response_headers : Option Headers
  pub rest : Rest

-- `Response<()>`
pub record Response (Headers : Type 0) : Type 0 where
  pub status : ℕ
  pub headers : Headers
