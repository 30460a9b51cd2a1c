-- ===== src/Cors.antt =====
-- tsukuyomi-cors/src/lib.rs: the checks of cross-origin requests.
pub mod Builder
pub mod Check
pub mod Handle
pub mod OriginLaws
pub mod BuilderLaws
pub mod ResponseLaws
pub mod RequestLaws
pub mod HandleLaws
mod Tests
