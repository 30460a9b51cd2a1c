-- ===== src/Uri.antt =====
-- tsukuyomi/src/uri.rs: the URI of a route.
pub mod Names
pub mod Parse
pub mod Join
pub mod ParseLaws
pub mod NameLaws
pub mod JoinLaws
mod Tests
