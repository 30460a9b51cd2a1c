-- ===== src/App.antt =====
-- tsukuyomi/src/app.rs and tsukuyomi/src/app/scope.rs: the scopes of an application.
pub mod Scope
pub mod Handler
pub mod ScopeLaws
pub mod HandlerLaws
pub mod Infer
pub mod Config
pub mod SetLaws
pub mod Declared
pub mod RouteLaws
pub mod ConfigLaws
pub mod Find
pub mod FindLaws
pub mod AnswerLaws
pub mod Service
pub mod ServiceLaws
pub mod ReplyLaws
pub mod Boxed
pub mod BoxedLaws
mod Tests
mod ConfigTests
