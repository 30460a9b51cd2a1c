-- ===== src/Recognizer.antt =====
-- tsukuyomi/src/app/recognizer.rs: the radix tree of routes. Children hold the tree's data, the
-- walks over it and the proofs.
pub mod Tree
pub mod Inserted
pub mod Routes
pub mod Wildcard
pub mod Insert
pub mod WildcardLaws
pub mod Growth
pub mod ChildLaws
pub mod SiblingLaws
pub mod AddLaws
pub mod RoundLaws
pub mod Exact
pub mod TreeLaws
pub mod Safety
pub mod AddSafety
pub mod Members
pub mod Matching
pub mod RouteMembers
pub mod RecognizeLaws
pub mod Complete
pub mod Erasure
pub mod Built
pub mod Routing
pub mod Recognize
pub mod Soundness
pub mod Total
pub mod Table
mod Tests
