-- ===== src/Core.antt =====
-- crates/vyrm-core: the kernel of bi-temporal claims.
pub mod Error
pub mod Ident
pub mod Key
pub mod Digest
pub mod Encoding
pub mod Claim
pub mod Temporal
pub mod Reference
pub mod Recall
pub mod Reasoning
pub mod Runtime
pub mod Tests
