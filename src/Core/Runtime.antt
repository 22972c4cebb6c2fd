-- ===== src/Core/Runtime.antt =====
-- crates/vyrm-core/src/runtime.rs: the values and the graph of a runtime scope.
pub mod Value
pub mod Graph
pub mod Equality
pub mod Tests
