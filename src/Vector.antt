-- ===== src/Vector.antt =====
-- crates/vyrm-vector: the discrete parts of the vector index.
pub mod Filter
pub mod Tests
