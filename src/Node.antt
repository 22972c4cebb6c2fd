-- ===== src/Node.antt =====
-- crates/vyrm-node: the policy of the tools that a harness calls.
pub mod Policy
