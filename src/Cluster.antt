-- ===== src/Cluster.antt =====
-- crates/vyrm-cluster: the contract of a replicated cluster, and the fault simulator of one shard.
pub mod Error
pub mod Placement
pub mod Contract
pub mod Sim
pub mod Tests
