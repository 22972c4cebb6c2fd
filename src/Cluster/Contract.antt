-- ===== src/Cluster/Contract.antt =====
-- crates/vyrm-cluster/src/contract.rs: read stamps, snapshot vectors, routes, transfers and reshards.
pub mod Vectors
use vyrm.Prelude.{
  ℕ, suc, ◌+◌, max, ◌≡◌, Bool, true, false, not, ◌&&◌, ◌||◌, List, [], ◌∷◌, Option, none, some,
  Result, ok, err, ◌>>=◌, ◌>>◌, fail_if, if◌then◌else◌, ltb, leb, ◌==◌, length, all, lex_lt,
  bytes_eq, Map, find, contains_key, put, nat_order, bytes_order,
}
use vyrm.Core.Error.{Bytes}
use vyrm.Cluster.Error.{ClusterError, Outcome, NodeId, ShardId, invalid, denied}
use vyrm.Cluster.Placement.{ShardPlacement, validate_placement, cluster_contract_version}

abbrev is_lower_hex : ℕ → Bool
is_lower_hex b = leb 48 b && leb b 57 || leb 97 b && leb b 102

unfoldable pub is_sha256 : Bytes → Bool
is_sha256 value = length value == 64 && all is_lower_hex value

pub data ReplicaHealth : Type 0 where
  active suspect recovering lost : ReplicaHealth

pub data ReadConsistency : Type 0 where
  linearizable : ReadConsistency
  bounded_stale : ℕ → ReadConsistency
  exact_snapshot : ReadConsistency

pub record ShardReadStamp : Type 0 where
  pub term : ℕ
  pub commit_index : ℕ
  pub placement_epoch : ℕ
  pub state_digest : Bytes

-- `ShardReadStamp::validate`
unfoldable pub validate_stamp : ShardReadStamp → Outcome (Unit {0})
validate_stamp s =
    fail_if (s.term == 0 || s.placement_epoch == 0 || not (is_sha256 s.state_digest))
      (invalid "shard stamp requires non-zero term/epoch and lowercase SHA-256 state digest")

pub data VectorRelation : Type 0 where
  equal dominates dominated concurrent : VectorRelation

pub record SnapshotVector : Type 0 where
  pub contract_version : ℕ
  pub scope : Bytes
  pub shards : Map ShardId ShardReadStamp

unfoldable pub validate_stamps : Map ShardId ShardReadStamp → Outcome (Unit {0})
validate_stamps [] = ok tt
validate_stamps ((shard, stamp) ∷ shards) = do validate_stamp stamp; validate_stamps shards

-- `SnapshotVector::validate`
unfoldable pub validate_vector : SnapshotVector → Outcome (Unit {0})
validate_vector v = do
  fail_if
      (not (v.contract_version == cluster_contract_version)
        || length v.scope == 0
        || ltb 256 (length v.scope)
        || length v.shards == 0)
      (invalid "snapshot vector requires v1, a bounded scope, and at least one shard")
  validate_stamps v.shards

unfoldable pub same_keys : Map ShardId ShardReadStamp → Map ShardId ShardReadStamp → Bool
same_keys [] [] = true
same_keys ((i, s) ∷ l) ((j, t) ∷ m) = i == j && same_keys l m
same_keys [] (e ∷ m) = false
same_keys (e ∷ l) [] = false

-- The comparison of one shard: whether less, and whether greater, was seen.
unfoldable pub compare_stamps :
    ShardReadStamp → ShardReadStamp → Bool × Bool → Outcome (Bool × Bool)
compare_stamps left right (saw_less, saw_greater) =
    if not (left.placement_epoch == right.placement_epoch)
    then err (invalid "snapshot vectors cross a placement epoch")
    else if ltb left.commit_index right.commit_index
    then ok (true, saw_greater)
    else if ltb right.commit_index left.commit_index
    then ok (saw_less, true)
    else if not (bytes_eq left.state_digest right.state_digest) || not (left.term == right.term)
    then err (denied "equal shard cursors disagree on term or state digest")
    else ok (saw_less, saw_greater)

-- The loop over the shards of the left vector. `other.shards[shard]` panics on an absent shard, which
-- the test of the keys in front rules out; the model has an error there.
unfoldable pub relation_loop :
    Map ShardId ShardReadStamp → Map ShardId ShardReadStamp → Bool × Bool → Outcome (Bool × Bool)
relation_loop [] other saw = ok saw
relation_loop ((shard, left) ∷ shards) other saw = do
  saw' ← elim (find nat_order shard other) [
    | none ↦ err (invalid "panic")
    | some right ↦ compare_stamps left right saw
  ]
  relation_loop shards other saw'

abbrev pub relation_of : Bool × Bool → VectorRelation
relation_of (false, false) = equal
relation_of (false, true) = dominates
relation_of (true, false) = dominated
relation_of (true, true) = concurrent

-- `SnapshotVector::relation`
unfoldable pub relation : SnapshotVector → SnapshotVector → Outcome VectorRelation
relation v w = do
  validate_vector v
  validate_vector w
  fail_if (not (bytes_eq v.scope w.scope) || not (same_keys v.shards w.shards))
      (invalid "snapshot vectors must cover the same scope and shard set")
  saw ← relation_loop v.shards w.shards (false, false)
  ok (relation_of saw)

pub data TransactionScope : Type 0 where
  single_shard : ShardId → TransactionScope
  cross_shard : List ShardId → TransactionScope

unfoldable pub enforce_m7 : TransactionScope → Outcome ShardId
enforce_m7 (single_shard shard) = ok shard
enforce_m7 (cross_shard shards) =
    err (denied "cross-shard writes require durable intents and a verified commit protocol")

pub record RouteEvidence : Type 0 where
  pub contract_version : ℕ
  pub shard : ShardId
  pub placement_epoch : ℕ
  pub requested_consistency : ReadConsistency
  pub selected : List NodeId
  pub replica_health : Map NodeId ReplicaHealth
  pub observed : Option ShardReadStamp
  pub allowed : Bool
  pub reason : Bytes

unfoldable pub unsorted : List NodeId → Bool
unsorted [] = false
unsorted (a ∷ []) = false
unsorted (a ∷ b ∷ nodes) = not (lex_lt a b) || unsorted (b ∷ nodes)

abbrev pub is_active : Option ReplicaHealth → Bool
is_active (some active) = true
is_active _ = false

abbrev pub is_some {ℓ} : {A : Type ℓ} → Option A → Bool
is_some none = false
is_some (some a) = true

-- `RouteEvidence::validate`
unfoldable pub validate_route : RouteEvidence → Outcome (Unit {0})
validate_route r = do
  fail_if
      (not (r.contract_version == cluster_contract_version)
        || r.placement_epoch == 0
        || length r.reason == 0
        || unsorted r.selected)
      (invalid "malformed route evidence")
  fail_if (r.allowed && (length r.selected == 0 || not (is_some r.observed)))
      (invalid "an allowed route requires selected replicas and an observed stamp")
  fail_if (not r.allowed && is_some r.observed)
      (invalid "a denied route cannot claim an observed snapshot")
  fail_if
      (r.allowed
        && not (all (λ node. is_active (find bytes_order node r.replica_health)) r.selected))
      (invalid "an allowed route may select only explicitly active replicas")
  elim r.observed [ none ↦ ok tt | some stamp ↦ validate_stamp stamp ]

pub record ReplicaTransferPlan : Type 0 where
  pub contract_version : ℕ
  pub shard : ShardId
  pub placement_epoch : ℕ
  pub source : NodeId
  pub target : NodeId
  pub grounded_snapshot : ShardReadStamp
  pub wal_from_exclusive : ℕ
  pub wal_through_inclusive : ℕ
  pub artifact_digests : List Bytes

-- `ReplicaTransferPlan::validate`
unfoldable pub validate_transfer : ReplicaTransferPlan → Outcome (Unit {0})
validate_transfer p = do
  validate_stamp p.grounded_snapshot
  fail_if
      (not (p.contract_version == cluster_contract_version)
        || not (p.placement_epoch == p.grounded_snapshot.placement_epoch)
        || bytes_eq p.source p.target
        || not (p.wal_from_exclusive == p.grounded_snapshot.commit_index)
        || ltb p.wal_through_inclusive p.wal_from_exclusive
        || not (all is_sha256 p.artifact_digests))
      (invalid "invalid snapshot-plus-WAL replica transfer plan")

pub data ReshardState : Type 0 where
  planned copying caught_up cutover retired : ReshardState

pub record ReshardPlan : Type 0 where
  pub contract_version : ℕ
  pub operation_id : Bytes
  pub metadata_index : ℕ
  pub source_shards : Map ShardId (Unit {0})
  pub targets : List ShardPlacement
  pub cutover_vector : SnapshotVector
  pub reshard_state : ReshardState

unfoldable pub covers : Map ShardId ShardReadStamp → Map ShardId (Unit {0}) → Bool
covers [] [] = true
covers ((i, s) ∷ l) ((j, t) ∷ m) = i == j && covers l m
covers [] (e ∷ m) = false
covers (e ∷ l) [] = false

unfoldable pub source_epoch : Map ShardId ShardReadStamp → ℕ
source_epoch [] = 0
source_epoch ((shard, stamp) ∷ shards) = max stamp.placement_epoch (source_epoch shards)

unfoldable pub validate_targets :
    ℕ → Map ShardId (Unit {0}) → List ShardPlacement → Map ShardId (Unit {0}) → Outcome (Unit {0})
validate_targets epoch sources [] targets = ok tt
validate_targets epoch sources (t ∷ ts) targets = do
  validate_placement t
  fail_if
      (leb t.epoch epoch
        || contains_key nat_order t.shard targets
        || contains_key nat_order t.shard sources)
      (invalid "reshard targets require a newer epoch and identities unique from sources")
  validate_targets epoch sources ts (put nat_order t.shard tt targets)

-- `ReshardPlan::validate`
unfoldable pub validate_reshard : ReshardPlan → Outcome (Unit {0})
validate_reshard p = do
  fail_if
      (not (p.contract_version == cluster_contract_version)
        || length p.operation_id == 0
        || ltb 128 (length p.operation_id)
        || p.metadata_index == 0
        || length p.source_shards == 0
        || length p.targets == 0)
      (invalid "malformed reshard plan")
  validate_vector p.cutover_vector
  fail_if (not (covers p.cutover_vector.shards p.source_shards))
      (invalid "reshard cutover vector must cover exactly the source shards")
  validate_targets (source_epoch p.cutover_vector.shards) p.source_shards p.targets []
