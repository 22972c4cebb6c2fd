-- ===== src/Cluster/Placement.antt =====
-- crates/vyrm-cluster/src/contract.rs: where the replicas of a shard stand.
use vyrm.Prelude.{
  ℕ, ◌+◌, ◌-◌, ◌/◌, ◌%◌, Bool, true, false, not, ◌||◌, List, [], ◌∷◌, none, some, ok, ◌>>=◌, ◌>>◌,
  fail_if, if◌then◌else◌, ltb, ◌==◌, length, lex_lt, Map, find, put, bytes_order,
}
use vyrm.Core.Error.{Bytes}
use vyrm.Core.Digest.{sha256_hex}
use vyrm.Cluster.Error.{Outcome, NodeId, ZoneId, ClusterId, ShardId, invalid}

abbrev pub cluster_contract_version : ℕ
cluster_contract_version = 1

pub data ReplicaRole : Type 0 where
  voter learner : ReplicaRole

pub record ReplicaPlacement : Type 0 where
  pub node : NodeId
  pub zone : ZoneId
  pub role : ReplicaRole

pub record PlacementPolicy : Type 0 where
  pub voter_count : ℕ
  pub minimum_voter_zones : ℕ
  pub maximum_voters_per_zone : ℕ

-- `PlacementPolicy::validate`
unfoldable pub validate_policy : PlacementPolicy → Outcome (Unit {0})
validate_policy p = do
  fail_if (ltb p.voter_count 3 || p.voter_count % 2 == 0)
      (invalid "voter_count must be an odd number of at least three")
  fail_if (ltb p.minimum_voter_zones 2 || ltb p.voter_count p.minimum_voter_zones)
      (invalid "minimum_voter_zones must be in 2..=voter_count")
  fail_if (p.maximum_voters_per_zone == 0) (invalid "maximum_voters_per_zone must be non-zero")

unfoldable pub quorum : PlacementPolicy → ℕ
quorum p = p.voter_count / 2 + 1

unfoldable pub tolerated_failures : PlacementPolicy → ℕ
tolerated_failures p = (p.voter_count - 1) / 2

pub record ShardPlacement : Type 0 where
  pub contract_version : ℕ
  pub cluster : ClusterId
  pub shard : ShardId
  pub epoch : ℕ
  pub policy : PlacementPolicy
  pub replicas : List ReplicaPlacement

abbrev pub is_voter : ReplicaPlacement → Bool
is_voter r = elim r.role [ voter ↦ true | learner ↦ false ]

unfoldable pub voters_of : List ReplicaPlacement → List ReplicaPlacement
voters_of [] = []
voters_of (r ∷ rs) = if is_voter r then r ∷ voters_of rs else voters_of rs

-- `ShardPlacement::voters`
abbrev pub voters : ShardPlacement → List ReplicaPlacement
voters p = voters_of p.replicas

-- Neighbours of which the first is not below the second.
unfoldable pub out_of_order : List ReplicaPlacement → Bool
out_of_order [] = false
out_of_order (a ∷ []) = false
out_of_order (a ∷ b ∷ rs) = not (lex_lt a.node b.node) || out_of_order (b ∷ rs)

-- The number of voters of each zone.
unfoldable pub per_zone : List ReplicaPlacement → Map ZoneId ℕ → Map ZoneId ℕ
per_zone [] counts = counts
per_zone (r ∷ rs) counts = per_zone rs (
    put bytes_order r.zone (elim (find bytes_order r.zone counts) [ none ↦ 1 | some n ↦ n + 1 ])
      counts)

abbrev any_above : ℕ → Map ZoneId ℕ → Bool
any_above limit [] = false
any_above limit ((zone, n) ∷ counts) = ltb limit n || any_above limit counts

-- `ShardPlacement::validate`. The zones of the voters are the keys of their counts.
unfoldable pub validate_placement : ShardPlacement → Outcome (Unit {0})
validate_placement p = do
  fail_if (not (p.contract_version == cluster_contract_version) || p.epoch == 0)
      (invalid "unsupported contract version or zero placement epoch")
  validate_policy p.policy
  fail_if (out_of_order p.replicas) (invalid "replicas must be strictly ordered by unique node id")
  fail_if (not (length (voters p) == p.policy.voter_count))
      (invalid "placement has not as many voters as its policy requires")
  fail_if (ltb (length (per_zone (voters p) [])) p.policy.minimum_voter_zones)
      (invalid "placement does not satisfy voter zone diversity")
  fail_if (any_above p.policy.maximum_voters_per_zone (per_zone (voters p) []))
      (invalid "placement exceeds maximum voters per zone")

-- `ShardPlacement::digest`, under the encoding of `serde_json::to_vec`.
unfoldable pub placement_digest : (ShardPlacement → Outcome Bytes) → ShardPlacement → Outcome Bytes
placement_digest to_json p = do validate_placement p; bytes ← to_json p; ok (sha256_hex bytes)
