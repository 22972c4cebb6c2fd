-- ===== src/Cluster/Sim/Ready.antt =====
-- crates/vyrm-cluster/src/sim.rs: the loop that delivers what can be delivered, and what is read from a cluster.
use vyrm.Prelude.{
  ℕ, zero, suc, ◌+◌, Bool, not, ◌&&◌, ◌||◌, List, [], ◌∷◌, ◌++◌, Option, none, some, ok, err, ◌>>=◌,
  ◌>>◌, if◌then◌else◌, option, ltb, leb, bytes_eq, codes, Map, find, contains_key, nat_order,
  bytes_order,
}
use vyrm.Core.Error.{Bytes}
use vyrm.Core.Digest.{sha256_hex}
use vyrm.Core.Encoding.{u64_bytes}
use vyrm.Cluster.Error.{Outcome, NodeId, unavailable, not_found}
use vyrm.Cluster.Placement.{
  ReplicaPlacement, PlacementPolicy, ShardPlacement, quorum, is_voter, placement_digest,
}
use vyrm.Cluster.Contract.{ShardReadStamp}
use vyrm.Cluster.Sim.{LogEntry, Message, ReplicaState, TraceEntry, Set, SimCluster, Answer}
use vyrm.Cluster.Sim.Operations.{is_up, can_deliver}
use vyrm.Cluster.Sim.Safety.{deliver, verify_safety, pairs}

-- `min` of the numbers of the messages that can be delivered.
abbrev pub least : ℕ → Option ℕ → ℕ
least id none = id
least id (some other) = if leb id other then id else other

unfoldable pub next_ready : SimCluster → List Message → Option ℕ
next_ready s [] = none
next_ready s (m ∷ ms) =
    let rest = next_ready s ms in
    if leb m.deliver_at s.now && can_deliver s m then some (least m.id rest) else rest

abbrev pub counted : Answer (Unit {0}) → (SimCluster → Option (Answer ℕ)) → Option (Answer ℕ)
counted (s, err e) k = some (s, err e)
counted (s, ok u) k = k s

-- The loop of `deliver_ready`, on fuel.
unfoldable pub deliver_loop : ℕ → ℕ → SimCluster → Option (Answer ℕ)
deliver_loop zero count s = none
deliver_loop (suc fuel) count s =
    option (next_ready s s.pending) (some (s, ok count))
      (λ id. counted (deliver id s) (deliver_loop fuel (suc count)))

unfoldable pub deliver_ready : ℕ → SimCluster → Option (Answer ℕ)
deliver_ready fuel s = deliver_loop fuel 0 s

-- `sort_unstable` of the numbers.
abbrev insert_id : ℕ → List ℕ → List ℕ
insert_id id [] = id ∷ []
insert_id id (x ∷ xs) = if leb id x then id ∷ x ∷ xs else x ∷ insert_id id xs

unfoldable pub ids_of : List Message → List ℕ
ids_of [] = []
ids_of (m ∷ ms) = insert_id m.id (ids_of ms)

unfoldable pub pending_message_ids : SimCluster → List ℕ
pending_message_ids s = ids_of s.pending

unfoldable pub is_acknowledged : SimCluster → ℕ → Bool
is_acknowledged s index = contains_key nat_order index s.acknowledged

unfoldable pub reachable : SimCluster → List ReplicaPlacement → ℕ
reachable s [] = 0
reachable s (r ∷ rs) =
    (if is_voter r
        && is_up (find bytes_order r.node s.replicas)
        && (bytes_eq r.node s.leader || not (contains_key pairs (s.leader, r.node) s.blocked))
      then 1
      else 0)
    + reachable s rs

abbrev pub reachable_voters : SimCluster → ℕ
reachable_voters s = reachable s s.placement.replicas

unfoldable pub state_bytes : Map ℕ LogEntry → ℕ → Bytes
state_bytes [] through = []
state_bytes ((i, e) ∷ log) through =
    if leb e.index through
    then u64_bytes e.term ++ u64_bytes e.index ++ e.command_digest ++ state_bytes log through
    else state_bytes log through

unfoldable pub state_digest : Map ℕ LogEntry → ℕ → Bytes
state_digest log through = sha256_hex (codes "vyrm.cluster.state.v1" ++ state_bytes log through)

unfoldable pub leader_stamp : SimCluster → Outcome ShardReadStamp
leader_stamp s = option (find bytes_order s.leader s.replicas) (err (not_found "node")) (λ leader.
    if not leader.online
      || not leader.disk_present
      || ltb (reachable_voters s) (quorum s.placement.policy)
    then err (unavailable "linearizable read requires an online leader connected to quorum")
    else ok (record {
      term = 1;
      commit_index = leader.commit_index;
      placement_epoch = s.placement.epoch;
      state_digest = state_digest leader.log leader.commit_index;
    }))

abbrev pub standard_three_zone_policy : PlacementPolicy
standard_three_zone_policy = record {
  voter_count = 3;
  minimum_voter_zones = 3;
  maximum_voters_per_zone = 1;
}

pub record SimEvidence : Type 0 where
  pub seed : ℕ
  pub now : ℕ
  pub leader : NodeId
  pub placement_digest : Bytes
  pub acknowledged : Map ℕ Bytes
  pub replica_logs : Map NodeId (List LogEntry)
  pub replica_commit_indexes : Map NodeId ℕ
  pub pending_message_ids : List ℕ
  pub disk_losses : Set NodeId
  pub trace : List TraceEntry

unfoldable pub values : Map ℕ LogEntry → List LogEntry
values [] = []
values ((i, e) ∷ log) = e ∷ values log

unfoldable pub replica_logs : Map NodeId ReplicaState → Map NodeId (List LogEntry)
replica_logs [] = []
replica_logs ((node, r) ∷ replicas) = (node, values r.log) ∷ replica_logs replicas

unfoldable pub commit_indexes : Map NodeId ReplicaState → Map NodeId ℕ
commit_indexes [] = []
commit_indexes ((node, r) ∷ replicas) = (node, r.commit_index) ∷ commit_indexes replicas

-- `evidence`, under the encoding of `serde_json::to_vec`.
unfoldable pub evidence : (ShardPlacement → Outcome Bytes) → SimCluster → Outcome SimEvidence
evidence to_json s = do
  verify_safety s
  digest ← placement_digest to_json s.placement
  ok (record {
    seed = s.seed;
    now = s.now;
    leader = s.leader;
    placement_digest = digest;
    acknowledged = s.acknowledged;
    replica_logs = replica_logs s.replicas;
    replica_commit_indexes = commit_indexes s.replicas;
    pending_message_ids = pending_message_ids s;
    disk_losses = s.disk_losses;
    trace = s.trace;
  })
