-- ===== src/Cluster/Sim.antt =====
-- crates/vyrm-cluster/src/sim.rs: the quorum simulator of one shard. An operation returns the cluster
-- that it leaves with its result, since an operation that fails may have changed the cluster. The
-- lines of the trace are values of `TraceEntry`.
pub mod Operations
pub mod Safety
pub mod Ready
pub mod Invariant
pub mod Steps
pub mod Handlers
pub mod Verified
pub mod Delivery
pub mod Proposals
pub mod Reachable
pub mod Promises
pub mod Termination
use vyrm.Prelude.{
  ℤ, pos, ℕ, zero, suc, min, ◌+◌, ◌-◌, ◌≡◌, Bool, true, false, not, ◌&&◌, ◌||◌, List, [], ◌∷◌, ◌++◌,
  Option, none, some, Result, ok, err, ◌>>=◌, ◌>>◌, fail_if, if◌then◌else◌, option, ltb, leb, ◌==◌,
  length, bytes_eq, codes, to_be, Map, find, contains_key, put, nat_order, bytes_order, pair_order,
}
use vyrm.Core.Error.{Bytes}
use vyrm.Core.Digest.{sha256_hex}
use vyrm.Core.Encoding.{u64_bytes}
use vyrm.Cluster.Error.{ClusterError, Outcome, NodeId, invalid, denied, unavailable, not_found}
use vyrm.Cluster.Placement.{
  ReplicaPlacement, ShardPlacement, PlacementPolicy, validate_placement, quorum, tolerated_failures,
  is_voter, voters,
}

pub record LogEntry : Type 0 where
  pub term : ℕ
  pub index : ℕ
  pub command_digest : Bytes

pub data MessageKind : Type 0 where
  append : LogEntry → MessageKind
  ack : ℕ → ℕ → MessageKind
  commit : ℕ → ℕ → MessageKind

pub record Message : Type 0 where
  pub id : ℕ
  pub from : NodeId
  pub to : NodeId
  pub deliver_at : ℕ
  pub kind : MessageKind

pub record ReplicaState : Type 0 where
  pub online : Bool
  pub disk_present : Bool
  pub clock_offset_ms : ℤ
  pub log : Map ℕ LogEntry
  pub commit_index : ℕ

pub data TraceEntry : Type 0 where
  proposed : ℕ → TraceEntry
  acknowledged_at : ℕ → TraceEntry
  delivered : ℕ → TraceEntry
  advanced : ℕ → TraceEntry
  partitioned : NodeId → NodeId → TraceEntry
  healed : NodeId → NodeId → TraceEntry
  delayed : ℕ → ℕ → TraceEntry
  duplicated : ℕ → ℕ → TraceEntry
  crashed : NodeId → TraceEntry
  restarted : NodeId → TraceEntry
  clock_skewed : NodeId → ℤ → TraceEntry
  disk_lost : NodeId → TraceEntry

-- `BTreeSet<T>`
abbrev pub Set : Type 0 → Type 0
Set K = Map K (Unit {0})

pub record SimCluster : Type 0 where
  pub seed : ℕ
  pub placement : ShardPlacement
  pub leader : NodeId
  pub now : ℕ
  pub next_message_id : ℕ
  pub replicas : Map NodeId ReplicaState
  pub blocked : Set (NodeId × NodeId)
  pub pending : List Message
  pub acknowledgements : Map ℕ (Set NodeId)
  pub acknowledged : Map ℕ Bytes
  pub disk_losses : Set NodeId
  pub trace : List TraceEntry

abbrev pub Answer : Type 0 → Type 0
Answer A = SimCluster × Outcome A

abbrev pub u64_max : ℕ
u64_max = 18446744073709551615

abbrev pub saturating_add : ℕ → ℕ → ℕ
saturating_add a b = min (a + b) u64_max

-- `find(|replica| replica.node == leader)`
unfoldable pub placed : NodeId → List ReplicaPlacement → Option ReplicaPlacement
placed node [] = none
placed node (r ∷ rs) = if bytes_eq r.node node then some r else placed node rs

abbrev pub fresh_replica : ReplicaState
fresh_replica = record {
  online = true;
  disk_present = true;
  clock_offset_ms = pos 0;
  log = [];
  commit_index = 0;
}

-- The replicas collected into a map.
unfoldable pub fresh_replicas :
    List ReplicaPlacement → Map NodeId ReplicaState → Map NodeId ReplicaState
fresh_replicas [] m = m
fresh_replicas (r ∷ rs) m = fresh_replicas rs (put bytes_order r.node fresh_replica m)

abbrev pub leader_of : Option ReplicaPlacement → Outcome ReplicaPlacement
leader_of none = err (invalid "leader is absent from placement")
leader_of (some r) = ok r

abbrev pub initial : ℕ → ShardPlacement → NodeId → SimCluster
initial seed placement leader = record {
  seed = seed;
  placement = placement;
  leader = leader;
  now = 0;
  next_message_id = 1;
  replicas = fresh_replicas placement.replicas [];
  blocked = [];
  pending = [];
  acknowledgements = [];
  acknowledged = [];
  disk_losses = [];
  trace = [];
}

-- `SimCluster::new`
unfoldable pub new : ℕ → ShardPlacement → NodeId → Outcome SimCluster
new seed placement leader = do
  validate_placement placement
  leader_replica ← leader_of (placed leader placement.replicas)
  fail_if (not (is_voter leader_replica)) (invalid "leader must be a voter")
  ok (initial seed placement leader)

-- `keys().next_back().unwrap_or(0)`
unfoldable pub last_index : Map ℕ LogEntry → ℕ
last_index [] = 0
last_index ((i, e) ∷ []) = i
last_index (x ∷ y ∷ m) = last_index (y ∷ m)

unfoldable pub enqueue : SimCluster → NodeId → NodeId → MessageKind → SimCluster
enqueue s from to kind = record s {
  pending =
      s.pending
      ++ record { id = s.next_message_id; from = from; to = to; deliver_at = s.now; kind = kind }
        ∷ [];
  next_message_id = saturating_add s.next_message_id 1;
}

-- The loop that sends to every voter but the leader.
unfoldable pub send_to_followers : List ReplicaPlacement → MessageKind → SimCluster → SimCluster
send_to_followers [] kind s = s
send_to_followers (r ∷ rs) kind s =
    send_to_followers rs kind
      (if is_voter r && not (bytes_eq r.node s.leader) then enqueue s s.leader r.node kind else s)

unfoldable pub log_trace : TraceEntry → SimCluster → SimCluster
log_trace t s = record s { trace = s.trace ++ t ∷ [] }

-- `replica(node)?` and `replica_mut(node)?`: what follows it, where the node is there.
abbrev pub with_replica : {A : Type 0} → SimCluster → NodeId → (ReplicaState → Answer A) → Answer A
with_replica s node k = option (find bytes_order node s.replicas) (s, err (not_found "node")) k

abbrev pub set_replica : NodeId → ReplicaState → SimCluster → SimCluster
set_replica node r s = record s { replicas = put bytes_order node r s.replicas }
