-- ===== src/Cluster/Sim/Safety.antt =====
-- crates/vyrm-cluster/src/sim.rs: `verify_safety`, and the steps that end with it.
use vyrm.Prelude.{
  ℤ, ℕ, ◌+◌, true, false, not, ◌&&◌, List, [], ◌∷◌, ◌++◌, Option, none, some, ok, err, ◌>>◌,
  fail_if, if◌then◌else◌, option, ltb, leb, ◌==◌, length, bytes_eq, Map, find, contains_key, put,
  remove, nat_order, bytes_order, pair_order, KeyOrder,
}
use vyrm.Core.Error.{Bytes}
use vyrm.Cluster.Error.{Outcome, NodeId, denied, unavailable, not_found}
use vyrm.Cluster.Placement.{tolerated_failures}
use vyrm.Cluster.Sim.{
  LogEntry, Message, ReplicaState, TraceEntry, delivered, advanced, partitioned, healed, delayed,
  duplicated, crashed, restarted, clock_skewed, disk_lost, Set, SimCluster, Answer, saturating_add,
  log_trace, with_replica, set_replica,
}
use vyrm.Cluster.Sim.Operations.{can_deliver, find_message, remove_message, accept}

unfoldable pub check_commits : Map NodeId ReplicaState → Outcome (Unit {0})
check_commits [] = ok tt
check_commits ((node, r) ∷ replicas) = do
  fail_if (ltb 0 r.commit_index && not (contains_key nat_order r.commit_index r.log))
      (denied "replica commit index advances beyond its durable log")
  check_commits replicas

unfoldable pub keys_into : Map ℕ LogEntry → Set ℕ → Set ℕ
keys_into [] indexes = indexes
keys_into ((i, e) ∷ log) indexes = keys_into log (put nat_order i tt indexes)

unfoldable pub indexes_of : Map NodeId ReplicaState → Set ℕ → Set ℕ
indexes_of [] indexes = indexes
indexes_of ((node, r) ∷ replicas) indexes = indexes_of replicas (keys_into r.log indexes)

abbrev pub add_digest : Option LogEntry → Set (ℕ × Bytes) → Set (ℕ × Bytes)
add_digest none digests = digests
add_digest (some e) digests =
    put (pair_order nat_order bytes_order) (e.term, e.command_digest) tt digests

unfoldable pub digests_at : ℕ → Map NodeId ReplicaState → Set (ℕ × Bytes) → Set (ℕ × Bytes)
digests_at index [] digests = digests
digests_at index ((node, r) ∷ replicas) digests =
    digests_at index replicas (add_digest (find nat_order index r.log) digests)

unfoldable pub check_divergence : Map NodeId ReplicaState → Set ℕ → Outcome (Unit {0})
check_divergence replicas [] = ok tt
check_divergence replicas ((index, u) ∷ indexes) = do
  fail_if (ltb 1 (length (digests_at index replicas []))) (denied "replicas diverged at log index")
  check_divergence replicas indexes

abbrev pub carries : Bytes → Option LogEntry → ℕ
carries digest none = 0
carries digest (some e) = if bytes_eq e.command_digest digest then 1 else 0

-- How many replicas hold the entry.
unfoldable pub durable : ℕ → Bytes → Map NodeId ReplicaState → ℕ
durable index digest [] = 0
durable index digest ((node, r) ∷ replicas) =
    carries digest (find nat_order index r.log) + durable index digest replicas

unfoldable pub check_lost : SimCluster → Map ℕ Bytes → Outcome (Unit {0})
check_lost s [] = ok tt
check_lost s ((index, digest) ∷ acknowledged) = do
  fail_if
      (leb (length s.disk_losses) (tolerated_failures s.placement.policy)
        && durable index digest s.replicas == 0)
      (denied "acknowledged entry was lost within configured fault tolerance")
  check_lost s acknowledged

unfoldable pub verify_safety : SimCluster → Outcome (Unit {0})
verify_safety s = do
  check_commits s.replicas
  check_divergence s.replicas (indexes_of s.replicas [])
  check_lost s s.acknowledged

-- `self.verify_safety()` behind a step that succeeds.
abbrev pub then_verify : Answer (Unit {0}) → Answer (Unit {0})
then_verify (s, err e) = (s, err e)
then_verify (s, ok u) = (s, verify_safety s)

abbrev pub then_trace : TraceEntry → Answer (Unit {0}) → Answer (Unit {0})
then_trace t (s, err e) = (s, err e)
then_trace t (s, ok u) = (log_trace t s, ok u)

-- `deliver`
unfoldable pub deliver : ℕ → SimCluster → Answer (Unit {0})
deliver message_id s =
    option (find_message message_id s.pending) (s, err (not_found "message"))
      (λ m.
        if can_deliver s m
        then then_verify (
            then_trace (delivered message_id)
              (accept m (record s { pending = remove_message message_id s.pending })))
        else (s, err (unavailable "message is delayed, partitioned, or targets an offline node")))

pub data SimFault : Type 0 where
  partition : NodeId → NodeId → SimFault
  heal : NodeId → NodeId → SimFault
  delay : ℕ → ℕ → SimFault
  duplicate : ℕ → SimFault
  deliver_one : ℕ → SimFault
  reorder : List ℕ → SimFault
  crash : NodeId → SimFault
  restart : NodeId → SimFault
  clock_skew : NodeId → ℤ → SimFault
  disk_loss : NodeId → SimFault

-- The message of the number delivered later, `message_mut`.
unfoldable pub delay_message : ℕ → ℕ → List Message → List Message
delay_message id ticks [] = []
delay_message id ticks (m ∷ ms) =
    if m.id == id
    then record m { deliver_at = saturating_add m.deliver_at ticks } ∷ ms
    else m ∷ delay_message id ticks ms

abbrev pub pairs : KeyOrder (NodeId × NodeId)
pairs = pair_order bytes_order bytes_order

abbrev pub and_then : Answer (Unit {0}) → (SimCluster → Answer (Unit {0})) → Answer (Unit {0})
and_then (s, err e) k = (s, err e)
and_then (s, ok u) k = k s

unfoldable pub deliver_each : List ℕ → SimCluster → Answer (Unit {0})
deliver_each [] s = (s, ok tt)
deliver_each (id ∷ ids) s = and_then (deliver id s) (deliver_each ids)

abbrev pub lost_replica : ReplicaState → ReplicaState
lost_replica r = record r { online = false; disk_present = false; log = []; commit_index = 0 }

-- The arms of `apply`.
unfoldable pub handle : SimFault → SimCluster → Answer (Unit {0})
handle (partition left right) s = with_replica s left (λ l. with_replica s right (λ r. (
  log_trace (partitioned left right)
      (record s { blocked = put pairs (right, left) tt (put pairs (left, right) tt s.blocked) }),
  ok tt,
)))
handle (heal left right) s = (
  log_trace (healed left right)
      (record s { blocked = remove pairs (right, left) (remove pairs (left, right) s.blocked) }),
  ok tt,
)
handle (delay id ticks) s =
    option (find_message id s.pending) (s, err (not_found "message"))
      (λ m. (
        log_trace (delayed id ticks) (record s { pending = delay_message id ticks s.pending }),
        ok tt,
      ))
handle (duplicate id) s =
    option (find_message id s.pending) (s, err (not_found "message"))
      (λ m. (
        log_trace (duplicated id s.next_message_id) (record s {
          pending = s.pending ++ record m { id = s.next_message_id } ∷ [];
          next_message_id = saturating_add s.next_message_id 1;
        }),
        ok tt,
      ))
handle (deliver_one id) s = deliver id s
handle (reorder ids) s = deliver_each ids s
handle (crash node) s =
    with_replica s node
      (λ r. (log_trace (crashed node) (set_replica node (record r { online = false }) s), ok tt))
handle (restart node) s = with_replica s node (λ r.
    if not r.disk_present
    then (s, err (unavailable "node cannot restart without a replacement disk and transfer"))
    else (log_trace (restarted node) (set_replica node (record r { online = true }) s), ok tt))
handle (clock_skew node offset_ms) s = with_replica s node (λ r. (
  log_trace (clock_skewed node offset_ms)
      (set_replica node (record r { clock_offset_ms = offset_ms }) s),
  ok tt,
))
handle (disk_loss node) s = with_replica s node (λ r. (
  log_trace (disk_lost node) (record (set_replica node (lost_replica r) s) {
    disk_losses = put bytes_order node tt s.disk_losses;
  }),
  ok tt,
))

unfoldable pub apply : SimFault → SimCluster → Answer (Unit {0})
apply fault s = then_verify (handle fault s)

unfoldable pub advance : ℕ → SimCluster → SimCluster
advance ticks s = log_trace (advanced ticks) (record s { now = saturating_add s.now ticks })
