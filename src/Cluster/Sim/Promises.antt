-- ===== src/Cluster/Sim/Promises.antt =====
-- sim.rs: what holds of a cluster after any sequence of proposals, deliveries and faults.
use mathlib.Core.Path.{subst}
use vyrm.Prelude.{
  ℕ, ◌≤◌, ◌≡◌, ◌≢◌, sym, ap, ◌∙◌, some, ok, err, length, find, find-All, nat_order, bytes_order,
}
use vyrm.Core.Error.{Bytes}
use vyrm.Cluster.Error.{NodeId, Outcome, denied}
use vyrm.Cluster.Placement.{tolerated_failures}
use vyrm.Cluster.Sim.{LogEntry, ReplicaState, SimCluster}
use vyrm.Cluster.Sim.Operations.{propose}
use vyrm.Cluster.Sim.Safety.{verify_safety, SimFault, apply, durable}
use vyrm.Cluster.Sim.Invariant.{IsReplica, IsAcknowledged}
use vyrm.Cluster.Sim.Steps.{IsAllowed}
use vyrm.Cluster.Sim.Verified.{find-IsEntry, verify_safety-ok, survives}
use vyrm.Cluster.Sim.Delivery.{apply-Sound}
use vyrm.Cluster.Sim.Proposals.{propose-Keeping}
use vyrm.Cluster.Sim.Reachable.{Reach, Reach-IsSafe}

-- Every cluster that proposals, faults, clock steps and deliveries make of a new one passes the
-- safety check, whether or not the calls succeed.
pub Reach-verify_safety : (s : SimCluster) → Reach s → verify_safety s ≡ ok tt
Reach-verify_safety s r = let (h, n, v) = Reach-IsSafe s r in verify_safety-ok h n s v

not_denied : {A : Type 0} (o : Outcome A) (reason : _) → IsAllowed o → o ≢ err (denied reason)
not_denied o reason a e = subst IsAllowed e a

-- In a reachable cluster no proposal and no fault is refused with a broken promise: a conflicting
-- entry, a lost one, an invalid route or a failed safety check.
pub Reach-not_denied :
    (s : SimCluster) (command : Bytes) (fault : SimFault) (reason : _)
    → Reach s
    → ((propose command s).1 ≢ err (denied reason)) × ((apply fault s).1 ≢ err (denied reason))
Reach-not_denied s command fault reason r =
    let (h, n, v) = Reach-IsSafe s r in
    (
      not_denied _ reason (propose-Keeping command s (h, n, v)).allowed,
      not_denied _ reason (apply-Sound h n fault s v).allowed,
    )

-- In a reachable cluster two replicas that hold an index hold the same entry there.
pub Reach-agreement :
    (s : SimCluster) (a b : NodeId) (r q : ReplicaState) (index : ℕ) (e f : LogEntry)
    → Reach s
    → find bytes_order a s.replicas ≡ some r
    → find bytes_order b s.replicas ≡ some q
    → find nat_order index r.log ≡ some e
    → find nat_order index q.log ≡ some f
    → e ≡ f
Reach-agreement s a b r q index e f w here there left right =
    let (h, n, v) = Reach-IsSafe s w in
    let replica = λ (x : NodeId × ReplicaState). IsReplica h n x.1 in
    let (i, good) =
      find-IsEntry h n r index e (find-All bytes_order replica a r s.replicas v.replicas here)
        left in
    let (j, fine) =
      find-IsEntry h n q index f (find-All bytes_order replica b q s.replicas v.replicas there)
        right in
    let indexes : e.index ≡ f.index = sym i ∙ j in
    let terms : e.term ≡ f.term = good.term ∙ sym fine.term in
    let digests : e.command_digest ≡ f.command_digest =
      good.digest ∙ ap h indexes ∙ sym fine.digest in
    λ k. record { term = terms k; index = indexes k; command_digest = digests k }

-- In a reachable cluster that has lost no more disks than its policy tolerates, some replica holds
-- every entry that was acknowledged.
pub Reach-durable :
    (s : SimCluster) (index : ℕ) (digest : Bytes)
    → Reach s
    → find nat_order index s.acknowledged ≡ some digest
    → length s.disk_losses ≤ tolerated_failures s.placement.policy
    → 1 ≤ durable index digest s.replicas
Reach-durable s index digest r there few =
    let (h, n, v) = Reach-IsSafe s r in
    survives h n s v index digest
      (find-All nat_order (IsAcknowledged h n s) index digest s.acknowledged v.acknowledged there)
      few
