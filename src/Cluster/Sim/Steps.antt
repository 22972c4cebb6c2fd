-- ===== src/Cluster/Sim/Steps.antt =====
-- sim.rs: the pieces of a step keep the invariant.
use mathlib.Core.Path.{subst}
use vyrm.Prelude.{
  ℕ, ◌≤◌, ◌≡◌, refl, sym, ap, ◌∙◌, not, ◌&&◌, List, [], ◌∷◌, some, ok, err, length, bytes_eq,
  All-map, All-append, arith, Bool-cases, Option-cases, inl, inr, find, put, put-All, find-All,
  find-put_self, find-put_other, put-IsAscending, length-put, key-cases, nat_order, bytes_order,
}
use vyrm.Core.Error.{Bytes}
use vyrm.Cluster.Error.{ClusterError, Outcome, NodeId, denied}
use vyrm.Cluster.Placement.{ReplicaPlacement, is_voter}
use vyrm.Cluster.Sim.{
  MessageKind, append, ack, commit, TraceEntry, SimCluster, enqueue, send_to_followers, log_trace,
}
use vyrm.Cluster.Sim.Operations.{acks_of, nodes_or_empty, record_ack}
use vyrm.Cluster.Sim.Invariant.{IsEntry, Holds, IsKind, IsMessage, IsAcks, IsAcknowledged, Inv}

-- An answer that is not the refusal of a broken promise.
abbrev pub IsBenign : ClusterError → Type 0
IsBenign (denied reason) = ⊥
IsBenign _ = Unit

abbrev pub IsAllowed : {A : Type 0} → Outcome A → Type 0
IsAllowed (err e) = IsBenign e
IsAllowed (ok a) = Unit

module _ (h : ℕ → Bytes) (n : ℕ) where
  pub enqueue-Inv :
      (s : SimCluster) (from to : NodeId) (kind : MessageKind)
      → Inv h n s
      → IsKind h n s.leader s.replicas s.disk_losses from to kind
      → Inv h n (enqueue s from to kind)
  unfolding enqueue
  enqueue-Inv s from to kind v good = record {
    replicas = v.replicas;
    messages =
        All-append (IsMessage h n s.leader s.replicas s.disk_losses) s.pending _ v.messages
          (good, tt);
    acks = v.acks;
    acknowledged = v.acknowledged;
    leader = v.leader;
  }

  pub log_trace-Inv : (t : TraceEntry) (s : SimCluster) → Inv h n s → Inv h n (log_trace t s)
  unfolding log_trace
  log_trace-Inv t s v = record {
    replicas = v.replicas;
    messages = v.messages;
    acks = v.acks;
    acknowledged = v.acknowledged;
    leader = v.leader;
  }

  -- A kind that the leader may send to anyone.
  abbrev pub IsSent : MessageKind → Type 0
  IsSent (append e) = IsEntry h n e
  IsSent (ack term index) = ⊥
  IsSent (commit term index) = (term ≡ 1) × (1 ≤ index) × (index ≤ n)

  IsSent-IsKind :
      (s : SimCluster) (to : NodeId) (kind : MessageKind)
      → IsSent kind
      → IsKind h n s.leader s.replicas s.disk_losses s.leader to kind
  IsSent-IsKind s to (append e) g = (refl, g)
  IsSent-IsKind s to (ack term index) g = absurd g
  IsSent-IsKind s to (commit term index) g = (refl, g.0, g.1, g.2)

  pub send_to_followers-Inv :
      (rs : List ReplicaPlacement) (kind : MessageKind) (s : SimCluster)
      → Inv h n s
      → IsSent kind
      → Inv h n (send_to_followers rs kind s)
  unfolding send_to_followers
  send_to_followers-Inv [] kind s v g = v
  send_to_followers-Inv (r ∷ rs) kind s v g =
      send_to_followers-Inv rs kind _
        (elim (Bool-cases (is_voter r && not (bytes_eq r.node s.leader))) [
          | inl sent ↦
              rw sent (enqueue-Inv s s.leader r.node kind v (IsSent-IsKind s r.node kind g))
          | inr skipped ↦ rw skipped v
        ])
        g

  pub acks_of-IsAcks :
      (s : SimCluster) (index : ℕ)
      → Inv h n s
      → IsAcks s.replicas s.disk_losses (index, acks_of s index)
  acks_of-IsAcks s index v = elim (Option-cases (find nat_order index s.acknowledgements)) [
    | inl absent ↦
        subst (λ o. IsAcks s.replicas s.disk_losses (index, nodes_or_empty o)) (sym absent) (tt, tt)
    | inr (nodes, there) ↦
        subst (λ o. IsAcks s.replicas s.disk_losses (index, nodes_or_empty o)) (sym there)
          (find-All nat_order (IsAcks s.replicas s.disk_losses) index nodes s.acknowledgements
            v.acks there)
  ]

  record_ack-longer :
      (s : SimCluster) (index : ℕ) (node : NodeId) (i : ℕ)
      → length (acks_of s i) ≤ length (acks_of (record_ack index node s) i)
  record_ack-longer s index node i = elim (key-cases nat_order i index) [
    | inl same ↦
        let now : find nat_order i (record_ack index node s).acknowledgements
            ≡ some (put bytes_order node tt (acks_of s index)) =
          ap (λ k. find nat_order k (record_ack index node s).acknowledgements) same
          ∙ find-put_self nat_order index _ s.acknowledgements in
        let grown = length-put bytes_order node tt (acks_of s index) in
        omega (
          arith,
          grown,
          ap (λ o. length (nodes_or_empty o)) now,
          ap (λ k. length (acks_of s k)) same,
        )
    | inr differs ↦
        let now =
          find-put_other nat_order i index (put bytes_order node tt (acks_of s index))
            s.acknowledgements differs in
        omega (arith, ap (λ o. length (nodes_or_empty o)) now)
  ]

  pub record_ack-Inv :
      (s : SimCluster) (index : ℕ) (node : NodeId)
      → Inv h n s
      → Holds s.replicas s.disk_losses index node
      → Inv h n (record_ack index node s)
  record_ack-Inv s index node v holds =
      let (ascends, held) = acks_of-IsAcks s index v in
      record {
        replicas = v.replicas;
        messages = v.messages;
        acks =
            put-All nat_order (IsAcks s.replicas s.disk_losses) index _ s.acknowledgements v.acks (
              put-IsAscending bytes_order node tt (acks_of s index) ascends,
              put-All bytes_order
                  (λ (a : NodeId × Unit {0}). Holds s.replicas s.disk_losses index a.0) node tt
                  (acks_of s index) held holds,
            );
        acknowledged =
            All-map (IsAcknowledged h n s) (IsAcknowledged h n (record_ack index node s))
              s.acknowledged
              (λ x a. (a.0, a.1, omega (arith, a.2, record_ack-longer s index node x.0)))
              v.acknowledged;
        leader = v.leader;
      }
