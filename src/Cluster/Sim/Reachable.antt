-- ===== src/Cluster/Sim/Reachable.antt =====
-- sim.rs: every cluster that the calls of a test can reach, and what is promised of all of them.
use mathlib.Core.Path.{Path, subst}
use vyrm.Prelude.{
  ℕ, zero, suc, ◌≡◌, refl, sym, List, [], ◌∷◌, Option, some, ok, err, All, All-map, arith,
  Bool-cases, Option-cases, Result-cases, inl, inr, Map, find-All, put-All, bytes_order,
}
use vyrm.Core.Error.{Bytes}
use vyrm.Cluster.Error.{NodeId}
use vyrm.Cluster.Placement.{ReplicaPlacement, ShardPlacement, validate_placement, is_voter}
use vyrm.Cluster.Sim.{
  ReplicaState, SimCluster, Answer, fresh_replica, fresh_replicas, placed, last_index, initial, new,
}
use vyrm.Cluster.Sim.Operations.{propose}
use vyrm.Cluster.Sim.Safety.{deliver, SimFault, apply, advance}
use vyrm.Cluster.Sim.Ready.{next_ready, counted, deliver_loop, deliver_ready}
use vyrm.Cluster.Sim.Invariant.{IsReplica, IsMessage, IsAcks, IsAcknowledged, IsLeader, Inv}
use vyrm.Cluster.Sim.Handlers.{Sound}
use vyrm.Cluster.Sim.Delivery.{deliver-Sound, apply-Sound, advance-Inv}
use vyrm.Cluster.Sim.Proposals.{IsSafe, Keeping, propose-Keeping}

-- What the calls of a test make of a new cluster, those that fail too.
pub data Reach : SimCluster → Type 0 where
  started :
      (seed : ℕ) (placement : ShardPlacement) (leader : NodeId) (s : SimCluster)
      → new seed placement leader ≡ ok s
      → Reach s
  proposing : (s : SimCluster) (command : Bytes) → Reach s → Reach (propose command s).0
  applying : (s : SimCluster) (fault : SimFault) → Reach s → Reach (apply fault s).0
  advancing : (s : SimCluster) (ticks : ℕ) → Reach s → Reach (advance ticks s)
  delivering :
      (s : SimCluster) (fuel : ℕ) (a : Answer ℕ)
      → Reach s
      → deliver_ready fuel s ≡ some a
      → Reach a.0

abbrev IsFresh : Map NodeId ReplicaState → Type 0
IsFresh = All (λ (x : NodeId × ReplicaState). x.1 ≡ fresh_replica)

fresh_replicas-IsFresh :
    (rs : List ReplicaPlacement) (m : Map NodeId ReplicaState)
    → IsFresh m
    → IsFresh (fresh_replicas rs m)
unfolding fresh_replicas
fresh_replicas-IsFresh [] m a = a
fresh_replicas-IsFresh (r ∷ rs) m a = fresh_replicas-IsFresh rs _ (
    put-All bytes_order (λ (x : NodeId × ReplicaState). x.1 ≡ fresh_replica) r.node fresh_replica m
      a refl)

nothing : ℕ → Bytes
nothing i = []

no_entries : last_index [] ≡ 0
unfolding last_index
no_entries = refl

fresh-Inv :
    (s : SimCluster)
    → IsFresh s.replicas
    → s.pending ≡ []
    → s.acknowledgements ≡ []
    → s.acknowledged ≡ []
    → Inv nothing 0 s
fresh-Inv s fresh pending acks acknowledged = record {
  replicas =
      All-map (λ (x : NodeId × ReplicaState). x.1 ≡ fresh_replica)
        (λ (x : NodeId × ReplicaState). IsReplica nothing 0 x.1) s.replicas
        (λ x is.
          subst (IsReplica nothing 0) (sym is)
            (record { entries = tt; committed = λ p. absurd (omega (arith, p)) }))
        fresh;
  messages = subst (All (IsMessage nothing 0 s.leader s.replicas s.disk_losses)) (sym pending) tt;
  acks = subst (All (IsAcks s.replicas s.disk_losses)) (sym acks) tt;
  acknowledged = subst (All (IsAcknowledged nothing 0 s)) (sym acknowledged) tt;
  leader = λ r there.
      let is : r ≡ fresh_replica =
        find-All bytes_order (λ (x : NodeId × ReplicaState). x.1 ≡ fresh_replica) s.leader r
          s.replicas fresh there in
      subst (IsLeader 0) (sym is)
        (λ up. (no_entries, λ i low high. absurd (omega (arith, low, high))));
}

new-initial :
    (seed : ℕ) (placement : ShardPlacement) (leader : NodeId) (s : SimCluster)
    → new seed placement leader ≡ ok s
    → initial seed placement leader ≡ s
unfolding new
new-initial seed placement leader s e = elim (Result-cases (validate_placement placement)) [
  | inl (u, valid) ↦ elim (Option-cases (placed leader placement.replicas)) [
    | inl absent ↦ absurd (ground (arith, valid, absent, e))
    | inr (r, there) ↦ elim (Bool-cases (is_voter r)) [
      | inl votes ↦ ground (arith, valid, there, votes, e)
      | inr learns ↦ absurd (ground (arith, valid, there, learns, e))
    ]
  ]
  | inr (b, invalid) ↦ absurd (ground (arith, invalid, e))
]

new-Inv :
    (seed : ℕ) (placement : ShardPlacement) (leader : NodeId) (s : SimCluster)
    → new seed placement leader ≡ ok s
    → Inv nothing 0 s
new-Inv seed placement leader s e = subst (Inv nothing 0) (new-initial seed placement leader s e) (
    fresh-Inv (initial seed placement leader) (fresh_replicas-IsFresh placement.replicas [] tt) refl
      refl refl)

counted-Keeping :
    (h : ℕ → Bytes) (n : ℕ) (x : Answer (Unit {0})) (k : SimCluster → Option (Answer ℕ))
    (a : Answer ℕ)
    → Sound h n x
    → ((t : SimCluster) → IsSafe t → k t ≡ some a → Keeping a)
    → counted x k ≡ some a
    → Keeping a
counted-Keeping h n (t, ok u) k a w f e = f t (h, n, w.kept) e
counted-Keeping h n (t, err b) k a w f e =
    let is : Path (Answer ℕ) (t, err b) a = ground (arith, e) in
    subst Keeping is (record { safe = (h, n, w.kept); allowed = w.allowed })

deliver_loop-Keeping :
    (fuel count : ℕ) (s : SimCluster) (a : Answer ℕ)
    → IsSafe s
    → deliver_loop fuel count s ≡ some a
    → Keeping a
deliver_loop-Keeping zero count s a w e = absurd (unfold deliver_loop in ground (arith, e))
deliver_loop-Keeping (suc fuel) count s a (h, n, v) e =
    elim (Option-cases (next_ready s s.pending)) [
      | inl quiet ↦
          let is : Path (Answer ℕ) (s, ok count) a =
            unfold deliver_loop in ground (arith, quiet, e) in
          subst Keeping is (record { safe = (h, n, v); allowed = tt })
      | inr (id, ready) ↦
          counted-Keeping h n (deliver id s) (deliver_loop fuel (suc count)) a
            (deliver-Sound h n id s v) (λ t. deliver_loop-Keeping fuel (suc count) t a)
            (unfold deliver_loop in ground (arith, ready, e))
    ]

pub Reach-IsSafe : (s : SimCluster) → Reach s → IsSafe s
Reach-IsSafe s (started seed placement leader _ e) = (nothing, 0, new-Inv seed placement leader s e)
Reach-IsSafe _ (proposing s command r) = (propose-Keeping command s (Reach-IsSafe s r)).safe
Reach-IsSafe _ (applying s fault r) =
    let (h, n, v) = Reach-IsSafe s r in (h, n, (apply-Sound h n fault s v).kept)
Reach-IsSafe _ (advancing s ticks r) =
    let (h, n, v) = Reach-IsSafe s r in (h, n, advance-Inv h n ticks s v)
Reach-IsSafe _ (delivering s fuel a r e) =
    (deliver_loop-Keeping fuel 0 s a (Reach-IsSafe s r) (unfold deliver_ready in e)).safe
