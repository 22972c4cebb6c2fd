-- ===== src/Cluster/Sim/Invariant.antt =====
-- sim.rs: the invariant of the simulator. It names what every index holds, `h`, and the highest index
-- that was proposed, `n`.
use mathlib.Core.Path.{subst}
use vyrm.Prelude.{
  ℕ, ◌≤◌, ◌<◌, ◌≡◌, sym, ap, ◌∙◌, true, List, some, length, All, All-map, arith, inl, inr, ◌⊎◌, Map,
  find, contains_key, put, put-All, find-put_self, find-put_other, IsAscending, key-cases,
  nat_order, bytes_order,
}
use vyrm.Core.Error.{Bytes}
use vyrm.Cluster.Error.{NodeId}
use vyrm.Cluster.Placement.{quorum}
use vyrm.Cluster.Sim.{
  LogEntry, MessageKind, append, ack, commit, Message, ReplicaState, Set, SimCluster, last_index,
  set_replica,
}
use vyrm.Cluster.Sim.Operations.{acks_of}

-- No more than one entry is ever made for an index.
pub record IsEntry (h : ℕ → Bytes) (n : ℕ) (e : LogEntry) : Type 0 where
  pub positive : 1 ≤ e.index
  pub proposed : e.index ≤ n
  pub term : e.term ≡ 1
  pub digest : e.command_digest ≡ h e.index

abbrev pub IsLog : (ℕ → Bytes) → ℕ → Map ℕ LogEntry → Type 0
IsLog h n = All (λ (x : ℕ × LogEntry). (x.0 ≡ x.1.index) × IsEntry h n x.1)

pub record IsReplica (h : ℕ → Bytes) (n : ℕ) (r : ReplicaState) : Type 0 where
  pub entries : IsLog h n r.log
  pub committed : 0 < r.commit_index → contains_key nat_order r.commit_index r.log ≡ true

-- A node has the entry of an index, or it has lost its disk.
abbrev pub Holds : Map NodeId ReplicaState → Set NodeId → ℕ → NodeId → Type 0
Holds replicas losses index node =
    (contains_key bytes_order node losses ≡ true)
    ⊎ ((r : ReplicaState) × (find bytes_order node replicas ≡ some r)
        × (contains_key nat_order index r.log ≡ true))

module _ (h : ℕ → Bytes) (n : ℕ) (leader : NodeId) (replicas : Map NodeId ReplicaState)
    (losses : Set NodeId) where
  abbrev pub IsKind : NodeId → NodeId → MessageKind → Type 0
  IsKind from to (append e) = (from ≡ leader) × IsEntry h n e
  IsKind from to (ack term index) =
      (to ≡ leader) × (term ≡ 1) × (1 ≤ index) × (index ≤ n) × Holds replicas losses index from
  IsKind from to (commit term index) = (from ≡ leader) × (term ≡ 1) × (1 ≤ index) × (index ≤ n)

  abbrev pub IsMessage : Message → Type 0
  IsMessage m = IsKind m.from m.to m.kind

-- The acknowledgements of an index.
abbrev pub IsAcks : Map NodeId ReplicaState → Set NodeId → ℕ × Set NodeId → Type 0
IsAcks replicas losses x =
    IsAscending bytes_order x.1 × All (λ (a : NodeId × Unit {0}). Holds replicas losses x.0 a.0) x.1

abbrev pub IsAcknowledged : (ℕ → Bytes) → ℕ → SimCluster → ℕ × Bytes → Type 0
IsAcknowledged h n s x =
    (x.1 ≡ h x.0) × (x.0 ≤ n) × (quorum s.placement.policy ≤ length (acks_of s x.0))

-- A leader that has its disk has every entry.
abbrev pub IsLeader : ℕ → ReplicaState → Type 0
IsLeader n r =
    r.disk_present ≡ true
    → (last_index r.log ≡ n) × ((i : ℕ) → 1 ≤ i → i ≤ n → contains_key nat_order i r.log ≡ true)

pub record Inv (h : ℕ → Bytes) (n : ℕ) (s : SimCluster) : Type 0 where
  pub replicas : All (λ (x : NodeId × ReplicaState). IsReplica h n x.1) s.replicas
  pub messages : All (IsMessage h n s.leader s.replicas s.disk_losses) s.pending
  pub acks : All (IsAcks s.replicas s.disk_losses) s.acknowledgements
  pub acknowledged : All (IsAcknowledged h n s) s.acknowledged
  pub leader : (r : ReplicaState) → find bytes_order s.leader s.replicas ≡ some r → IsLeader n r

-- What holds of nodes in one cluster holds in another.
abbrev pub Keeps :
    Map NodeId ReplicaState → Set NodeId → Map NodeId ReplicaState → Set NodeId → Type 0
Keeps replicas losses replicas' losses' =
    (index : ℕ) (node : NodeId)
    → Holds replicas losses index node
    → Holds replicas' losses' index node

module _ (h : ℕ → Bytes) (n : ℕ) (leader : NodeId) where
  pub keep-IsMessage :
      (replicas replicas' : Map NodeId ReplicaState) (losses losses' : Set NodeId)
      (ms : List Message)
      → Keeps replicas losses replicas' losses'
      → All (IsMessage h n leader replicas losses) ms
      → All (IsMessage h n leader replicas' losses') ms
  keep-IsMessage replicas replicas' losses losses' ms k =
      All-map (IsMessage h n leader replicas losses) (IsMessage h n leader replicas' losses') ms
        (λ m. go m.from m.to m.kind)
    where
      go :
          (from to : NodeId) (kind : MessageKind)
          → IsKind h n leader replicas losses from to kind
          → IsKind h n leader replicas' losses' from to kind
      go from to (append e) i = i
      go from to (ack term index) i = (i.0, i.1, i.2, i.3, k index from i.4)
      go from to (commit term index) i = i

pub keep-IsAcks :
    (replicas replicas' : Map NodeId ReplicaState) (losses losses' : Set NodeId)
    (acks : Map ℕ (Set NodeId))
    → Keeps replicas losses replicas' losses'
    → All (IsAcks replicas losses) acks
    → All (IsAcks replicas' losses') acks
keep-IsAcks replicas replicas' losses losses' acks k =
    All-map (IsAcks replicas losses) (IsAcks replicas' losses') acks
      (λ x a. (a.0, All-map _ _ x.1 (λ y. k x.0 y.0) a.1))

-- A replica with a longer log in place of another.
pub put-Keeps :
    (node : NodeId) (r r' : ReplicaState) (replicas : Map NodeId ReplicaState) (losses : Set NodeId)
    → find bytes_order node replicas ≡ some r
    → ((i : ℕ) → contains_key nat_order i r.log ≡ true → contains_key nat_order i r'.log ≡ true)
    → Keeps replicas losses (put bytes_order node r' replicas) losses
put-Keeps node r r' replicas losses found longer index other (inl lost) = inl lost
put-Keeps node r r' replicas losses found longer index other (inr (q, there, has)) =
    elim (key-cases bytes_order other node) [
      | inl same ↦
          let q_is : q ≡ r =
            ground (arith, there, found, ap (λ k. find bytes_order k replicas) same) in
          inr (
            r',
            ap (λ k. find bytes_order k (put bytes_order node r' replicas)) same
                ∙ find-put_self bytes_order node r' replicas,
            longer index
                (sym (ap (λ (x : ReplicaState). contains_key nat_order index x.log) q_is) ∙ has),
          )
      | inr differs ↦
          inr (q, find-put_other bytes_order other node r' replicas differs ∙ there, has)
    ]

-- The replica of a node replaced, by one that is no worse.
pub set_replica-Inv :
    (h : ℕ → Bytes) (n : ℕ) (s : SimCluster) (node : NodeId) (r r' : ReplicaState)
    → Inv h n s
    → find bytes_order node s.replicas ≡ some r
    → IsReplica h n r'
    → ((i : ℕ) → contains_key nat_order i r.log ≡ true → contains_key nat_order i r'.log ≡ true)
    → (IsLeader n r → IsLeader n r')
    → Inv h n (set_replica node r' s)
set_replica-Inv h n s node r r' v found good longer lead =
    let k = put-Keeps node r r' s.replicas s.disk_losses found longer in
    record {
      replicas = put-All bytes_order _ node r' s.replicas v.replicas good;
      messages = keep-IsMessage h n s.leader _ _ _ _ s.pending k v.messages;
      acks = keep-IsAcks _ _ _ _ s.acknowledgements k v.acks;
      acknowledged = v.acknowledged;
      leader = leads;
    }
  where
    leads :
        (q : ReplicaState)
        → find bytes_order s.leader (put bytes_order node r' s.replicas) ≡ some q
        → IsLeader n q
    leads q e = elim (key-cases bytes_order s.leader node) [
      | inl same ↦
          let q_is : r' ≡ q = ground (
            arith,
            e,
            find-put_self bytes_order node r' s.replicas,
            ap (λ k. find bytes_order k (put bytes_order node r' s.replicas)) same,
          ) in
          subst (IsLeader n) q_is
            (lead (v.leader r (ap (λ k. find bytes_order k s.replicas) same ∙ found)))
      | inr differs ↦
          v.leader q (sym (find-put_other bytes_order s.leader node r' s.replicas differs) ∙ e)
    ]
