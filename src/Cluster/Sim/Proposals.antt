-- ===== src/Cluster/Sim/Proposals.antt =====
-- sim.rs, `propose`: a new entry extends what the invariant names.
use mathlib.Core.Path.{subst}
use vyrm.Prelude.{
  ℕ, suc, ◌≤◌, ◌≡◌, refl, sym, ap, ◌∙◌, true, not, ◌&&◌, ◌||◌, ◌==◌, List, [], ◌∷◌, ◌++◌, some, ok,
  err, if◌then◌else◌, option-rule, if-rule, bytes_eq, All, All-map, arith, Bool-cases, inl, inr,
  Map, find, contains_key, put, put-All, put-last, find-All, find-put_self, contains_key-put,
  contains_key-put_self, nat_order, bytes_order,
}
use vyrm.Core.Error.{Bytes}
use vyrm.Cluster.Error.{NodeId}
use vyrm.Cluster.Placement.{ReplicaPlacement, is_voter}
use vyrm.Cluster.Sim.{
  LogEntry, MessageKind, append, ack, commit, ReplicaState, proposed, Set, SimCluster, Answer,
  last_index, enqueue, send_to_followers, log_trace, set_replica,
}
use vyrm.Cluster.Sim.Operations.{record_ack, entry_for, proposal, answer_index, propose}
use vyrm.Cluster.Sim.Invariant.{
  IsEntry, IsReplica, IsKind, IsMessage, IsAcknowledged, IsLeader, Inv, keep-IsMessage, keep-IsAcks,
  put-Keeps,
}
use vyrm.Cluster.Sim.Steps.{IsAllowed, log_trace-Inv, send_to_followers-Inv, record_ack-Inv}
use vyrm.Cluster.Sim.Handlers.{LeaderUp, Sound, maybe_commit-Sound}

-- What the indexes hold, with the next one.
abbrev pub extend : (ℕ → Bytes) → ℕ → Bytes → ℕ → Bytes
extend h n d i = if i == suc n then d else h i

module _ (h : ℕ → Bytes) (n : ℕ) (d : Bytes) where
  extend-old : (i : ℕ) → i ≤ n → extend h n d i ≡ h i
  extend-old i p = ground (arith, p)

  extend-IsEntry : (e : LogEntry) → IsEntry h n e → IsEntry (extend h n d) (suc n) e
  extend-IsEntry e g = record {
    positive = g.positive;
    proposed = omega (arith, g.proposed);
    term = g.term;
    digest = g.digest ∙ sym (extend-old e.index g.proposed);
  }

  extend-IsReplica : (r : ReplicaState) → IsReplica h n r → IsReplica (extend h n d) (suc n) r
  extend-IsReplica r g = record {
    entries =
        All-map (λ (x : ℕ × LogEntry). (x.0 ≡ x.1.index) × IsEntry h n x.1)
          (λ (x : ℕ × LogEntry). (x.0 ≡ x.1.index) × IsEntry (extend h n d) (suc n) x.1) r.log
          (λ x a. (a.0, extend-IsEntry x.1 a.1)) g.entries;
    committed = g.committed;
  }

  extend-IsKind :
      (leader : NodeId) (replicas : Map NodeId ReplicaState) (losses : Set NodeId)
      (from to : NodeId) (kind : MessageKind)
      → IsKind h n leader replicas losses from to kind
      → IsKind (extend h n d) (suc n) leader replicas losses from to kind
  extend-IsKind leader replicas losses from to (append e) g = (g.0, extend-IsEntry e g.1)
  extend-IsKind leader replicas losses from to (ack term index) g =
      (g.0, g.1, g.2, omega (arith, g.3), g.4)
  extend-IsKind leader replicas losses from to (commit term index) g =
      (g.0, g.1, g.2, omega (arith, g.3))

  extend-IsAcknowledged :
      (s : SimCluster) (x : ℕ × Bytes)
      → IsAcknowledged h n s x
      → IsAcknowledged (extend h n d) (suc n) s x
  extend-IsAcknowledged s x a = (a.0 ∙ sym (extend-old x.0 a.1), omega (arith, a.1), a.2)

last_index-append : (m : Map ℕ LogEntry) (i : ℕ) (e : LogEntry) → last_index (m ++ (i, e) ∷ []) ≡ i
unfolding last_index
last_index-append [] i e = refl
last_index-append (x ∷ []) i e = refl
last_index-append (x ∷ y ∷ m) i e = last_index-append (y ∷ m) i e

module _ (h : ℕ → Bytes) (n : ℕ) (entry : LogEntry) (is : entry.index ≡ suc n)
    (one : entry.term ≡ 1) where
  pub new_entry : IsEntry (extend h n entry.command_digest) (suc n) entry
  new_entry = record {
    positive = omega (arith, is);
    proposed = omega (arith, is);
    term = one;
    digest = ground (arith, is);
  }

  -- The leader's log with the entry.
  grown-IsLeader :
      (r : ReplicaState)
      → IsReplica h n r
      → IsLeader n r
      → IsLeader (suc n) (record r { log = put nat_order entry.index entry r.log })
  grown-IsLeader r good lead up =
      let below : All (λ (x : ℕ × LogEntry). nat_order.lt x.0 entry.index ≡ true) r.log =
        All-map (λ (x : ℕ × LogEntry). (x.0 ≡ x.1.index) × IsEntry h n x.1)
          (λ (x : ℕ × LogEntry). nat_order.lt x.0 entry.index ≡ true) r.log
          (λ x a. let p = a.1.proposed in ground (arith, a.0, is, p)) good.entries in
      (
        ap last_index (put-last nat_order entry.index entry r.log below)
            ∙ last_index-append r.log entry.index entry
            ∙ is,
        λ i low high. elim (Bool-cases (i == suc n)) [
          | inl last ↦
              let same : i ≡ entry.index = ground (arith, last, is) in
              subst (λ k. contains_key nat_order k (put nat_order entry.index entry r.log) ≡ true)
                (sym same) (contains_key-put_self nat_order entry.index entry r.log)
          | inr old ↦
              contains_key-put nat_order i entry.index entry r.log
                ((lead up).1 i low (ground (arith, high, old)))
        ],
      )

  appended-Inv :
      (s : SimCluster) (r : ReplicaState)
      → Inv h n s
      → find bytes_order s.leader s.replicas ≡ some r
      → Inv
          (extend h n entry.command_digest)
          (suc n)
          (set_replica s.leader (record r { log = put nat_order entry.index entry r.log }) s)
  appended-Inv s r v there =
      let d = entry.command_digest in
      let replica : IsReplica h n r =
        find-All bytes_order (λ (x : NodeId × ReplicaState). IsReplica h n x.1) s.leader r
          s.replicas v.replicas there in
      let r' : ReplicaState = record r { log = put nat_order entry.index entry r.log } in
      let old = extend-IsReplica h n d r replica in
      let k =
        put-Keeps s.leader r r' s.replicas s.disk_losses there
          (λ i. contains_key-put nat_order i entry.index entry r.log) in
      record {
        replicas =
            put-All bytes_order _ s.leader r' s.replicas
              (All-map (λ (x : NodeId × ReplicaState). IsReplica h n x.1)
                (λ (x : NodeId × ReplicaState). IsReplica (extend h n d) (suc n) x.1) s.replicas
                (λ x. extend-IsReplica h n d x.1) v.replicas)
              (record {
                entries =
                    put-All nat_order
                      (λ (x : ℕ × LogEntry). (x.0 ≡ x.1.index) × IsEntry (extend h n d) (suc n) x.1)
                      entry.index entry r.log old.entries (refl, new_entry);
                committed = λ p.
                    contains_key-put nat_order r.commit_index entry.index entry r.log
                      (old.committed p);
              });
        messages = keep-IsMessage (extend h n d) (suc n) s.leader _ _ _ _ s.pending k (
            All-map (IsMessage h n s.leader s.replicas s.disk_losses)
              (IsMessage (extend h n d) (suc n) s.leader s.replicas s.disk_losses) s.pending
              (λ m. extend-IsKind h n d s.leader s.replicas s.disk_losses m.from m.to m.kind)
              v.messages);
        acks = keep-IsAcks _ _ _ _ s.acknowledgements k v.acks;
        acknowledged =
            All-map (IsAcknowledged h n s) (IsAcknowledged (extend h n d) (suc n) s) s.acknowledged
              (extend-IsAcknowledged h n d s) v.acknowledged;
        leader = λ q e.
            let same : r' ≡ q =
              ground (arith, e, find-put_self bytes_order s.leader r' s.replicas) in
            subst (IsLeader (suc n)) same (grown-IsLeader r replica (v.leader r there));
      }

-- Messages leave the replicas alone.
send_to_followers-leader :
    (rs : List ReplicaPlacement) (kind : MessageKind) (s : SimCluster)
    → find bytes_order (send_to_followers rs kind s).leader (send_to_followers rs kind s).replicas
      ≡ find bytes_order s.leader s.replicas
unfolding send_to_followers enqueue
send_to_followers-leader [] kind s = refl
send_to_followers-leader (r ∷ rs) kind s =
    if-rule
      (λ (t : SimCluster).
        find bytes_order (send_to_followers rs kind t).leader (send_to_followers rs kind t).replicas
        ≡ find bytes_order s.leader s.replicas)
      (is_voter r && not (bytes_eq r.node s.leader)) (enqueue s s.leader r.node kind) s
      (λ sent. send_to_followers-leader rs kind (enqueue s s.leader r.node kind))
      (λ skipped. send_to_followers-leader rs kind s)

proposal-LeaderUp :
    (entry : LogEntry) (leader : ReplicaState) (s : SimCluster)
    → leader.disk_present ≡ true
    → LeaderUp (proposal entry leader s)
unfolding log_trace
proposal-LeaderUp entry leader s disk q there =
    let leader' : ReplicaState = record leader {
      log = put nat_order entry.index entry leader.log;
    } in
    let same : some leader' ≡ some q =
      sym (find-put_self bytes_order s.leader leader' s.replicas)
      ∙ sym (
          send_to_followers-leader s.placement.replicas (append entry)
            (record_ack entry.index s.leader (set_replica s.leader leader' s)))
      ∙ there in
    let is : leader' ≡ q = ground (arith, same) in
    ap (λ (r : ReplicaState). r.disk_present) (sym is) ∙ disk

-- The invariant for some contents of the log.
abbrev pub IsSafe : SimCluster → Type 0
IsSafe s = (h : ℕ → Bytes) × (n : ℕ) × Inv h n s

pub record Keeping {A : Type 0} (a : Answer A) : Type 0 where
  pub safe : IsSafe a.0
  pub allowed : IsAllowed a.1

Sound-Keeping :
    (h : ℕ → Bytes) (n index : ℕ) (a : Answer (Unit {0}))
    → Sound h n a
    → Keeping (answer_index index a)
Sound-Keeping h n index (s, ok u) w = record { safe = (h, n, w.kept); allowed = tt }
Sound-Keeping h n index (s, err e) w = record { safe = (h, n, w.kept); allowed = w.allowed }

pub propose-Keeping : (command : Bytes) (s : SimCluster) → IsSafe s → Keeping (propose command s)
unfolding propose
propose-Keeping command s (h, n, v) =
    option-rule Keeping (find bytes_order s.leader s.replicas) _ _
      (λ absent. record { safe = (h, n, v); allowed = tt })
      (λ leader there.
        if-rule Keeping (not leader.online || not leader.disk_present) _ _
          (λ down. record { safe = (h, n, v); allowed = tt })
          (λ up.
            let disk : leader.disk_present ≡ true = ground (arith, up) in
            let last = (v.leader leader there disk).0 in
            let entry = entry_for command leader in
            let is : entry.index ≡ suc n = omega (arith, last) in
            let d = entry.command_digest in
            let leader' : ReplicaState = record leader {
              log = put nat_order entry.index entry leader.log;
            } in
            let appended = appended-Inv h n entry is refl s leader v there in
            let acked = record_ack-Inv (extend h n d) (suc n) _ entry.index s.leader appended (
              inr (
                leader',
                find-put_self bytes_order s.leader leader' s.replicas,
                contains_key-put_self nat_order entry.index entry leader.log,
              )) in
            let sent = log_trace-Inv (extend h n d) (suc n) (proposed entry.index) _ (
              send_to_followers-Inv (extend h n d) (suc n) s.placement.replicas (append entry) _
                acked (new_entry h n entry is refl)) in
            Sound-Keeping (extend h n d) (suc n) entry.index _ (
              maybe_commit-Sound (extend h n d) (suc n) (proposal entry leader s) entry.index sent
                (omega (arith, is)) (omega (arith, is)) (proposal-LeaderUp entry leader s disk))))
