-- ===== src/Cluster/Sim/Handlers.antt =====
-- sim.rs: commits and the handlers of messages keep the invariant, and refuse nothing that was promised.
use vyrm.Prelude.{
  ℕ, ◌-◌, ◌≤◌, ◌<◌, ◌≡◌, refl, sym, ap, ◌∙◌, true, false, not, ◌&&◌, ◌||◌, ltb, ◌==◌, none, some,
  if-rule, option-rule, length, bytes_eq, bytes_eq_refl, max, arith, Bool-cases, inl, inr, Map,
  find, contains_key, put, put-All, find-All, find-put_self, find-contains_key, find-absent,
  contains_key-put_self, contains_key-put, nat_order, bytes_order,
}
use vyrm.Core.Error.{Bytes}
use vyrm.Cluster.Error.{Outcome, NodeId}
use vyrm.Cluster.Placement.{quorum}
use vyrm.Cluster.Sim.{LogEntry, ack, commit, ReplicaState, SimCluster, Answer, enqueue, set_replica}
use vyrm.Cluster.Sim.Operations.{
  acks_of, record_ack, committed, maybe_commit, same_entry, accept_append, accept_ack,
  accept_commit,
}
use vyrm.Cluster.Sim.Invariant.{IsEntry, IsReplica, Holds, IsAcknowledged, Inv, set_replica-Inv}
use vyrm.Cluster.Sim.Steps.{
  IsAllowed, enqueue-Inv, log_trace-Inv, send_to_followers-Inv, record_ack-Inv,
}

-- The leader's replica, if it is there, has its disk.
abbrev pub LeaderUp : SimCluster → Type 0
LeaderUp s =
    (r : ReplicaState) → find bytes_order s.leader s.replicas ≡ some r → r.disk_present ≡ true

module _ (h : ℕ → Bytes) (n : ℕ) where
  pub record Sound (a : Answer (Unit {0})) : Type 0 where
    pub kept : Inv h n a.0
    pub allowed : IsAllowed a.1

  abbrev pub sound :
      {s : SimCluster} {r : Outcome (Unit {0})} → Inv h n s → IsAllowed r → Sound (s, r)
  sound v a = record { kept = v; allowed = a }

  committed-Inv :
      (s : SimCluster) (index : ℕ) (leader : ReplicaState) (entry : LogEntry)
      → Inv h n s
      → find bytes_order s.leader s.replicas ≡ some leader
      → find nat_order index leader.log ≡ some entry
      → quorum s.placement.policy ≤ length (acks_of s index)
      → Inv h n (committed index entry leader s)
  committed-Inv s index leader entry v there found enough =
      let replica =
        find-All bytes_order (λ (x : NodeId × ReplicaState). IsReplica h n x.1) s.leader leader
          s.replicas v.replicas there in
      let (key, good) =
        find-All nat_order (λ (x : ℕ × LogEntry). (x.0 ≡ x.1.index) × IsEntry h n x.1) index entry
          leader.log replica.entries found in
      let noted : Inv h n
          (record s { acknowledged = put nat_order index entry.command_digest s.acknowledged }) =
        record {
          replicas = v.replicas;
          messages = v.messages;
          acks = v.acks;
          acknowledged =
              put-All nat_order (IsAcknowledged h n s) index entry.command_digest s.acknowledged
                v.acknowledged
                (good.digest ∙ ap h (sym key), omega (arith, key, good.proposed), enough);
          leader = v.leader;
        } in
      let moved =
        set_replica-Inv h n _ s.leader leader (record leader { commit_index = index }) noted there
          (record {
            entries = replica.entries;
            committed = λ p. find-contains_key nat_order index entry leader.log found;
          })
          (λ i c. c) (λ l. l) in
      log_trace-Inv h n _ _ (
        send_to_followers-Inv h n s.placement.replicas (commit entry.term index) _ moved
          (good.term, omega (arith, key, good.positive), omega (arith, key, good.proposed)))

  pub maybe_commit-Sound :
      (s : SimCluster) (index : ℕ)
      → Inv h n s
      → 1 ≤ index
      → index ≤ n
      → LeaderUp s
      → Sound (maybe_commit index s)
  unfolding maybe_commit
  maybe_commit-Sound s index v low high up =
      if-rule Sound
        (contains_key nat_order index s.acknowledged
          || ltb (length (acks_of s index)) (quorum s.placement.policy))
        _ _ (λ waits. sound v tt)
        (λ ready.
          option-rule Sound (find bytes_order s.leader s.replicas) _ _ (λ absent. sound v tt)
            (λ leader there.
              option-rule Sound (find nat_order index leader.log) _ _
                (λ gone. absurd (
                  find-absent nat_order index leader.log gone
                    ((v.leader leader there (up leader there)).1 index low high)))
                (λ entry found.
                  sound (committed-Inv s index leader entry v there found (ground (arith, ready)))
                    tt)))

  -- An entry for the next free index, taken by a follower that has its disk.
  append-Inv :
      (s : SimCluster) (to from : NodeId) (entry : LogEntry) (target : ReplicaState)
      → Inv h n s
      → find bytes_order to s.replicas ≡ some target
      → from ≡ s.leader
      → IsEntry h n entry
      → target.disk_present ≡ true
      → find nat_order entry.index target.log ≡ none
      → Inv h n (
          enqueue
            (set_replica to (record target { log = put nat_order entry.index entry target.log }) s)
            to
            from
            (ack entry.term entry.index))
  append-Inv s to from entry target v there sender good disk gone =
      let replica : IsReplica h n target =
        find-All bytes_order (λ (x : NodeId × ReplicaState). IsReplica h n x.1) to target s.replicas
          v.replicas there in
      let moved =
        set_replica-Inv h n s to target
          (record target { log = put nat_order entry.index entry target.log }) v there
          (record {
            entries =
                put-All nat_order (λ (x : ℕ × LogEntry). (x.0 ≡ x.1.index) × IsEntry h n x.1)
                  entry.index entry target.log replica.entries (refl, good);
            committed = λ p.
                contains_key-put nat_order target.commit_index entry.index entry target.log
                  (replica.committed p);
          })
          (λ i. contains_key-put nat_order i entry.index entry target.log)
          (λ l up. absurd (
            find-absent nat_order entry.index target.log gone
              ((l disk).1 entry.index good.positive good.proposed))) in
      enqueue-Inv h n _ to from (ack entry.term entry.index) moved (
        sender,
        good.term,
        good.positive,
        good.proposed,
        inr (
          _,
          find-put_self bytes_order to _ s.replicas,
          contains_key-put_self nat_order entry.index entry target.log,
        ),
      )

  -- Two entries of one index are the same.
  conflict :
      (a b : LogEntry)
      → IsEntry h n a
      → IsEntry h n b
      → a.index ≡ b.index
      → same_entry a b ≡ false
      → ⊥
  conflict a b p q e differs =
      let digests : a.command_digest ≡ b.command_digest = p.digest ∙ ap h e ∙ sym q.digest in
      let same : bytes_eq a.command_digest b.command_digest ≡ true =
        rw digests (bytes_eq_refl b.command_digest) in
      ground (arith, p.term, q.term, e, same, differs)

  contains_key-max :
      (a b : ℕ) (log : Map ℕ LogEntry)
      → (0 < a → contains_key nat_order a log ≡ true)
      → 1 ≤ b
      → contains_key nat_order b log ≡ true
      → contains_key nat_order (max a b) log ≡ true
  contains_key-max a b log f p g = elim (Bool-cases (ltb b a)) [
    | inl below ↦ let is : max a b ≡ a = ground (arith, below) in rw is (f (ground (arith, below)))
    | inr above ↦ let is : max a b ≡ b = ground (arith, above) in rw is g
  ]

  -- The handlers of the three kinds of message.
  pub accept_append-Sound :
      (s : SimCluster) (from to : NodeId) (entry : LogEntry)
      → Inv h n s
      → from ≡ s.leader
      → IsEntry h n entry
      → ((r : ReplicaState) → find bytes_order to s.replicas ≡ some r → r.disk_present ≡ true)
      → Sound (accept_append from to entry s)
  unfolding accept_append
  accept_append-Sound s from to entry v sender good up =
      option-rule Sound (find bytes_order to s.replicas) _ _ (λ absent. sound v tt)
        (λ target there.
          let replica : IsReplica h n target =
            find-All bytes_order (λ (x : NodeId × ReplicaState). IsReplica h n x.1) to target
              s.replicas v.replicas there in
          if-rule Sound
            (ltb 1 entry.index && not (contains_key nat_order (entry.index - 1) target.log)) _ _
            (λ early. sound v tt)
            (λ next.
              option-rule Sound (find nat_order entry.index target.log) _ _
                (λ gone.
                  sound
                    (append-Inv s to from entry target v there sender good (up target there) gone)
                    tt)
                (λ existing found.
                  if-rule Sound (same_entry existing entry) _ _
                    (λ same.
                      sound
                        (enqueue-Inv h n s to from (ack entry.term entry.index) v (
                          sender,
                          good.term,
                          good.positive,
                          good.proposed,
                          inr (
                            target,
                            there,
                            find-contains_key nat_order entry.index existing target.log found,
                          ),
                        ))
                        tt)
                    (λ differs.
                      let (key, stored) =
                        find-All nat_order
                          (λ (x : ℕ × LogEntry). (x.0 ≡ x.1.index) × IsEntry h n x.1) entry.index
                          existing target.log replica.entries found in
                      absurd (conflict existing entry stored good (omega (arith, key)) differs)))))

  pub accept_ack-Sound :
      (s : SimCluster) (from to : NodeId) (term index : ℕ)
      → Inv h n s
      → to ≡ s.leader
      → term ≡ 1
      → 1 ≤ index
      → index ≤ n
      → Holds s.replicas s.disk_losses index from
      → LeaderUp s
      → Sound (accept_ack from to term index s)
  unfolding accept_ack
  accept_ack-Sound s from to term index v receiver one low high holds up =
      if-rule Sound (not (term == 1) || not (bytes_eq to s.leader)) _ _
        (λ wrong. absurd (
          ground
            (arith, wrong, one, bytes_eq_refl s.leader, ap (λ t. bytes_eq t s.leader) receiver)))
        (λ right.
          maybe_commit-Sound (record_ack index from s) index
            (record_ack-Inv h n s index from v holds) low high up)

  pub accept_commit-Sound :
      (s : SimCluster) (from to : NodeId) (term index : ℕ)
      → Inv h n s
      → from ≡ s.leader
      → term ≡ 1
      → 1 ≤ index
      → Sound (accept_commit from to term index s)
  unfolding accept_commit
  accept_commit-Sound s from to term index v sender one low =
      if-rule Sound (not (term == 1) || not (bytes_eq from s.leader)) _ _
        (λ wrong. absurd (
          ground (arith, wrong, one, bytes_eq_refl s.leader, ap (λ t. bytes_eq t s.leader) sender)))
        (λ right.
          option-rule Sound (find bytes_order to s.replicas) _ _ (λ absent. sound v tt)
            (λ target there.
              let replica : IsReplica h n target =
                find-All bytes_order (λ (x : NodeId × ReplicaState). IsReplica h n x.1) to target
                  s.replicas v.replicas there in
              if-rule Sound (not (contains_key nat_order index target.log)) _ _
                (λ absent. sound v tt)
                (λ has.
                  sound
                    (set_replica-Inv h n s to target
                      (record target { commit_index = max target.commit_index index }) v there
                      (record {
                        entries = replica.entries;
                        committed = λ p.
                            contains_key-max target.commit_index index target.log replica.committed
                              low (ground (arith, has));
                      })
                      (λ i c. c) (λ l. l))
                    tt)))
