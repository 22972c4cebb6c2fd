-- ===== src/Cluster/Sim/Delivery.antt =====
-- sim.rs: deliveries and faults keep the invariant, and the safety check behind them passes.
use mathlib.Core.Path.{subst}
use vyrm.Prelude.{
  ℕ, ◌≡◌, refl, sym, ap, ◌∙◌, true, not, ◌==◌, List, [], ◌∷◌, some, ok, err, option-rule, if-rule,
  All, All-append, arith, Bool-cases, inl, inr, Map, find, contains_key, put, put-All, find-All,
  find-put_self, find-put_other, contains_key-put, contains_key-put_self, key-cases, bytes_order,
}
use vyrm.Core.Error.{Bytes}
use vyrm.Cluster.Error.{NodeId}
use vyrm.Cluster.Sim.{
  MessageKind, append, ack, commit, Message, ReplicaState, TraceEntry, Set, SimCluster, Answer,
  set_replica,
}
use vyrm.Cluster.Sim.Operations.{is_up, can_deliver, find_message, remove_message, accept_kind}
use vyrm.Cluster.Sim.Safety.{
  then_verify, then_trace, and_then, deliver, deliver_each, delay_message, SimFault, partition,
  heal, delay, duplicate, deliver_one, reorder, crash, restart, clock_skew, disk_loss, lost_replica,
  handle, apply, advance,
}
use vyrm.Cluster.Sim.Invariant.{
  IsReplica, IsKind, IsMessage, IsLeader, Inv, Keeps, keep-IsMessage, keep-IsAcks, set_replica-Inv,
}
use vyrm.Cluster.Sim.Steps.{log_trace-Inv}
use vyrm.Cluster.Sim.Handlers.{
  Sound, sound, accept_append-Sound, accept_ack-Sound, accept_commit-Sound,
}
use vyrm.Cluster.Sim.Verified.{verify_safety-ok}

-- What is in transit replaced, with the clock, the numbering and the partitions.
abbrev pub with_transit : ℕ → ℕ → Set (NodeId × NodeId) → List Message → SimCluster → SimCluster
with_transit now next blocked pending s = record s {
  now = now;
  next_message_id = next;
  blocked = blocked;
  pending = pending;
}

find_message-All :
    (P : Message → Type 0) (id : ℕ) (m : Message) (ms : List Message)
    → All P ms
    → find_message id ms ≡ some m
    → P m
unfolding find_message
find_message-All P id m [] a e = absurd (ground arith)
find_message-All P id m (x ∷ ms) a e = elim (Bool-cases (x.id == id)) [
  | inl here ↦ let is : x ≡ m = ground (arith, here, e) in subst P is a.0
  | inr further ↦ find_message-All P id m ms a.1 (ground (arith, further, e))
]

remove_message-All :
    (P : Message → Type 0) (id : ℕ) (ms : List Message) → All P ms → All P (remove_message id ms)
unfolding remove_message
remove_message-All P id [] a = tt
remove_message-All P id (x ∷ ms) a = elim (Bool-cases (x.id == id)) [
  | inl here ↦ rw here a.1
  | inr further ↦ rw further (a.0, remove_message-All P id ms a.1)
]

module _ (h : ℕ → Bytes) (n : ℕ) where
  pub with_transit-Inv :
      (now next : ℕ) (blocked : Set (NodeId × NodeId)) (pending : List Message) (s : SimCluster)
      → Inv h n s
      → All (IsMessage h n s.leader s.replicas s.disk_losses) pending
      → Inv h n (with_transit now next blocked pending s)
  with_transit-Inv now next blocked pending s v a = record {
    replicas = v.replicas;
    messages = a;
    acks = v.acks;
    acknowledged = v.acknowledged;
    leader = v.leader;
  }

  delay_message-All :
      (leader : NodeId) (replicas : Map NodeId ReplicaState) (losses : Set NodeId) (id ticks : ℕ)
      (ms : List Message)
      → All (IsMessage h n leader replicas losses) ms
      → All (IsMessage h n leader replicas losses) (delay_message id ticks ms)
  unfolding delay_message
  delay_message-All leader replicas losses id ticks [] a = tt
  delay_message-All leader replicas losses id ticks (x ∷ ms) a = elim (Bool-cases (x.id == id)) [
    | inl here ↦ rw here (a.0, a.1)
    | inr further ↦ rw further (a.0, delay_message-All leader replicas losses id ticks ms a.1)
  ]

  up-disk :
      (replicas : Map NodeId ReplicaState) (node : NodeId) (r : ReplicaState)
      → is_up (find bytes_order node replicas) ≡ true
      → find bytes_order node replicas ≡ some r
      → r.disk_present ≡ true
  up-disk replicas node r up there = ground (arith, ap is_up there, up)

  -- A message is accepted where both of its ends have their disks.
  accept_kind-Sound :
      (from to : NodeId) (kind : MessageKind) (s : SimCluster)
      → Inv h n s
      → IsKind h n s.leader s.replicas s.disk_losses from to kind
      → is_up (find bytes_order to s.replicas) ≡ true
      → Sound h n (accept_kind from to kind s)
  unfolding accept_kind
  accept_kind-Sound from to (append e) s v g up =
      accept_append-Sound h n s from to e v g.0 g.1 (λ r. up-disk s.replicas to r up)
  accept_kind-Sound from to (ack term index) s v g up =
      accept_ack-Sound h n s from to term index v g.0 g.1 g.2 g.3 g.4 (λ r there.
        up-disk s.replicas to r up (ap (λ k. find bytes_order k s.replicas) g.0 ∙ there))
  accept_kind-Sound from to (commit term index) s v g up =
      accept_commit-Sound h n s from to term index v g.0 g.1 g.2

  then_trace-Sound :
      (t : TraceEntry) (a : Answer (Unit {0})) → Sound h n a → Sound h n (then_trace t a)
  then_trace-Sound t (s, ok u) w = sound h n (log_trace-Inv h n t s w.kept) tt
  then_trace-Sound t (s, err e) w = w

  pub then_verify-Sound : (a : Answer (Unit {0})) → Sound h n a → Sound h n (then_verify a)
  then_verify-Sound (s, ok u) w = record {
    kept = w.kept;
    allowed = rw (verify_safety-ok h n s w.kept) tt;
  }
  then_verify-Sound (s, err e) w = w

  pub deliver-Sound : (id : ℕ) (s : SimCluster) → Inv h n s → Sound h n (deliver id s)
  unfolding deliver
  deliver-Sound id s v =
      option-rule (Sound h n) (find_message id s.pending) _ _ (λ absent. sound h n v tt)
        (λ m found.
          if-rule (Sound h n) (can_deliver s m) _ _
            (λ ready.
              let good =
                find_message-All (IsMessage h n s.leader s.replicas s.disk_losses) id m s.pending
                  v.messages found in
              let kept =
                with_transit-Inv s.now s.next_message_id s.blocked (remove_message id s.pending) s v
                  (remove_message-All (IsMessage h n s.leader s.replicas s.disk_losses) id s.pending
                    v.messages) in
              then_verify-Sound _ (
                then_trace-Sound _ _ (
                  accept_kind-Sound m.from m.to m.kind _ kept good
                    (unfold can_deliver in ground (arith, ready)))))
            (λ waits. sound h n v tt))

  and_then-Sound :
      (a : Answer (Unit {0})) (k : SimCluster → Answer (Unit {0}))
      → Sound h n a
      → ((t : SimCluster) → Inv h n t → Sound h n (k t))
      → Sound h n (and_then a k)
  and_then-Sound (t, ok u) k w f = f t w.kept
  and_then-Sound (t, err e) k w f = w

  deliver_each-Sound : (ids : List ℕ) (s : SimCluster) → Inv h n s → Sound h n (deliver_each ids s)
  unfolding deliver_each
  deliver_each-Sound [] s v = sound h n v tt
  deliver_each-Sound (id ∷ ids) s v =
      and_then-Sound (deliver id s) (deliver_each ids) (deliver-Sound id s v)
        (deliver_each-Sound ids)

  -- A replica that is switched on or off, or whose clock moves.
  same_log-Inv :
      (node : NodeId) (r r' : ReplicaState) (s : SimCluster)
      → Inv h n s
      → find bytes_order node s.replicas ≡ some r
      → r'.log ≡ r.log
      → r'.commit_index ≡ r.commit_index
      → r'.disk_present ≡ r.disk_present
      → Inv h n (set_replica node r' s)
  same_log-Inv node r r' s v there log index disk =
      let replica =
        find-All bytes_order (λ (x : NodeId × ReplicaState). IsReplica h n x.1) node r s.replicas
          v.replicas there in
      set_replica-Inv h n s node r r' v there
        (record { entries = rw log replica.entries; committed = rw (log, index) replica.committed })
        (λ i c. rw log c) (λ l. rw (log, disk) l)

  lost-Keeps :
      (node : NodeId) (r : ReplicaState) (s : SimCluster)
      → Keeps s.replicas s.disk_losses
          (put bytes_order node r s.replicas)
          (put bytes_order node tt s.disk_losses)
  lost-Keeps node r s index other (inl lost) =
      inl (contains_key-put bytes_order other node tt s.disk_losses lost)
  lost-Keeps node r s index other (inr (q, there, has)) = elim (key-cases bytes_order other node) [
    | inl same ↦ inl (
        subst (λ k. contains_key bytes_order k (put bytes_order node tt s.disk_losses) ≡ true)
          (sym same) (contains_key-put_self bytes_order node tt s.disk_losses))
    | inr differs ↦ inr (q, find-put_other bytes_order other node r s.replicas differs ∙ there, has)
  ]

  disk_loss-Inv :
      (node : NodeId) (r : ReplicaState) (s : SimCluster)
      → Inv h n s
      → Inv h n (record (set_replica node (lost_replica r) s) {
        disk_losses = put bytes_order node tt s.disk_losses;
      })
  disk_loss-Inv node r s v =
      let k = lost-Keeps node (lost_replica r) s in
      record {
        replicas =
            put-All bytes_order (λ (x : NodeId × ReplicaState). IsReplica h n x.1) node
              (lost_replica r) s.replicas v.replicas
              (record { entries = tt; committed = λ p. absurd (omega (arith, p)) });
        messages = keep-IsMessage h n s.leader _ _ _ _ s.pending k v.messages;
        acks = keep-IsAcks _ _ _ _ s.acknowledgements k v.acks;
        acknowledged = v.acknowledged;
        leader = leads;
      }
    where
      leads :
          (q : ReplicaState)
          → find bytes_order s.leader (put bytes_order node (lost_replica r) s.replicas) ≡ some q
          → IsLeader n q
      leads q e = elim (key-cases bytes_order s.leader node) [
        | inl same ↦
            let is : lost_replica r ≡ q = ground (
              arith,
              e,
              find-put_self bytes_order node (lost_replica r) s.replicas,
              ap (λ k. find bytes_order k (put bytes_order node (lost_replica r) s.replicas)) same,
            ) in
            subst (IsLeader n) is (λ up. absurd (ground (arith, up)))
        | inr differs ↦
            v.leader q (
              sym (find-put_other bytes_order s.leader node (lost_replica r) s.replicas differs)
              ∙ e)
      ]

  pub handle-Sound : (fault : SimFault) (s : SimCluster) → Inv h n s → Sound h n (handle fault s)
  unfolding handle
  handle-Sound (partition left right) s v =
      option-rule (Sound h n) (find bytes_order left s.replicas) _ _ (λ absent. sound h n v tt)
        (λ l there.
          option-rule (Sound h n) (find bytes_order right s.replicas) _ _ (λ absent. sound h n v tt)
            (λ r here.
              sound h n
                (log_trace-Inv h n _ _
                  (with_transit-Inv s.now s.next_message_id _ s.pending s v v.messages))
                tt))
  handle-Sound (heal left right) s v =
      sound h n
        (log_trace-Inv h n _ _
          (with_transit-Inv s.now s.next_message_id _ s.pending s v v.messages))
        tt
  handle-Sound (delay id ticks) s v =
      option-rule (Sound h n) (find_message id s.pending) _ _ (λ absent. sound h n v tt)
        (λ m found.
          sound h n
            (log_trace-Inv h n _ _ (
              with_transit-Inv s.now s.next_message_id s.blocked (delay_message id ticks s.pending)
                s v
                (delay_message-All s.leader s.replicas s.disk_losses id ticks s.pending
                  v.messages)))
            tt)
  handle-Sound (duplicate id) s v =
      option-rule (Sound h n) (find_message id s.pending) _ _ (λ absent. sound h n v tt)
        (λ m found.
          let good =
            find_message-All (IsMessage h n s.leader s.replicas s.disk_losses) id m s.pending
              v.messages found in
          sound h n
            (log_trace-Inv h n _ _ (
              with_transit-Inv s.now _ s.blocked _ s v (
                All-append (IsMessage h n s.leader s.replicas s.disk_losses) s.pending _ v.messages
                  (good, tt))))
            tt)
  handle-Sound (deliver_one id) s v = deliver-Sound id s v
  handle-Sound (reorder ids) s v = deliver_each-Sound ids s v
  handle-Sound (crash node) s v =
      option-rule (Sound h n) (find bytes_order node s.replicas) _ _ (λ absent. sound h n v tt)
        (λ r there.
          sound h n (log_trace-Inv h n _ _ (same_log-Inv node r _ s v there refl refl refl)) tt)
  handle-Sound (restart node) s v =
      option-rule (Sound h n) (find bytes_order node s.replicas) _ _ (λ absent. sound h n v tt)
        (λ r there.
          if-rule (Sound h n) (not r.disk_present) _ _ (λ gone. sound h n v tt)
            (λ here.
              sound h n (log_trace-Inv h n _ _ (same_log-Inv node r _ s v there refl refl refl))
                tt))
  handle-Sound (clock_skew node offset_ms) s v =
      option-rule (Sound h n) (find bytes_order node s.replicas) _ _ (λ absent. sound h n v tt)
        (λ r there.
          sound h n (log_trace-Inv h n _ _ (same_log-Inv node r _ s v there refl refl refl)) tt)
  handle-Sound (disk_loss node) s v =
      option-rule (Sound h n) (find bytes_order node s.replicas) _ _ (λ absent. sound h n v tt)
        (λ r there. sound h n (log_trace-Inv h n _ _ (disk_loss-Inv node r s v)) tt)

  pub apply-Sound : (fault : SimFault) (s : SimCluster) → Inv h n s → Sound h n (apply fault s)
  unfolding apply
  apply-Sound fault s v = then_verify-Sound (handle fault s) (handle-Sound fault s v)

  pub advance-Inv : (ticks : ℕ) (s : SimCluster) → Inv h n s → Inv h n (advance ticks s)
  unfolding advance
  advance-Inv ticks s v =
      log_trace-Inv h n _ _
        (with_transit-Inv _ s.next_message_id s.blocked s.pending s v v.messages)
