-- ===== src/Cluster/Sim/Operations.antt =====
-- crates/vyrm-cluster/src/sim.rs: proposals, deliveries, faults, and the safety check after each.
use vyrm.Prelude.{
  ℕ, max, ◌+◌, ◌-◌, Bool, false, not, ◌&&◌, ◌||◌, List, [], ◌∷◌, Option, none, some, ok, err,
  if◌then◌else◌, option, ltb, leb, ◌==◌, length, bytes_eq, find, contains_key, put, nat_order,
  bytes_order, pair_order,
}
use vyrm.Core.Error.{Bytes}
use vyrm.Core.Digest.{sha256_hex}
use vyrm.Cluster.Error.{NodeId, denied, unavailable}
use vyrm.Cluster.Placement.{quorum}
use vyrm.Cluster.Sim.{
  LogEntry, MessageKind, append, ack, commit, Message, ReplicaState, proposed, acknowledged_at, Set,
  SimCluster, Answer, last_index, enqueue, send_to_followers, log_trace, with_replica, set_replica,
}

-- The acknowledgements of an index, `map_or(0, BTreeSet::len)` of them.
abbrev pub nodes_or_empty : Option (Set NodeId) → Set NodeId
nodes_or_empty none = []
nodes_or_empty (some nodes) = nodes

abbrev pub acks_of : SimCluster → ℕ → Set NodeId
acks_of s index = nodes_or_empty (find nat_order index s.acknowledgements)

abbrev pub record_ack : ℕ → NodeId → SimCluster → SimCluster
record_ack index node s = record s {
  acknowledgements =
      put nat_order index (put bytes_order node tt (acks_of s index)) s.acknowledgements;
}

-- What `maybe_commit` does once the quorum is there, with the leader's replica and entry.
abbrev pub committed : ℕ → LogEntry → ReplicaState → SimCluster → SimCluster
committed index entry leader s = log_trace (acknowledged_at index) (
    send_to_followers s.placement.replicas (commit entry.term index) (
      set_replica s.leader (record leader { commit_index = index })
        (record s { acknowledged = put nat_order index entry.command_digest s.acknowledged })))

unfoldable pub maybe_commit : ℕ → SimCluster → Answer (Unit {0})
maybe_commit index s =
    if contains_key nat_order index s.acknowledged
      || ltb (length (acks_of s index)) (quorum s.placement.policy)
    then (s, ok tt)
    else with_replica s s.leader (λ leader.
      option (find nat_order index leader.log) (s, err (denied "leader lost proposed entry"))
        (λ entry. (committed index entry leader s, ok tt)))

-- `propose`, up to the call of `maybe_commit`.
abbrev pub entry_for : Bytes → ReplicaState → LogEntry
entry_for command leader = record {
  term = 1;
  index = last_index leader.log + 1;
  command_digest = sha256_hex command;
}

abbrev pub proposal : LogEntry → ReplicaState → SimCluster → SimCluster
proposal entry leader s = log_trace (proposed entry.index) (
    send_to_followers s.placement.replicas (append entry) (
      record_ack entry.index s.leader (
        set_replica s.leader (record leader { log = put nat_order entry.index entry leader.log })
          s)))

abbrev pub answer_index : ℕ → Answer (Unit {0}) → Answer ℕ
answer_index index (s, err e) = (s, err e)
answer_index index (s, ok u) = (s, ok index)

unfoldable pub propose : Bytes → SimCluster → Answer ℕ
propose command s = with_replica s s.leader (λ leader.
    if not leader.online || not leader.disk_present
    then (s, err (unavailable "leader cannot durably accept a proposal"))
    else answer_index (last_index leader.log + 1)
        (maybe_commit (last_index leader.log + 1) (proposal (entry_for command leader) leader s)))

abbrev pub is_up : Option ReplicaState → Bool
is_up none = false
is_up (some r) = r.online && r.disk_present

unfoldable pub can_deliver : SimCluster → Message → Bool
can_deliver s m =
    leb m.deliver_at s.now
    && is_up (find bytes_order m.from s.replicas)
    && is_up (find bytes_order m.to s.replicas)
    && not (contains_key (pair_order bytes_order bytes_order) (m.from, m.to) s.blocked)

unfoldable pub find_message : ℕ → List Message → Option Message
find_message id [] = none
find_message id (m ∷ ms) = if m.id == id then some m else find_message id ms

-- `remove(position)` of the first message with the number.
unfoldable pub remove_message : ℕ → List Message → List Message
remove_message id [] = []
remove_message id (m ∷ ms) = if m.id == id then ms else m ∷ remove_message id ms

abbrev pub same_entry : LogEntry → LogEntry → Bool
same_entry a b =
    a.term == b.term && a.index == b.index && bytes_eq a.command_digest b.command_digest

unfoldable pub accept_append : NodeId → NodeId → LogEntry → SimCluster → Answer (Unit {0})
accept_append from to entry s = with_replica s to (λ target.
    if ltb 1 entry.index && not (contains_key nat_order (entry.index - 1) target.log)
    then (s, err (unavailable "replica rejected out-of-order index"))
    else option (find nat_order entry.index target.log)
        (
          enqueue
              (set_replica to (record target { log = put nat_order entry.index entry target.log })
                s)
              to from (ack entry.term entry.index),
          ok tt,
        )
        (λ existing.
          if same_entry existing entry
          then (enqueue s to from (ack entry.term entry.index), ok tt)
          else (s, err (denied "conflicting duplicate"))))

unfoldable pub accept_ack : NodeId → NodeId → ℕ → ℕ → SimCluster → Answer (Unit {0})
accept_ack from to term index s =
    if not (term == 1) || not (bytes_eq to s.leader)
    then (s, err (denied "invalid acknowledgement route"))
    else maybe_commit index (record_ack index from s)

unfoldable pub accept_commit : NodeId → NodeId → ℕ → ℕ → SimCluster → Answer (Unit {0})
accept_commit from to term index s =
    if not (term == 1) || not (bytes_eq from s.leader)
    then (s, err (denied "invalid commit route"))
    else with_replica s to (λ target.
      if not (contains_key nat_order index target.log)
      then (s, err (unavailable "replica cannot commit absent index"))
      else (
        set_replica to (record target { commit_index = max target.commit_index index }) s,
        ok tt,
      ))

unfoldable pub accept_kind : NodeId → NodeId → MessageKind → SimCluster → Answer (Unit {0})
accept_kind from to (append entry) s = accept_append from to entry s
accept_kind from to (ack term index) s = accept_ack from to term index s
accept_kind from to (commit term index) s = accept_commit from to term index s

abbrev pub accept : Message → SimCluster → Answer (Unit {0})
accept m s = accept_kind m.from m.to m.kind s
