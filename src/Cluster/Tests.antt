-- ===== src/Cluster/Tests.antt =====
-- crates/vyrm-cluster: runs of the contracts and of the simulator.
use vyrm.Prelude.{
  ℕ, ◌≤◌, ◌≡◌, ◌≢◌, refl, [], ◌∷◌, some, ok, err, length, codes, find, put, nat_order, bytes_order,
  lex_lt, bytes_eq, arith, contains_key, digits, value_from,
}
use vyrm.Core.Error.{Bytes}
use vyrm.Core.Digest.{
  absorb, absorb_input, compress, copy_at, fill_zero, finalize, hex, output, sha256, sha256_hex,
  update_blocks, update_buffered,
}
use vyrm.Cluster.Error.{NodeId, denied}
use vyrm.Cluster.Placement.{
  ReplicaPlacement, ShardPlacement, voter, validate_placement, validate_policy, out_of_order,
  voters_of, per_zone, tolerated_failures, quorum,
}
use vyrm.Cluster.Contract.{
  ShardReadStamp, SnapshotVector, equal, validate_vector, validate_stamps, validate_stamp,
  is_sha256, same_keys, relation_loop, compare_stamps, relation,
}
use vyrm.Cluster.Contract.Vectors.{flipped, relation-flip}
use vyrm.Cluster.Sim.{
  SimCluster, LogEntry, ReplicaState, fresh_replica, new, initial, placed, fresh_replicas,
  log_trace, send_to_followers, enqueue, last_index,
}
use vyrm.Cluster.Sim.Operations.{
  propose, find_message, maybe_commit, accept_ack, accept_append, accept_kind, can_deliver,
  remove_message,
}
use vyrm.Cluster.Sim.Safety.{
  verify_safety, durable, apply, handle, deliver, check_commits, check_divergence, check_lost,
  digests_at, indexes_of, keys_into, disk_loss, deliver_one,
}
use vyrm.Cluster.Sim.Ready.{standard_three_zone_policy}
use vyrm.Cluster.Sim.Reachable.{Reach, started, proposing, applying}
use vyrm.Cluster.Sim.Promises.{
  Reach-verify_safety, Reach-not_denied, Reach-agreement, Reach-durable,
}

abbrev replica : NodeId → NodeId → ReplicaPlacement
replica node zone = record { node = node; zone = zone; role = voter }

abbrev placement : ShardPlacement
placement = record {
  contract_version = 1;
  cluster = codes "c";
  shard = 1;
  epoch = 1;
  policy = standard_three_zone_policy;
  replicas =
      replica (codes "a") (codes "x")
      ∷ replica (codes "b") (codes "y")
      ∷ replica (codes "c") (codes "z")
      ∷ [];
}

abbrev first : SimCluster
first = initial 41 placement (codes "a")

first_new : new 41 placement (codes "a") ≡ ok first
unfolding new validate_placement validate_policy out_of_order lex_lt voters_of per_zone placed put
    find bytes_eq
first_new = refl

abbrev command : Bytes
command = codes "put"

-- The command proposed, then stored by the node b, whose answer is the second of a quorum.
abbrev sent : SimCluster
sent = (propose command first).0

abbrev stored : SimCluster
stored = (apply (deliver_one 1) sent).0

abbrev answered : SimCluster
answered = (apply (deliver_one 3) stored).0

sent_Reach : Reach sent
sent_Reach = proposing first command (started 41 placement (codes "a") first first_new)

stored_Reach : Reach stored
stored_Reach = applying sent (deliver_one 1) sent_Reach

answered_Reach : Reach answered
answered_Reach = applying stored (deliver_one 3) stored_Reach

Reach-verify_safety_example : verify_safety (apply (disk_loss (codes "c")) answered).0 ≡ ok tt
Reach-verify_safety_example =
    Reach-verify_safety (apply (disk_loss (codes "c")) answered).0
      (applying answered (disk_loss (codes "c")) answered_Reach)

Reach-not_denied_example :
    ((propose command stored).1 ≢ err (denied "conflicting duplicate"))
    × ((apply (deliver_one 2) stored).1 ≢ err (denied "conflicting duplicate"))
Reach-not_denied_example =
    Reach-not_denied stored command (deliver_one 2) "conflicting duplicate" stored_Reach

abbrev entry : LogEntry
entry = record { term = 1; index = 1; command_digest = sha256_hex command }

abbrev with_entry : ReplicaState
with_entry = record fresh_replica { log = (1, entry) ∷ [] }

stored_a : find bytes_order (codes "a") stored.replicas ≡ some with_entry
unfolding find apply handle deliver find_message propose fresh_replicas put lex_lt maybe_commit
    contains_key log_trace send_to_followers bytes_eq enqueue last_index quorum tolerated_failures
    accept_ack accept_append accept_kind can_deliver remove_message check_commits check_divergence
    check_lost digests_at durable indexes_of keys_into verify_safety absorb absorb_input compress
    copy_at fill_zero finalize hex vyrm.Core.Digest.new output sha256 sha256_hex update_blocks
    update_buffered digits value_from mathlib.Core.List.flatten mathlib.Core.List.zip
stored_a = refl

stored_b : find bytes_order (codes "b") stored.replicas ≡ some with_entry
unfolding find apply handle deliver find_message propose fresh_replicas put lex_lt maybe_commit
    contains_key log_trace send_to_followers bytes_eq enqueue last_index quorum tolerated_failures
    accept_ack accept_append accept_kind can_deliver remove_message check_commits check_divergence
    check_lost digests_at durable indexes_of keys_into verify_safety absorb absorb_input compress
    copy_at fill_zero finalize hex vyrm.Core.Digest.new output sha256 sha256_hex update_blocks
    update_buffered digits value_from mathlib.Core.List.flatten mathlib.Core.List.zip
stored_b = refl

logged : find nat_order 1 with_entry.log ≡ some entry
unfolding find
logged = refl

Reach-agreement_example : entry ≡ entry
Reach-agreement_example =
    Reach-agreement stored (codes "a") (codes "b") with_entry with_entry 1 entry entry stored_Reach
      stored_a stored_b logged logged

acknowledged : find nat_order 1 answered.acknowledged ≡ some (sha256_hex command)
unfolding find apply handle deliver find_message propose fresh_replicas put lex_lt maybe_commit
    contains_key log_trace send_to_followers bytes_eq enqueue last_index quorum tolerated_failures
    accept_ack accept_append accept_kind can_deliver remove_message check_commits check_divergence
    check_lost digests_at durable indexes_of keys_into verify_safety absorb absorb_input compress
    copy_at fill_zero finalize hex vyrm.Core.Digest.new output sha256 sha256_hex update_blocks
    update_buffered digits value_from mathlib.Core.List.flatten mathlib.Core.List.zip
acknowledged = refl

few_losses : length answered.disk_losses ≤ tolerated_failures answered.placement.policy
unfolding find apply handle deliver find_message propose fresh_replicas put lex_lt maybe_commit
    contains_key log_trace send_to_followers bytes_eq enqueue last_index quorum tolerated_failures
    accept_ack accept_append accept_kind can_deliver remove_message check_commits check_divergence
    check_lost digests_at durable indexes_of keys_into verify_safety absorb absorb_input compress
    copy_at fill_zero finalize hex vyrm.Core.Digest.new output sha256 sha256_hex update_blocks
    update_buffered digits value_from mathlib.Core.List.flatten mathlib.Core.List.zip
few_losses = omega arith

Reach-durable_example : 1 ≤ durable 1 (sha256_hex command) answered.replicas
Reach-durable_example =
    Reach-durable answered 1 (sha256_hex command) answered_Reach acknowledged few_losses

abbrev stamp : ℕ → ShardReadStamp
stamp index = record {
  term = 1;
  commit_index = index;
  placement_epoch = 1;
  state_digest = codes "0000000000000000000000000000000000000000000000000000000000000000";
}

abbrev vector : ℕ → ℕ → SnapshotVector
vector a b = record {
  contract_version = 1;
  scope = codes "s";
  shards = (1, stamp a) ∷ (2, stamp b) ∷ [];
}

vector_valid : validate_vector (vector 1 2) ≡ ok tt
unfolding validate_vector validate_stamps validate_stamp is_sha256
vector_valid = refl

vector_later : validate_vector (vector 2 2) ≡ ok tt
unfolding validate_vector validate_stamps validate_stamp is_sha256
vector_later = refl

vector_same : relation (vector 1 2) (vector 1 2) ≡ ok equal
unfolding relation validate_vector validate_stamps validate_stamp is_sha256 bytes_eq same_keys
    relation_loop find compare_stamps
vector_same = refl

relation-flip_example :
    relation (vector 2 2) (vector 1 2) ≡ flipped (relation (vector 1 2) (vector 2 2))
relation-flip_example =
    relation-flip (vector 1 2) (vector 2 2) vector_valid vector_later ((refl, tt), (tt, tt))
      ((refl, tt), (tt, tt))
