-- ===== src/Cluster/Sim/Verified.antt =====
-- sim.rs, `verify_safety`: what it checks follows from the invariant.
use mathlib.Core.Path.{Path, subst}
use vyrm.Prelude.{
  ℕ, ◌≤◌, ◌<◌, ◌≡◌, refl, sym, ap, ◌∙◌, true, false, not, ◌&&◌, ltb, leb, ◌==◌, [], ◌∷◌, some, ok,
  length, bytes_eq, bytes_eq_refl, All, All-In, In, arith, Bool-cases, Option-cases, inl, inr, ◌⊎◌,
  Map, find, contains_key, put, find-All, find-In, find-absent, missing, missing-length, missing-In,
  nat_order, bytes_order, pair_order, KeyOrder,
}
use vyrm.Core.Error.{Bytes}
use vyrm.Cluster.Error.{NodeId}
use vyrm.Cluster.Placement.{PlacementPolicy, quorum, tolerated_failures}
use vyrm.Cluster.Sim.{LogEntry, ReplicaState, Set, SimCluster}
use vyrm.Cluster.Sim.Operations.{acks_of}
use vyrm.Cluster.Sim.Safety.{
  check_commits, indexes_of, add_digest, digests_at, check_divergence, durable, check_lost,
  verify_safety,
}
use vyrm.Cluster.Sim.Invariant.{IsEntry, IsReplica, Holds, IsAcknowledged, Inv}
use vyrm.Cluster.Sim.Steps.{acks_of-IsAcks}

abbrev Replicas : (ℕ → Bytes) → ℕ → Map NodeId ReplicaState → Type 0
Replicas h n = All (λ (x : NodeId × ReplicaState). IsReplica h n x.1)

abbrev digest_order : KeyOrder (ℕ × Bytes)
digest_order = pair_order nat_order bytes_order

put-empty : (k : ℕ × Bytes) → put digest_order k tt [] ≡ (k, tt) ∷ []
unfolding put
put-empty k = refl

put-same : (k : ℕ × Bytes) → put digest_order k tt ((k, tt) ∷ []) ≡ (k, tt) ∷ []
unfolding put
put-same k = rw (digest_order.irrefl k) refl

module _ (h : ℕ → Bytes) (n : ℕ) where
  pub find-IsEntry :
      (r : ReplicaState) (index : ℕ) (e : LogEntry)
      → IsReplica h n r
      → find nat_order index r.log ≡ some e
      → (index ≡ e.index) × IsEntry h n e
  find-IsEntry r index e good found =
      find-All nat_order (λ (x : ℕ × LogEntry). (x.0 ≡ x.1.index) × IsEntry h n x.1) index e r.log
        good.entries found

  check_commits-ok : (m : Map NodeId ReplicaState) → Replicas h n m → check_commits m ≡ ok tt
  unfolding check_commits
  check_commits-ok [] a = refl
  check_commits-ok ((node, r) ∷ m) a =
      elim (Bool-cases
        (ltb 0 r.commit_index && not (contains_key nat_order r.commit_index r.log))) [
          | inl bad ↦ absurd (ground (arith, bad, a.0.committed))
          | inr good ↦ rw (good, check_commits-ok m a.1) refl
        ]

  -- What an index holds, for the entries that are there.
  abbrev AtMost : ℕ → Set (ℕ × Bytes) → Type 0
  AtMost index digests = (digests ≡ []) ⊎ (digests ≡ ((1, h index), tt) ∷ [])

  add_digest-AtMost :
      (index : ℕ) (r : ReplicaState) (digests : Set (ℕ × Bytes))
      → IsReplica h n r
      → AtMost index digests
      → AtMost index (add_digest (find nat_order index r.log) digests)
  add_digest-AtMost index r digests good so_far = elim (Option-cases (find nat_order index r.log)) [
    | inl absent ↦ rw absent so_far
    | inr (e, found) ↦
        let (key, good) = find-IsEntry r index e good found in
        let same : Path (ℕ × Bytes) (e.term, e.command_digest) (1, h index) =
          λ i. (good.term i, (good.digest ∙ ap h (sym key)) i) in
        rw found (
          subst (λ k. AtMost index (put digest_order k tt digests)) (sym same)
            (elim so_far [
              | inl e ↦ inr (ap (put digest_order (1, h index) tt) e ∙ put-empty (1, h index))
              | inr e ↦ inr (ap (put digest_order (1, h index) tt) e ∙ put-same (1, h index))
            ]))
  ]

  digests_at-AtMost :
      (index : ℕ) (m : Map NodeId ReplicaState) (digests : Set (ℕ × Bytes))
      → Replicas h n m
      → AtMost index digests
      → AtMost index (digests_at index m digests)
  unfolding digests_at
  digests_at-AtMost index [] digests a so_far = so_far
  digests_at-AtMost index ((node, r) ∷ m) digests a so_far =
      digests_at-AtMost index m _ a.1 (add_digest-AtMost index r digests a.0 so_far)

  check_divergence-ok :
      (m : Map NodeId ReplicaState) (indexes : Set ℕ)
      → Replicas h n m
      → check_divergence m indexes ≡ ok tt
  unfolding check_divergence
  check_divergence-ok m [] a = refl
  check_divergence-ok m ((index, u) ∷ indexes) a =
      let one : ltb 1 (length (digests_at index m [])) ≡ false =
        elim (digests_at-AtMost index m [] a (inl refl)) [
          | inl e ↦ ground (arith, ap length e)
          | inr e ↦ ground (arith, ap length e)
        ] in
      rw (one, check_divergence-ok m indexes a) refl

  durable-positive :
      (index : ℕ) (digest : Bytes) (node : NodeId) (r : ReplicaState) (m : Map NodeId ReplicaState)
      → Replicas h n m
      → digest ≡ h index
      → contains_key nat_order index r.log ≡ true
      → In (node, r) m
      → 1 ≤ durable index digest m
  unfolding durable
  durable-positive index digest node r [] a d has i = elim i [ ]
  durable-positive index digest node r ((other, q) ∷ m) a d has (inl e) =
      elim (Option-cases (find nat_order index q.log)) [
        | inl absent ↦ absurd (
            find-absent nat_order index q.log absent (
              ap (λ (x : NodeId × ReplicaState). contains_key nat_order index x.1.log) (sym e)
              ∙ has))
        | inr (entry, found) ↦
            let (key, good) = find-IsEntry q index entry a.0 found in
            let same : entry.command_digest ≡ digest = good.digest ∙ ap h (sym key) ∙ sym d in
            let is : bytes_eq entry.command_digest digest ≡ true = rw same (bytes_eq_refl digest) in
            ground (arith, found, is)
      ]
  durable-positive index digest node r ((other, q) ∷ m) a d has (inr i) =
      let rest = durable-positive index digest node r m a.1 d has i in omega (arith, rest)

quorum_exceeds : (p : PlacementPolicy) → tolerated_failures p < quorum p
unfolding tolerated_failures quorum
quorum_exceeds p = omega arith

module _ (h : ℕ → Bytes) (n : ℕ) (s : SimCluster) (v : Inv h n s) where
  -- A quorum outnumbers the disks that may be lost, so that one of it still holds the entry.
  pub survives :
      (index : ℕ) (digest : Bytes)
      → IsAcknowledged h n s (index, digest)
      → length s.disk_losses ≤ tolerated_failures s.placement.policy
      → 1 ≤ durable index digest s.replicas
  survives index digest a few =
      let (ascends, held) = acks_of-IsAcks h n s index v in
      elim (Option-cases (missing bytes_order (acks_of s index) s.disk_losses)) [
        | inl all_lost ↦
            let covered =
              missing-length bytes_order (acks_of s index) s.disk_losses ascends all_lost in
            absurd (omega (arith, covered, few, a.2, quorum_exceeds s.placement.policy))
        | inr (node, left) ↦
            let ((u, i), here) = missing-In bytes_order (acks_of s index) s.disk_losses node left in
            elim (All-In (λ (x : NodeId × Unit {0}). Holds s.replicas s.disk_losses index x.0)
              (acks_of s index) held i) [
                | inl lost ↦ absurd (find-absent bytes_order node s.disk_losses here lost)
                | inr (r, there, has) ↦
                    durable-positive h n index digest node r s.replicas v.replicas a.0 has
                      (find-In bytes_order node r s.replicas there)
              ]
      ]

  check_lost-ok : (m : Map ℕ Bytes) → All (IsAcknowledged h n s) m → check_lost s m ≡ ok tt
  unfolding check_lost
  check_lost-ok [] a = refl
  check_lost-ok ((index, digest) ∷ m) a =
      elim (Bool-cases (
        leb (length s.disk_losses) (tolerated_failures s.placement.policy)
        && durable index digest s.replicas == 0)) [
          | inl bad ↦
              let some_left = survives index digest a.0 (ground (arith, bad)) in
              absurd (ground (arith, bad, some_left))
          | inr good ↦ rw (good, check_lost-ok m a.1) refl
        ]

  pub verify_safety-ok : verify_safety s ≡ ok tt
  unfolding verify_safety
  verify_safety-ok =
      rw
        (
          check_commits-ok h n s.replicas v.replicas,
          check_divergence-ok h n s.replicas (indexes_of s.replicas []) v.replicas,
          check_lost-ok s.acknowledged v.acknowledged,
        )
        refl
