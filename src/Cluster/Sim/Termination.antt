-- ===== src/Cluster/Sim/Termination.antt =====
-- sim.rs, `deliver_ready`: what is in transit pays for every delivery, so that the loop ends.
use vyrm.Prelude.{ℕ, suc, ◌+◌, ◌≤◌, ◌<◌, ◌≡◌, List, [], ◌∷◌, none, ok, err, length}
use vyrm.Cluster.Sim.{MessageKind, append, ack, commit, Message, SimCluster, Answer}
use vyrm.Cluster.Sim.Ready.{next_ready}

-- What the delivery of a message may put in transit, and one for itself, among `voters` replicas.
abbrev pub cost : ℕ → MessageKind → ℕ
cost voters (append e) = voters + 2
cost voters (ack term index) = voters + 1
cost voters (commit term index) = 1

unfoldable pub weight : ℕ → List Message → ℕ
weight voters [] = 0
weight voters (m ∷ ms) = cost voters m.kind + weight voters ms

-- A cluster with no more in transit than another, but for an allowance.
pub record Grows (voters allowance : ℕ) (s t : SimCluster) : Type 0 where
  pub placement : t.placement ≡ s.placement
  pub transit : weight voters t.pending ≤ allowance + weight voters s.pending

-- A delivery that succeeds leaves less in transit.
abbrev Pays : ℕ → SimCluster → Answer (Unit {0}) → Type 0
Pays voters s (t, err e) = Unit
Pays voters s (t, ok u) =
    (t.placement ≡ s.placement) × (weight voters t.pending < weight voters s.pending)

-- The loop, once it has fuel for what is in transit, ends: with the failure of a delivery, or with
-- nothing left that can be delivered.
abbrev pub IsQuiet : Answer ℕ → Type 0
IsQuiet (t, err e) = Unit
IsQuiet (t, ok count) = next_ready t t.pending ≡ none

abbrev pub fuel_for : SimCluster → ℕ
fuel_for s = suc (weight (length s.placement.replicas) s.pending)
