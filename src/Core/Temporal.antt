-- ===== src/Core/Temporal.antt =====
-- crates/vyrm-core/src/temporal.rs: bi-temporal resolution over the candidates that a store yields.
pub mod Resolution
use vyrm.Prelude.{
  ℕ, zero, suc, Bool, List, [], ◌∷◌, Option, none, some, ltb, ◌==◌, if◌then◌else◌, length,
}
use vyrm.Core.Claim.{Claim, valid_at}

-- The inner loop of `resolve_as_of`: past the versions that start at one instant.
unfoldable pub skip_version : ℕ → List Claim → List Claim
skip_version valid_from [] = []
skip_version valid_from (c ∷ cs) =
    let rest = skip_version valid_from cs in if c.valid_from == valid_from then rest else c ∷ cs

-- The outer loop. Each round takes a candidate at least, so the number of candidates is enough fuel.
unfoldable pub resolve_loop : ℕ → List Claim → ℕ → Option Claim
resolve_loop zero candidates as_of = none
resolve_loop (suc fuel) [] as_of = none
resolve_loop (suc fuel) (newest_correction ∷ cs) as_of =
    let rest = resolve_loop fuel (skip_version newest_correction.valid_from cs) as_of in
    if valid_at newest_correction as_of then some newest_correction else rest

unfoldable pub resolve_as_of : List Claim → ℕ → Option Claim
resolve_as_of candidates as_of = resolve_loop (length candidates) candidates as_of

-- `claims.iter().filter(|c| c.tx_time > since)`
unfoldable pub changed_since : List Claim → ℕ → List Claim
changed_since [] since = []
changed_since (c ∷ cs) since =
    if ltb since c.tx_time then c ∷ changed_since cs since else changed_since cs since
