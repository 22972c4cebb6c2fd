-- ===== src/Cluster/Error.antt =====
-- crates/vyrm-cluster/src/contract.rs: the errors and the identifiers of the cluster. The reason of an
-- error stands as its fixed text.
use vyrm.Prelude.{
  ℕ, ◌||◌, ◌==◌, Bool, false, [], ◌∷◌, String, Result, ok, err, if◌then◌else◌, ltb, length,
}
use vyrm.Core.Error.{Bytes}

pub data ClusterError : Type 0 where
  invalid : String → ClusterError
  denied : String → ClusterError
  unavailable : String → ClusterError
  not_found : String → ClusterError

abbrev pub Outcome {ℓ} : Type ℓ → Type ℓ
Outcome A = Result A ClusterError

-- `ClusterId`, `NodeId` and `ZoneId`, as their text.
abbrev pub NodeId : Type 0
NodeId = Bytes

abbrev pub ZoneId : Type 0
ZoneId = Bytes

abbrev pub ClusterId : Type 0
ClusterId = Bytes

abbrev pub ShardId : Type 0
ShardId = ℕ

abbrev has_nul : Bytes → Bool
has_nul [] = false
has_nul (b ∷ bs) = b == 0 || has_nul bs

-- `string_id!`'s `new`
unfoldable pub new_id : Bytes → Outcome Bytes
new_id value =
    if length value == 0 || ltb 128 (length value) || has_nul value
    then err (invalid "identifier must contain 1..=128 non-NUL bytes")
    else ok value
