-- ===== src/Kv/Error.antt =====
-- crates/vyrm-kv/src/error.rs: the errors of the storage substrate. The reason of an error stands as
-- its text, without the numbers that the source formats into it.
use vyrm.Prelude.{ℕ, String, Result}

pub data Error : Type 0 where
  corruption : ℕ → String → Error
  unsupported_version : String → ℕ → Error
  invalid_batch : String → Error
  invalid_segment : String → Error
  torn_tail : ℕ → Error
  poisoned_writer : Error
  io : Error

-- `crate::Result`.
abbrev pub Outcome {ℓ} : Type ℓ → Type ℓ
Outcome A = Result A Error

-- The limits of the machine types.
abbrev pub u64_max : ℕ
u64_max = 18446744073709551615

abbrev pub u32_max : ℕ
u32_max = 4294967295

-- `WAL_MAX_PAYLOAD_BYTES` of wal.rs, which batch.rs shares.
abbrev pub wal_max_payload_bytes : ℕ
wal_max_payload_bytes = 16777216
