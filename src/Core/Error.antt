-- ===== src/Core/Error.antt =====
-- crates/vyrm-core/src/error.rs: the kernel's errors.
use vyrm.Prelude.{ℕ, String, List, Result}

-- The UTF-8 bytes of a `String`, or the bytes of a `Vec<u8>`.
abbrev pub Bytes : Type 0
Bytes = List ℕ

pub data Error : Type 0 where
  empty_identifier : String → Error
  separator_in_identifier : String → Bytes → Error
  invalid_validity_window : ℕ → ℕ → Error
  supersession_pair_mismatch : Error
  invalid_supersession_order : Error
  malformed_key : String → Error
  sequence_overflow : Error
  invalid_runtime : String → Error

-- `crate::error::Result`.
abbrev pub Outcome {ℓ} : Type ℓ → Type ℓ
Outcome A = Result A Error
