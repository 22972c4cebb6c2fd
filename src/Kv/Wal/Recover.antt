-- ===== src/Kv/Wal/Recover.antt =====
-- wal.rs: recovery, repair and reopening.
use vyrm.Prelude.{
  ℕ, zero, suc, ◌+◌, ◌-◌, ◌%◌, false, not, List, [], ◌∷◌, ◌++◌, Option, none, some, ok, err, ◌>>=◌,
  ◌>>◌, fail_if, ok_or, if◌then◌else◌, ltb, ◌==◌, length, take, drop,
}
use vyrm.Core.Error.{Bytes}
use vyrm.Kv.Error.{Outcome, invalid_batch, corruption, torn_tail, u64_max}
use vyrm.Kv.Batch.{WriteBatch, encode, checked_add, checked_sum}
use vyrm.Kv.Wal.{
  RecoveredBatch, Recovery, WalWriter, Durability, Written, AppendReceipt, file_header_bytes,
  record_header_bytes, DecodedHeader, crc32c, validate_file_header, decode_record_header, append,
}

abbrev pub recovery_at : ℕ → ℕ → List RecoveredBatch → Option ℕ → Recovery
recovery_at offset expected_sequence batches torn = record {
  batches = batches;
  recovered_through = expected_sequence - 1;
  valid_bytes = offset;
  torn_tail = torn;
}

-- `header[4..28]` and the payload of the record at an offset.
abbrev pub fields_at : Bytes → ℕ → Bytes
fields_at file offset = take 24 (drop 4 (take record_header_bytes (drop offset file)))

abbrev pub payload_at : Bytes → ℕ → DecodedHeader → Bytes
payload_at file offset decoded = take decoded.payload_len (drop (offset + record_header_bytes) file)

abbrev pub record_at : Bytes → ℕ → DecodedHeader → RecoveredBatch
record_at file offset decoded = record {
  offset = offset;
  first_sequence = decoded.first_sequence;
  last_sequence = decoded.last_sequence;
  checksum = decoded.checksum;
  payload = payload_at file offset decoded;
}

module _ (crc32c_append : ℕ → Bytes → ℕ) where
  -- The loop of `recover_from`. Each round takes the bytes of a record, so the length of the file is
  -- enough fuel.
  unfoldable pub recover_loop : ℕ → Bytes → ℕ → ℕ → List RecoveredBatch → Outcome Recovery
  recover_loop zero file offset expected_sequence batches =
      ok (recovery_at offset expected_sequence batches none)
  recover_loop (suc fuel) file offset expected_sequence batches =
      if not (ltb offset (length file))
      then ok (recovery_at offset expected_sequence batches none)
      else if ltb (length file - offset) record_header_bytes
      then ok (recovery_at offset expected_sequence batches (some offset))
      else (do
        decoded ←
            decode_record_header crc32c_append (take record_header_bytes (drop offset file)) offset
        fail_if (not (decoded.first_sequence == expected_sequence))
            (corruption offset "non-contiguous sequence")
        end ←
            ok_or (checked_sum offset record_header_bytes decoded.payload_len)
              (corruption offset "record length overflow")
        (let rest = λ (next : ℕ).
              recover_loop fuel file end next (batches ++ record_at file offset decoded ∷ []) in
            if ltb (length file) end
            then ok (recovery_at offset expected_sequence batches (some offset))
            else (do
              fail_if
                  (not (
                    crc32c crc32c_append
                      (fields_at file offset ∷ payload_at file offset decoded ∷ [])
                    == decoded.checksum))
                  (corruption offset "checksum mismatch")
              next ←
                  ok_or (checked_add decoded.last_sequence 1)
                    (corruption offset "sequence overflow")
              rest next)))

  unfoldable pub recover_from : Bytes → ℕ → Outcome Recovery
  recover_from file starting_sequence = do
    fail_if (starting_sequence == 0) (invalid_batch "WAL recovery sequence must be non-zero")
    fail_if (ltb (length file) file_header_bytes) (corruption 0 "incomplete WAL file header")
    validate_file_header crc32c_append (take file_header_bytes file)
    recover_loop (length file) file file_header_bytes starting_sequence []

  abbrev truncated : Bytes → Recovery → Bytes
  truncated file recovery = elim recovery.torn_tail [
    | none ↦ file
    | some offset ↦ take recovery.valid_bytes file
  ]

  abbrev recover_again : Bytes → ℕ → Recovery → Outcome Recovery
  recover_again file starting_sequence recovery = elim recovery.torn_tail [
    | none ↦ ok recovery
    | some offset ↦ recover_from (take recovery.valid_bytes file) starting_sequence
  ]

  -- `repair_torn_tail_from`: the file that it leaves, and what it returns.
  unfoldable pub repair_torn_tail_from : Bytes → ℕ → Bytes × Outcome Recovery
  repair_torn_tail_from file starting_sequence = elim (recover_from file starting_sequence) [
    | err e ↦ (file, err e)
    | ok recovery ↦ (truncated file recovery, recover_again file starting_sequence recovery)
  ]

  abbrev reopened : Bytes → Recovery → Outcome WalWriter
  reopened file recovery = do
    next ← ok_or (checked_add recovery.recovered_through 1) (invalid_batch "sequence overflow")
    ok (record { file = file; next_sequence = next; poisoned = false })

  unfoldable pub open_at : Bytes → ℕ → Outcome WalWriter
  open_at file starting_sequence = do
    recovery ← recover_from file starting_sequence
    elim recovery.torn_tail [ none ↦ reopened file recovery | some offset ↦ err (torn_tail offset) ]

  -- The count less one wraps at zero, as in a release build.
  unfoldable pub append_encoded_write_batch :
      WalWriter → WriteBatch → Bytes → Durability → Written → WalWriter × Outcome AppendReceipt
  append_encoded_write_batch w batch payload durability written =
      elim (checked_add w.next_sequence ((length batch.operations + u64_max) % suc u64_max)) [
        | none ↦ (w, err (invalid_batch "sequence range overflow"))
        | some last ↦
            append crc32c_append w
              (record { first_sequence = w.next_sequence; last_sequence = last; payload = payload })
              durability written
      ]

  unfoldable pub append_write_batch :
      WalWriter → WriteBatch → Durability → Written → WalWriter × Outcome AppendReceipt
  append_write_batch w batch durability written = elim (encode batch) [
    | err e ↦ (w, err e)
    | ok payload ↦ append_encoded_write_batch w batch payload durability written
  ]
