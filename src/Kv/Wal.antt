-- ===== src/Kv/Wal.antt =====
-- crates/vyrm-kv/src/wal.rs: the write-ahead log. A file is its bytes; what the system does with a
-- write is an argument of the operation. `crc32c::crc32c_append` is a parameter.
pub mod Recover
pub mod Frames
pub mod Recovered
pub mod Log
pub mod Crash
pub mod Writer
use vyrm.Prelude.{
  ℕ, zero, suc, ◌+◌, ◌-◌, ◌≡◌, Bool, true, false, not, ◌&&◌, ◌||◌, List, [], ◌∷◌, ◌++◌, Option,
  none, some, Result, ok, err, ◌>>=◌, ◌>>◌, fail_if, ok_or, if◌then◌else◌, ltb, leb, ◌==◌, bytes_eq,
  length, take, drop, get_or, to_be, from_be, codes, String,
}
use vyrm.Core.Error.{Bytes}
use vyrm.Kv.Error.{
  Error, Outcome, invalid_batch, unsupported_version, corruption, torn_tail, poisoned_writer, io,
  u64_max, u32_max, wal_max_payload_bytes,
}
use vyrm.Kv.Batch.{WriteBatch, encode, checked_add, checked_sum}

abbrev pub wal_format_version : ℕ
wal_format_version = 1

abbrev pub file_magic : Bytes
file_magic = codes "VYRWAL01"

abbrev pub record_magic : Bytes
record_magic = codes "VYR1"

abbrev pub file_header_bytes : ℕ
file_header_bytes = 16

abbrev pub record_header_bytes : ℕ
record_header_bytes = 32

abbrev pub record_kind_batch : ℕ
record_kind_batch = 1

pub data Durability : Type 0 where
  buffered authoritative : Durability

pub record WalBatch : Type 0 where
  pub first_sequence : ℕ
  pub last_sequence : ℕ
  pub payload : Bytes

-- `WalBatch::validate`
unfoldable pub validate : WalBatch → Outcome (Unit {0})
validate b = do
  fail_if
      (b.first_sequence == 0 || ltb b.last_sequence b.first_sequence || b.last_sequence == u64_max)
      (invalid_batch "sequence range must be non-zero, ordered, and leave room for its successor")
  fail_if (length b.payload == 0) (invalid_batch "payload must not be empty")
  fail_if (ltb wal_max_payload_bytes (length b.payload))
      (invalid_batch "payload exceeds the maximum")

pub record AppendReceipt : Type 0 where
  pub offset : ℕ
  pub end_offset : ℕ
  pub first_sequence : ℕ
  pub last_sequence : ℕ
  pub checksum : ℕ
  pub durable : Bool

pub record RecoveredBatch : Type 0 where
  pub offset : ℕ
  pub first_sequence : ℕ
  pub last_sequence : ℕ
  pub checksum : ℕ
  pub payload : Bytes

pub record Recovery : Type 0 where
  pub batches : List RecoveredBatch
  pub recovered_through : ℕ
  pub valid_bytes : ℕ
  pub torn_tail : Option ℕ

pub record WalWriter : Type 0 where
  pub file : Bytes
  pub next_sequence : ℕ
  pub poisoned : Bool

pub record DecodedHeader : Type 0 where
  pub payload_len : ℕ
  pub first_sequence : ℕ
  pub last_sequence : ℕ
  pub checksum : ℕ

-- What becomes of a write: all of it reaches the file and the call succeeds, or the call fails with
-- so many of its bytes in the file.
pub data Written : Type 0 where
  complete : Written
  failed : ℕ → Written

module _ (crc32c_append : ℕ → Bytes → ℕ) where
  unfoldable pub crc32c_from : ℕ → List Bytes → ℕ
  crc32c_from checksum [] = checksum
  crc32c_from checksum (chunk ∷ chunks) = crc32c_from (crc32c_append checksum chunk) chunks

  unfoldable pub crc32c : List Bytes → ℕ
  crc32c chunks = crc32c_from 0 chunks

  abbrev pub file_header_fields : Bytes
  file_header_fields = file_magic ++ (to_be 2 wal_format_version ++ to_be 2 file_header_bytes)

  unfoldable pub file_header : Bytes
  file_header = file_header_fields ++ to_be 4 (crc32c (file_header_fields ∷ []))

  unfoldable pub validate_file_header : Bytes → Outcome (Unit {0})
  validate_file_header header = do
    fail_if (not (bytes_eq (take 8 header) file_magic))
        (corruption 0 "WAL file magic does not match")
    fail_if (not (from_be (take 2 (drop 8 header)) == wal_format_version))
        (unsupported_version "WAL" (from_be (take 2 (drop 8 header))))
    fail_if (not (from_be (take 2 (drop 10 header)) == file_header_bytes))
        (corruption 10 "unexpected WAL header length")
    fail_if (not (crc32c (take 12 header ∷ []) == from_be (take 4 (drop 12 header))))
        (corruption 0 "WAL header checksum mismatch")

  -- `header[4..28]` of a batch.
  abbrev pub record_fields : WalBatch → Bytes
  record_fields b =
      to_be 2 wal_format_version
      ++ (record_kind_batch ∷ 0 ∷ [])
      ++ (to_be 4 (length b.payload) ++ (to_be 8 b.first_sequence ++ to_be 8 b.last_sequence))

  abbrev pub checksum_of : WalBatch → ℕ
  checksum_of b = crc32c (record_fields b ∷ b.payload ∷ [])

  abbrev pub header_of : WalBatch → Bytes
  header_of b = record_magic ++ (record_fields b ++ to_be 4 (checksum_of b))

  unfoldable pub record_header : WalBatch → Outcome Bytes
  record_header b = do
    fail_if (ltb u32_max (length b.payload)) (invalid_batch "payload length exceeds u32")
    ok (header_of b)

  unfoldable pub decode_record_header : Bytes → ℕ → Outcome DecodedHeader
  decode_record_header header offset = do
    fail_if (not (bytes_eq (take 4 header) record_magic))
        (corruption offset "record magic does not match")
    fail_if (not (from_be (take 2 (drop 4 header)) == wal_format_version))
        (unsupported_version "WAL record" (from_be (take 2 (drop 4 header))))
    fail_if (not (get_or header 6 0 == record_kind_batch) || not (get_or header 7 0 == 0))
        (corruption offset "unknown WAL record kind or flags")
    fail_if
        (from_be (take 4 (drop 8 header)) == 0
          || ltb wal_max_payload_bytes (from_be (take 4 (drop 8 header))))
        (corruption offset "invalid payload length")
    fail_if
        (from_be (take 8 (drop 12 header)) == 0
          || ltb (from_be (take 8 (drop 20 header))) (from_be (take 8 (drop 12 header))))
        (corruption offset "invalid record sequence range")
    ok (record {
      payload_len = from_be (take 4 (drop 8 header));
      first_sequence = from_be (take 8 (drop 12 header));
      last_sequence = from_be (take 8 (drop 20 header));
      checksum = from_be (take 4 (drop 28 header));
    })

  unfoldable pub create_at : ℕ → Outcome WalWriter
  create_at next_sequence = do
    fail_if (next_sequence == 0) (invalid_batch "WAL starting sequence must be non-zero")
    ok (record { file = file_header; next_sequence = next_sequence; poisoned = false })

  abbrev is_authoritative : Durability → Bool
  is_authoritative buffered = false
  is_authoritative authoritative = true

  abbrev receipt : WalWriter → WalBatch → Durability → AppendReceipt
  receipt w b durability = record {
    offset = length w.file;
    end_offset = length w.file + record_header_bytes + length b.payload;
    first_sequence = b.first_sequence;
    last_sequence = b.last_sequence;
    checksum = checksum_of b;
    durable = is_authoritative durability;
  }

  -- The write itself, and what follows it.
  unfoldable pub write_record :
      WalWriter → WalBatch → Durability → Written → WalWriter × Outcome AppendReceipt
  write_record w b durability (failed kept) =
      (record w { file = w.file ++ take kept (header_of b ++ b.payload); poisoned = true }, err io)
  write_record w b durability complete = elim (checked_add b.last_sequence 1) [
    | none ↦ (
      record w { file = w.file ++ (header_of b ++ b.payload) },
      err (invalid_batch "sequence overflow"),
    )
    | some next ↦ (
      record w { file = w.file ++ (header_of b ++ b.payload); next_sequence = next },
      ok (receipt w b durability),
    )
  ]

  -- The checks in front of the write.
  unfoldable pub check_append : WalWriter → WalBatch → Outcome Bytes
  check_append w b = do
    fail_if w.poisoned poisoned_writer
    validate b
    fail_if (not (b.first_sequence == w.next_sequence)) (invalid_batch "unexpected first sequence")
    record_header b

  unfoldable pub append :
      WalWriter → WalBatch → Durability → Written → WalWriter × Outcome AppendReceipt
  append w b durability written = elim (check_append w b) [
    | err e ↦ (w, err e)
    | ok header ↦ write_record w b durability written
  ]
