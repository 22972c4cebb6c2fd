-- ===== src/Kv/Tests.antt =====
-- Runs of the theorems about the storage substrate. The checksum is a stand-in that counts bytes.
use native.Mathlib.Nat.{mod-lt}
use vyrm.Prelude.{
  ℕ, ◌+◌, ◌%◌, ◌^◌, ◌<◌, ◌≡◌, refl, true, false, List, [], ◌∷◌, ◌++◌, Option, none, some, ok, err,
  arith, length, All, take, digits, ◌⊎◌, ◌↔◌, In, lex_lt, IsAscending, bytes_order,
}
use vyrm.Core.Error.{Bytes}
use vyrm.Kv.Error.{poisoned_writer, Error, io}
use vyrm.Kv.Batch
use vyrm.Kv.Batch.{
  Mutation, put, delete, WriteBatch, encode, decode, header, operation_frame, validate_all,
  validate_mutation, encode_loop,
}
use vyrm.Kv.Batch.RoundTrip.{decode-encode}
use vyrm.Kv.Memtable.{
  VersionedValue, Versions, Memtable, at_sequence, push_version, apply_operations,
  apply_write_batch, get_version, get, scan, visible_versions, or_else, grown,
}
use vyrm.Kv.Memtable.Reads.{last_write, get_version-apply_write_batch}
use vyrm.Kv.Memtable.Snapshot.{snapshot-apply_write_batch}
use vyrm.Kv.Memtable.Scans.{Between, scan-get}
use vyrm.Kv.Memtable.Ordered.{IsTable, recover_from-IsTable}
use vyrm.Kv.Memtable.Recover.{
  apply, apply_all, recover_from, check_versions, check_entries, from_versions, IsEntry,
  from_versions-IsEntry,
}
use vyrm.Kv.Wal
use vyrm.Kv.Wal.{
  RecoveredBatch, WalBatch, WalWriter, buffered, authoritative, complete, failed, AppendReceipt,
  append, check_append, record_header, write_record, file_header, header_of, checksum_of, crc32c,
}
use vyrm.Kv.Wal.Recover
use vyrm.Kv.Wal.Recover.{recovery_at, repair_torn_tail_from}
use vyrm.Kv.Wal.Frames.{IsBatch}
use vyrm.Kv.Wal.Log.{IsLog, log_file, recovered_all}
use vyrm.Kv.Wal.Crash.{recover_from-log, recover_from-torn}
use vyrm.Kv.Wal.Writer.{IsWriter, IsNext, append-IsWriter, append-failed}

abbrev operations : List Mutation
operations = put (1 ∷ []) (2 ∷ []) ∷ delete (1 ∷ []) ∷ []

abbrev batch : WriteBatch
batch = record { operations = operations }

abbrev encoded : Bytes
encoded = (header 2 ++ operation_frame (put (1 ∷ []) (2 ∷ []))) ++ operation_frame (delete (1 ∷ []))

encode-batch : encode batch ≡ ok encoded
unfolding encode Batch.validate validate_all validate_mutation encode_loop operation_frame digits
encode-batch = refl

decode-encode_example : decode encoded ≡ ok batch
decode-encode_example = decode-encode batch encoded encode-batch

abbrev start : Memtable
start = record { versions = []; maximum_sequence = 0; approximate_bytes = 0 }

abbrev applied : Memtable
applied = record {
  versions = (apply_operations 32 1 operations ([], 0)).0;
  maximum_sequence = 2;
  approximate_bytes = (apply_operations 32 1 operations ([], 0)).1;
}

apply-batch : apply_write_batch 32 start batch 1 2 ≡ ok applied
unfolding apply_write_batch
apply-batch = refl

get_version-apply_write_batch_example :
    get_version applied (1 ∷ []) 1
    ≡ or_else (last_write (1 ∷ []) 1 1 operations) (get_version start (1 ∷ []) 1)
get_version-apply_write_batch_example =
    get_version-apply_write_batch 32 start applied batch 1 2 (1 ∷ []) 1 apply-batch

snapshot-apply_write_batch_example :
    ((k : Bytes) → get_version applied k 0 ≡ get_version start k 0)
    × ((k : Bytes) → get applied k 0 ≡ get start k 0)
    × ((from : Bytes) (end : Option Bytes) → scan applied from end 0 ≡ scan start from end 0)
    × (visible_versions applied 0 ≡ visible_versions start 0)
snapshot-apply_write_batch_example =
    snapshot-apply_write_batch 32 start applied batch 1 2 0 apply-batch (omega arith)

applied-ordered : IsAscending bytes_order applied.versions
unfolding apply_operations push_version lex_lt
applied-ordered = (tt, tt)

-- At 1 the put is seen, the delete is not.
scan-get_example :
    IsAscending bytes_order (scan applied (1 ∷ []) (some (2 ∷ [])) 1)
    × ((k b : Bytes)
        → In (k, b) (scan applied (1 ∷ []) (some (2 ∷ [])) 1)
          ↔ (Between (1 ∷ []) (some (2 ∷ [])) k × (get applied k 1 ≡ some b)))
    × IsAscending bytes_order (visible_versions applied 1)
    × ((k : Bytes) (v : VersionedValue)
        → In (k, v) (visible_versions applied 1) ↔ (get_version applied k 1 ≡ some v))
scan-get_example = scan-get applied (1 ∷ []) (some (2 ∷ [])) 1 applied-ordered

abbrev logged : RecoveredBatch
logged = record {
  offset = 16;
  first_sequence = 1;
  last_sequence = 2;
  checksum = 0;
  payload = encoded;
}

recover-logged : recover_from 32 (logged ∷ []) 0 ≡ ok applied
unfolding recover_from apply_all apply at_sequence
recover-logged = rw (decode-encode_example, apply-batch) refl

recover_from-IsTable_example : IsTable applied
recover_from-IsTable_example =
    recover_from-IsTable 32 (logged ∷ []) 0 applied (omega arith, tt) (omega arith) recover-logged

abbrev compacted : Versions
compacted = (1 ∷ [], record { sequence = 1; value = some (2 ∷ []) } ∷ []) ∷ []

abbrev table : Memtable
table = record {
  versions = compacted;
  maximum_sequence = 1;
  approximate_bytes = grown 32 0 (1 ∷ []) (some (2 ∷ []));
}

from-compacted : from_versions 32 compacted 1 ≡ ok table
unfolding from_versions check_entries check_versions
from-compacted = refl

from_versions-IsEntry_example :
    (table.versions ≡ compacted) × (table.maximum_sequence ≡ 1) × All (IsEntry 1) compacted
from_versions-IsEntry_example = from_versions-IsEntry 32 compacted 1 table from-compacted

abbrev count_bytes : ℕ → Bytes → ℕ
count_bytes checksum chunk = (checksum + length chunk) % 2 ^ 32

count_bytes-is_u32 : (c : ℕ) (chunk : Bytes) → count_bytes c chunk < 2 ^ 32
count_bytes-is_u32 c chunk = mod-lt (c + length chunk) (omega arith)

abbrev first : WalBatch
first = record { first_sequence = 1; last_sequence = 1; payload = 7 ∷ [] }

abbrev second : WalBatch
second = record { first_sequence = 2; last_sequence = 3; payload = 8 ∷ 9 ∷ [] }

first-IsBatch : IsBatch first
first-IsBatch = record {
  first = omega arith;
  ordered = omega arith;
  room = omega arith;
  nonempty = omega arith;
  size = omega arith;
}

second-IsBatch : IsBatch second
second-IsBatch = record {
  first = omega arith;
  ordered = omega arith;
  room = omega arith;
  nonempty = omega arith;
  size = omega arith;
}

log-IsLog : IsLog 1 (first ∷ [])
log-IsLog = (first-IsBatch, refl, tt)

abbrev log : Bytes
log = log_file count_bytes count_bytes-is_u32 (first ∷ [])

log-length : length log ≡ 49
unfolding file_header digits
log-length = refl

recover_from-log_example :
    Recover.recover_from count_bytes log 1
    ≡ ok (
        recovery_at
          (length log)
          2
          (recovered_all count_bytes count_bytes-is_u32 16 (first ∷ []))
          none)
recover_from-log_example =
    recover_from-log count_bytes count_bytes-is_u32 (first ∷ []) 1 log-IsLog (omega arith)
      (omega (arith, log-length))

abbrev torn : Bytes
torn = log ++ take 10 (header_of count_bytes second ++ second.payload)

recover_from-torn_example :
    (Recover.recover_from count_bytes torn 1
      ≡ ok (
          recovery_at
            (length log)
            2
            (recovered_all count_bytes count_bytes-is_u32 16 (first ∷ []))
            (some (length log))))
    × (repair_torn_tail_from count_bytes torn 1 ≡ (
      log,
      ok (
          recovery_at
            (length log)
            2
            (recovered_all count_bytes count_bytes-is_u32 16 (first ∷ []))
            none),
    ))
recover_from-torn_example =
    recover_from-torn count_bytes count_bytes-is_u32 (first ∷ []) second 10 1 log-IsLog
      second-IsBatch refl (omega arith) (omega arith) (omega arith) (omega (arith, log-length))

abbrev writer : WalWriter
writer = record { file = log; next_sequence = 2; poisoned = false }

abbrev writer_after : WalWriter
writer_after = record {
  file = log ++ (header_of count_bytes second ++ second.payload);
  next_sequence = 4;
  poisoned = false;
}

abbrev receipt_second : AppendReceipt
receipt_second = record {
  offset = length log;
  end_offset = length log + 32 + 2;
  first_sequence = 2;
  last_sequence = 3;
  checksum = checksum_of count_bytes second;
  durable = true;
}

writer-IsWriter : IsWriter count_bytes count_bytes-is_u32 1 (first ∷ []) writer
writer-IsWriter = record { file = refl; next = refl; log = log-IsLog; ready = refl }

append-second :
    append count_bytes writer second authoritative complete ≡ (writer_after, ok receipt_second)
unfolding append check_append Wal.validate record_header write_record
append-second = refl

append-IsWriter_example :
    IsWriter count_bytes count_bytes-is_u32 1 (first ∷ second ∷ []) writer_after
    × (length log ≡ length log)
    × (length log + 32 + 2 ≡ length (log ++ (header_of count_bytes second ++ second.payload)))
append-IsWriter_example =
    append-IsWriter count_bytes count_bytes-is_u32 1 (first ∷ []) writer writer_after second
      authoritative receipt_second writer-IsWriter (omega arith) append-second

append-failed_example :
    ((x : Error) × (check_append count_bytes writer second ≡ err x)
      × (append count_bytes writer second buffered (failed 5) ≡ (writer, err x))
      × (¬ IsNext writer second))
    ⊎ (IsNext writer second
        × ((w' : WalWriter) × (append count_bytes writer second buffered (failed 5) ≡ (w', err io))
            × (w'.file ≡ log ++ take 5 (header_of count_bytes second ++ second.payload))
            × (append count_bytes w' second buffered complete ≡ (w', err poisoned_writer))))
append-failed_example =
    append-failed count_bytes count_bytes-is_u32 writer second second buffered buffered 5 complete
      (omega arith)
