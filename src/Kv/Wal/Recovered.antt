-- ===== src/Kv/Wal/Recovered.antt =====
-- wal.rs: recovery of what was appended.
use vyrm.Prelude.{
  ℕ, suc, ◌+◌, ◌-◌, ◌^◌, ◌≤◌, ◌<◌, ◌≡◌, refl, ap, ◌∙◌, true, false, List, [], ◌∷◌, ◌++◌, some, ltb,
  ◌==◌, to_be, length, length-append, length-digits, take, drop, take-append, drop-append,
  drop-past, arith,
}
use vyrm.Core.Error.{Bytes}
use vyrm.Kv.Error.{u64_max}
use vyrm.Kv.Batch.{checked_add, checked_sum}
use vyrm.Kv.Wal.{WalBatch, RecoveredBatch, record_fields, checksum_of, header_of}
use vyrm.Kv.Wal.Recover.{payload_at, recover_loop}
use vyrm.Kv.Wal.Frames.{IsBatch, length-header_of, decoded_of, decode_record_header-header_of}

module _ (crc32c_append : ℕ → Bytes → ℕ)
    (is_u32 : (c : ℕ) (chunk : Bytes) → crc32c_append c chunk < 2 ^ 32) where
  abbrev pub frame : WalBatch → Bytes
  frame b = header_of crc32c_append b ++ b.payload

  abbrev pub recovered : ℕ → WalBatch → RecoveredBatch
  recovered offset b = record {
    offset = offset;
    first_sequence = b.first_sequence;
    last_sequence = b.last_sequence;
    checksum = checksum_of crc32c_append b;
    payload = b.payload;
  }

  fields_of-header :
      (b : WalBatch) → take 24 (drop 4 (header_of crc32c_append b)) ≡ record_fields crc32c_append b
  fields_of-header b =
      let sum = to_be 4 (checksum_of crc32c_append b) in
      take-append 24 (record_fields crc32c_append b) sum (
        omega (
          arith,
          length-header_of crc32c_append is_u32 b,
          length-append (record_fields crc32c_append b) sum,
          length-digits 256 4 (checksum_of crc32c_append b),
        ))

  -- The record of a batch at an offset of the file, whole.
  module _ (b : WalBatch) (pre rest : Bytes) (offset : ℕ) (h : IsBatch b)
      (at : length pre ≡ offset) where
    abbrev file : Bytes
    file = pre ++ (header_of crc32c_append b ++ (b.payload ++ rest))

    header_at : take 32 (drop offset file) ≡ header_of crc32c_append b
    header_at =
        ap (take 32) (drop-append offset pre (header_of crc32c_append b ++ (b.payload ++ rest)) at)
        ∙ take-append 32 (header_of crc32c_append b) (b.payload ++ rest)
            (length-header_of crc32c_append is_u32 b)

    payload_at-file : payload_at file offset (decoded_of crc32c_append is_u32 b) ≡ b.payload
    payload_at-file =
        ap (take (length b.payload)) (
          drop-past offset 32 pre (header_of crc32c_append b ++ (b.payload ++ rest)) at
          ∙ drop-append 32 (header_of crc32c_append b) (b.payload ++ rest)
              (length-header_of crc32c_append is_u32 b))
        ∙ take-append (length b.payload) b.payload rest refl

    length-file : length file ≡ offset + (32 + (length b.payload + length rest))
    length-file = omega (
      arith,
      length-append pre (header_of crc32c_append b ++ (b.payload ++ rest)),
      length-append (header_of crc32c_append b) (b.payload ++ rest),
      length-append b.payload rest,
      length-header_of crc32c_append is_u32 b,
    )

    pub recover_loop-record :
        (fuel : ℕ) (batches : List RecoveredBatch)
        → length file ≤ u64_max
        → recover_loop crc32c_append (suc fuel) file offset b.first_sequence batches
          ≡ recover_loop crc32c_append fuel file
              (offset + 32 + length b.payload)
              (b.last_sequence + 1)
              (batches ++ recovered offset b ∷ [])
    unfolding recover_loop
    recover_loop-record fuel batches fits =
        let inside : ltb offset (length file) ≡ true = ground (arith, length-file) in
        let enough : ltb (length file - offset) 32 ≡ false = ground (arith, length-file) in
        let decoded = decode_record_header-header_of crc32c_append is_u32 b offset h in
        let same : (b.first_sequence == b.first_sequence) ≡ true = ground arith in
        let end : checked_sum offset 32 (length b.payload) ≡ some (offset + 32 + length b.payload) =
          ground (arith, length-file) in
        let within : ltb (length file) (offset + 32 + length b.payload) ≡ false =
          ground (arith, length-file) in
        let sum : (checksum_of crc32c_append b == checksum_of crc32c_append b) ≡ true =
          ground arith in
        let next : checked_add b.last_sequence 1 ≡ some (b.last_sequence + 1) =
          ground (arith, h.room) in
        rw
          (
            inside,
            enough,
            header_at,
            decoded,
            same,
            end,
            within,
            fields_of-header b,
            payload_at-file,
            sum,
            next,
          )
          refl
