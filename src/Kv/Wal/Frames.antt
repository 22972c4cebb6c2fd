-- ===== src/Kv/Wal/Frames.antt =====
-- wal.rs: the headers read back what was written into them.
use mathlib.Core.List.{append-nil}
use vyrm.Prelude.{
  ℕ, ◌^◌, ◌≤◌, ◌<◌, ◌≡◌, refl, sym, ap, ◌∙◌, true, false, ◌||◌, [], ◌∷◌, ◌++◌, ok, ltb, ◌==◌,
  bytes_eq, bytes_eq_refl, length, length-append, length-digits, value_from-digits, take, drop,
  take-append, drop-append, drop-past, to_be, from_be, digits, value_from, arith,
}
use vyrm.Core.Error.{Bytes}
use vyrm.Kv.Error.{u64_max, wal_max_payload_bytes}
use vyrm.Kv.Wal.{
  WalBatch, validate, DecodedHeader, record_magic, file_magic, record_fields, checksum_of,
  header_of, decode_record_header, file_header, validate_file_header, crc32c, crc32c_from,
}

-- What an accepted batch is.
pub record IsBatch (b : WalBatch) : Type 0 where
  pub first : 0 < b.first_sequence
  pub ordered : b.first_sequence ≤ b.last_sequence
  pub room : b.last_sequence < u64_max
  pub nonempty : 0 < length b.payload
  pub size : length b.payload ≤ wal_max_payload_bytes

pub validate-IsBatch : (b : WalBatch) → b.last_sequence ≤ u64_max → validate b ≡ ok tt → IsBatch b
unfolding validate
validate-IsBatch b fits h = record {
  first = ground arith;
  ordered = ground arith;
  room = ground arith;
  nonempty = ground arith;
  size = ground arith;
}

pub IsBatch-validate : (b : WalBatch) → IsBatch b → validate b ≡ ok tt
unfolding validate
IsBatch-validate b v = ground (arith, v.first, v.ordered, v.room, v.nonempty, v.size)

read_last : (w n : ℕ) → n < 256 ^ w → from_be (take w (to_be w n)) ≡ n
read_last w n h =
    ap from_be (
      sym (ap (take w) (append-nil (to_be w n)))
      ∙ take-append w (to_be w n) [] (length-digits 256 w n))
    ∙ value_from-digits 256 w n (omega arith) h

read_field : (w n : ℕ) (rest : Bytes) → n < 256 ^ w → from_be (take w (to_be w n ++ rest)) ≡ n
read_field w n rest h =
    ap from_be (take-append w (to_be w n) rest (length-digits 256 w n))
    ∙ value_from-digits 256 w n (omega arith) h

version_field : from_be (0 ∷ 1 ∷ []) ≡ 1
unfolding value_from
version_field = refl

size_field : from_be (0 ∷ 16 ∷ []) ≡ 16
unfolding value_from
size_field = refl

module _ (crc32c_append : ℕ → Bytes → ℕ)
    (is_u32 : (c : ℕ) (chunk : Bytes) → crc32c_append c chunk < 2 ^ 32) where
  checksum-is_u32 : (b : WalBatch) → checksum_of crc32c_append b < 256 ^ 4
  unfolding crc32c crc32c_from
  checksum-is_u32 b =
      omega (arith, is_u32 (crc32c_append 0 (record_fields crc32c_append b)) b.payload)

  -- The header as the decoder cuts it.
  abbrev behind_8 : WalBatch → Bytes
  behind_8 b =
      to_be 4 (length b.payload)
      ++ (to_be 8 b.first_sequence
          ++ (to_be 8 b.last_sequence ++ to_be 4 (checksum_of crc32c_append b)))

  header-shape :
      (b : WalBatch) → header_of crc32c_append b ≡ record_magic ++ (0 ∷ 1 ∷ 1 ∷ 0 ∷ behind_8 b)
  unfolding digits value_from
  header-shape b = refl

  pub length-header_of : (b : WalBatch) → length (header_of crc32c_append b) ≡ 32
  length-header_of b =
      let n = to_be 4 (length b.payload) in
      let first = to_be 8 b.first_sequence in
      let last = to_be 8 b.last_sequence in
      let sum = to_be 4 (checksum_of crc32c_append b) in
      omega (
        arith,
        ap length (header-shape b),
        length-append n (first ++ (last ++ sum)),
        length-append first (last ++ sum),
        length-append last sum,
        length-digits 256 4 (length b.payload),
        length-digits 256 8 b.first_sequence,
        length-digits 256 8 b.last_sequence,
        length-digits 256 4 (checksum_of crc32c_append b),
      )

  abbrev pub decoded_of : WalBatch → DecodedHeader
  decoded_of b = record {
    payload_len = length b.payload;
    first_sequence = b.first_sequence;
    last_sequence = b.last_sequence;
    checksum = checksum_of crc32c_append b;
  }

  -- The header of an accepted batch decodes to the fields of the batch.
  pub decode_record_header-header_of :
      (b : WalBatch) (offset : ℕ)
      → IsBatch b
      → decode_record_header crc32c_append (header_of crc32c_append b) offset ≡ ok (decoded_of b)
  unfolding decode_record_header
  decode_record_header-header_of b offset h =
      let n = to_be 4 (length b.payload) in
      let first = to_be 8 b.first_sequence in
      let last = to_be 8 b.last_sequence in
      let sum = to_be 4 (checksum_of crc32c_append b) in
      let len_n : length n ≡ 4 = length-digits 256 4 (length b.payload) in
      let len_first : length first ≡ 8 = length-digits 256 8 b.first_sequence in
      let len_last : length last ≡ 8 = length-digits 256 8 b.last_sequence in
      let behind_4 : drop 4 (behind_8 b) ≡ first ++ (last ++ sum) = drop-append 4 n _ len_n in
      let behind_12 : drop 12 (behind_8 b) ≡ last ++ sum =
        drop-past 4 8 n _ len_n ∙ drop-append 8 first (last ++ sum) len_first in
      let behind_20 : drop 20 (behind_8 b) ≡ sum =
        drop-past 4 16 n _ len_n
        ∙ drop-past 8 8 first _ len_first
        ∙ drop-append 8 last sum len_last in
      let payload_len : from_be (take 4 (behind_8 b)) ≡ length b.payload =
        read_field 4 (length b.payload) _ (omega (arith, h.size)) in
      let first_sequence : from_be (take 8 (drop 4 (behind_8 b))) ≡ b.first_sequence =
        ap (λ r. from_be (take 8 r)) behind_4
        ∙ read_field 8 b.first_sequence _ (omega (arith, h.ordered, h.room)) in
      let last_sequence : from_be (take 8 (drop 12 (behind_8 b))) ≡ b.last_sequence =
        ap (λ r. from_be (take 8 r)) behind_12
        ∙ read_field 8 b.last_sequence _ (omega (arith, h.room)) in
      let checksum : from_be (take 4 (drop 20 (behind_8 b))) ≡ checksum_of crc32c_append b =
        ap (λ r. from_be (take 4 r)) behind_20 ∙ read_last 4 _ (checksum-is_u32 b) in
      let magic : bytes_eq record_magic record_magic ≡ true = bytes_eq_refl record_magic in
      let version : from_be (0 ∷ 1 ∷ []) ≡ 1 = version_field in
      let sized : (length b.payload == 0 || ltb wal_max_payload_bytes (length b.payload)) ≡ false =
        ground (arith, h.nonempty, h.size) in
      let numbered : (b.first_sequence == 0 || ltb b.last_sequence b.first_sequence) ≡ false =
        ground (arith, h.first, h.ordered) in
      ap (λ r. decode_record_header crc32c_append r offset) (header-shape b)
      ∙ rw (magic, version, payload_len, first_sequence, last_sequence, checksum, sized, numbered)
          refl

  abbrev header_fields : Bytes
  header_fields = file_magic ++ (0 ∷ 1 ∷ 0 ∷ 16 ∷ [])

  header_sum : ℕ
  header_sum = crc32c crc32c_append (header_fields ∷ [])

  header_sum_lem : crc32c crc32c_append (header_fields ∷ []) ≡ header_sum
  unfolding header_sum
  header_sum_lem = refl

  header_sum-is_u32 : header_sum < 256 ^ 4
  unfolding header_sum crc32c crc32c_from
  header_sum-is_u32 = omega (arith, is_u32 0 header_fields)

  file_header-shape : file_header crc32c_append ≡ header_fields ++ to_be 4 header_sum
  unfolding file_header digits header_sum
  file_header-shape = refl

  pub length-file_header : length (file_header crc32c_append) ≡ 16
  unfolding file_header digits
  length-file_header = refl

  -- The header of a file, with anything behind it, is accepted.
  pub validate_file_header-file_header :
      (rest : Bytes)
      → validate_file_header crc32c_append (take 16 (file_header crc32c_append ++ rest)) ≡ ok tt
  unfolding validate_file_header
  validate_file_header-file_header rest =
      ap (validate_file_header crc32c_append)
        (take-append 16 (file_header crc32c_append) rest length-file_header ∙ file_header-shape)
      ∙ parts
    where
      parts : validate_file_header crc32c_append (header_fields ++ to_be 4 header_sum) ≡ ok tt
      parts =
          let magic : bytes_eq file_magic file_magic ≡ true = bytes_eq_refl file_magic in
          let version : from_be (0 ∷ 1 ∷ []) ≡ 1 = version_field in
          let size : from_be (0 ∷ 16 ∷ []) ≡ 16 = size_field in
          let stored : from_be (take 4 (to_be 4 header_sum)) ≡ header_sum =
            read_last 4 header_sum header_sum-is_u32 in
          let sum : (header_sum == header_sum) ≡ true = ground arith in
          let computed : crc32c crc32c_append (header_fields ∷ []) ≡ header_sum = header_sum_lem in
          rw (magic, version, size, stored, computed, sum) refl
