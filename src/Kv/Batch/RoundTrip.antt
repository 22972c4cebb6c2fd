-- ===== src/Kv/Batch/RoundTrip.antt =====
-- batch.rs: decoding reads back what encoding wrote.
use mathlib.Core.List.{append_assoc, append-nil}
use mathlib.Core.Path.{subst}
use vyrm.Prelude.{
  ℕ, ◌+◌, ◌-◌, ◌^◌, ◌≤◌, ◌<◌, ◌≡◌, refl, sym, ap, ap₂, ◌∙◌, true, false, ◌||◌, List, [], ◌∷◌, ◌++◌,
  some, ok, ltb, ◌==◌, bytes_eq, bytes_eq_refl, length, length-append, length-digits,
  value_from-digits, take, drop, take-append, drop-append, to_be, from_be, digits, value_from,
  arith,
}
use vyrm.Core.Error.{Bytes}
use vyrm.Kv.Error.{u64_max, wal_max_payload_bytes}
use vyrm.Kv.Batch.{
  Mutation, put, delete, key, value_of, kind_of, WriteBatch, validate_mutation, validate_all,
  validate, new, op_header_bytes, operation_frame, encode_loop, header, batch_magic, encode, slice,
  checked_add, checked_sum, operation_of, decode_body, decode_operation, decode_loop, decode,
}

-- The part in the middle, by its bounds.
slice-middle :
    (pre mid rest : Bytes) (from to : ℕ)
    → length pre ≡ from
    → from + length mid ≡ to
    → slice (pre ++ (mid ++ rest)) from to ≡ some mid
slice-middle pre mid rest from to hf ht =
    let total : length (pre ++ (mid ++ rest)) ≡ from + (length mid + length rest) =
      omega (arith, length-append pre (mid ++ rest), length-append mid rest) in
    let middle : take (to - from) (drop from (pre ++ (mid ++ rest))) ≡ mid =
      ap (take (to - from)) (drop-append from pre (mid ++ rest) hf)
      ∙ take-append (to - from) mid rest (omega arith) in
    rw middle (ground arith)

read_word : (n : ℕ) → n < 2 ^ 32 → from_be (to_be 4 n) ≡ n
read_word n h = value_from-digits 256 4 n (omega arith) (omega arith)

-- The twelve bytes in front of a key and a value.
abbrev frame_header : Mutation → Bytes
frame_header op =
    kind_of op ∷ 0 ∷ 0 ∷ 0 ∷ (to_be 4 (length (key op)) ++ to_be 4 (length (value_of op)))

frame-split : (op : Mutation) → operation_frame op ≡ frame_header op ++ (key op ++ value_of op)
unfolding operation_frame
frame-split op =
    ap (λ bytes. kind_of op ∷ 0 ∷ 0 ∷ 0 ∷ bytes)
      (sym (
        append_assoc (to_be 4 (length (key op))) (to_be 4 (length (value_of op)))
          (key op ++ value_of op)))

length-frame_header : (op : Mutation) → length (frame_header op) ≡ 12
length-frame_header op = omega (
  arith,
  length-append (to_be 4 (length (key op))) (to_be 4 (length (value_of op))),
  length-digits 256 4 (length (key op)),
  length-digits 256 4 (length (value_of op)),
)

-- The two length fields.
frame_header-fields :
    (op : Mutation)
    → length (key op) < 2 ^ 32
    → length (value_of op) < 2 ^ 32
    → (from_be (take 4 (drop 4 (frame_header op))) ≡ length (key op))
      × (from_be (take 4 (drop 8 (frame_header op))) ≡ length (value_of op))
frame_header-fields op hk hv =
    let k = to_be 4 (length (key op)) in
    let v = to_be 4 (length (value_of op)) in
    let lk : length k ≡ 4 = length-digits 256 4 (length (key op)) in
    let lv : length v ≡ 4 = length-digits 256 4 (length (value_of op)) in
    (
      ap from_be (take-append 4 k v lk) ∙ read_word _ hk,
      ap from_be (
            ap (take 4) (drop-append 4 k v lk)
            ∙ sym (ap (take 4) (append-nil v))
            ∙ take-append 4 v [] lv)
          ∙ read_word _ hv,
    )

record IsMutation (op : Mutation) : Type 0 where
  nonempty : 0 < length (key op)
  key : length (key op) ≤ 1048576
  value : length (value_of op) ≤ 8388608

validate_mutation-IsMutation : (op : Mutation) → validate_mutation op ≡ ok tt → IsMutation op
unfolding validate_mutation
validate_mutation-IsMutation (put k v) h = record {
  nonempty = ground arith;
  key = ground arith;
  value = ground arith;
}
validate_mutation-IsMutation (delete k) h = record {
  nonempty = ground arith;
  key = ground arith;
  value = omega arith;
}

operation_of-kind_of : (op : Mutation) → operation_of (kind_of op) (key op) (value_of op) ≡ ok op
unfolding operation_of
operation_of-kind_of (put k v) = refl
operation_of-kind_of (delete k) = refl

decode_body-frame :
    (op : Mutation) (pre rest : Bytes) (cursor : ℕ)
    → IsMutation op
    → length pre ≡ cursor
    → cursor + length (key op) + length (value_of op) ≤ u64_max
    → decode_body
        (pre ++ ((key op ++ value_of op) ++ rest))
        cursor
        (kind_of op)
        (length (key op))
        (length (value_of op))
      ≡ ok (op, cursor + length (key op) + length (value_of op))
unfolding decode_body
decode_body-frame op pre rest cursor h hc fits =
    let size = length-append (key op) (value_of op) in
    let body =
      slice-middle pre (key op ++ value_of op) rest cursor
        (cursor + length (key op) + length (value_of op)) hc (omega (arith, size)) in
    let front = take-append (length (key op)) (key op) (value_of op) refl in
    let back = drop-append (length (key op)) (key op) (value_of op) refl in
    let sum : checked_sum cursor (length (key op)) (length (value_of op))
        ≡ some (cursor + length (key op) + length (value_of op)) =
      ground arith in
    let accepted : (length (key op) == 0
          || ltb 1048576 (length (key op))
          || ltb 8388608 (length (value_of op)))
        ≡ false =
      ground (arith, h.nonempty, h.key, h.value) in
    rw (accepted, sum, body, front, back, operation_of-kind_of op) refl

decode_operation-frame :
    (op : Mutation) (pre rest : Bytes) (cursor : ℕ)
    → IsMutation op
    → length pre ≡ cursor
    → cursor + length (operation_frame op) ≤ u64_max
    → decode_operation (pre ++ (operation_frame op ++ rest)) cursor
      ≡ ok (op, cursor + length (operation_frame op))
unfolding decode_operation
decode_operation-frame op pre rest cursor h hc fits =
    let size : length (operation_frame op) ≡ 12 + (length (key op) + length (value_of op)) =
      ap length (frame-split op)
      ∙ length-append (frame_header op) (key op ++ value_of op)
      ∙ ap₂ (◌+◌) (length-frame_header op) (length-append (key op) (value_of op)) in
    let shape : operation_frame op ++ rest ≡ frame_header op ++ ((key op ++ value_of op) ++ rest) =
      ap (λ f. f ++ rest) (frame-split op)
      ∙ append_assoc (frame_header op) (key op ++ value_of op) rest in
    let room : checked_add cursor op_header_bytes ≡ some (cursor + 12) = ground arith in
    let head =
      slice-middle pre (frame_header op) ((key op ++ value_of op) ++ rest) cursor (cursor + 12) hc
        (omega (arith, length-frame_header op)) in
    let (klen, vlen) = frame_header-fields op (omega (arith, h.key)) (omega (arith, h.value)) in
    let behind : length (pre ++ frame_header op) ≡ cursor + 12 =
      omega (arith, length-append pre (frame_header op), length-frame_header op) in
    let body =
      decode_body-frame op (pre ++ frame_header op) rest (cursor + 12) h behind (omega arith) in
    let flags : bytes_eq (0 ∷ 0 ∷ 0 ∷ []) (0 ∷ 0 ∷ 0 ∷ []) ≡ true =
      bytes_eq_refl (0 ∷ 0 ∷ 0 ∷ []) in
    rw shape (
      rw (room, head, flags, klen, vlen)
        (ap
            (λ bytes.
              decode_body bytes (cursor + 12) (kind_of op) (length (key op)) (length (value_of op)))
            (sym (append_assoc pre (frame_header op) ((key op ++ value_of op) ++ rest)))
          ∙ body
          ∙ ap (λ (end : ℕ). ok (op, end)) (omega arith)))

abbrev frames : List Mutation → Bytes
frames [] = []
frames (op ∷ ops) = operation_frame op ++ frames ops

decode_loop-frames :
    (ops : List Mutation) (pre : Bytes) (cursor : ℕ)
    → validate_all ops ≡ ok tt
    → length pre ≡ cursor
    → cursor + length (frames ops) ≤ u64_max
    → decode_loop (pre ++ frames ops) cursor (length ops) ≡ ok (ops, cursor + length (frames ops))
unfolding decode_loop validate_all
decode_loop-frames [] pre cursor v hc fits = ap (λ (end : ℕ). ok ([], end)) (omega arith)
decode_loop-frames (op ∷ ops) pre cursor v hc fits =
    let this : validate_mutation op ≡ ok tt = ground arith in
    let others : validate_all ops ≡ ok tt = ground arith in
    let size = length-append (operation_frame op) (frames ops) in
    let behind : length (pre ++ operation_frame op) ≡ cursor + length (operation_frame op) =
      omega (arith, length-append pre (operation_frame op)) in
    let first =
      decode_operation-frame op pre (frames ops) cursor (validate_mutation-IsMutation op this) hc
        (omega arith) in
    let next : decode_loop (pre ++ (operation_frame op ++ frames ops))
          (cursor + length (operation_frame op)) (length ops)
        ≡ ok (ops, cursor + length (operation_frame op) + length (frames ops)) =
      ap (λ bytes. decode_loop bytes (cursor + length (operation_frame op)) (length ops))
        (sym (append_assoc pre (operation_frame op) (frames ops)))
      ∙ decode_loop-frames ops (pre ++ operation_frame op) (cursor + length (operation_frame op))
          others behind (omega arith) in
    rw (first, next) (ap (λ (end : ℕ). ok (op ∷ ops, end)) (omega arith))

encode_loop-frames :
    (ops : List Mutation) (output bytes : Bytes)
    → length output ≤ wal_max_payload_bytes
    → encode_loop output ops ≡ ok bytes
    → (bytes ≡ output ++ frames ops) × (length bytes ≤ wal_max_payload_bytes)
unfolding encode_loop
encode_loop-frames [] output bytes small h =
    let same : output ≡ bytes = ground arith in
    (sym same ∙ sym (append-nil output), subst (λ b. length b ≤ wal_max_payload_bytes) same small)
encode_loop-frames (op ∷ ops) output bytes small h =
    let fits : length (output ++ operation_frame op) ≤ wal_max_payload_bytes = ground arith in
    let rest : encode_loop (output ++ operation_frame op) ops ≡ ok bytes = ground arith in
    let (shape, bound) = encode_loop-frames ops (output ++ operation_frame op) bytes fits rest in
    (shape ∙ append_assoc output (operation_frame op) (frames ops), bound)

length-header : (count : ℕ) → length (header count) ≡ 16
length-header count = omega (
  arith,
  length-append (to_be 2 1) (to_be 2 0 ++ to_be 4 count),
  length-append (to_be 2 0) (to_be 4 count),
  length-digits 256 4 count,
  length-digits 256 2 1,
  length-digits 256 2 0,
)

header-fields :
    (n : ℕ) (rest : Bytes)
    → (take 8 (header n ++ rest) ≡ batch_magic)
      × (from_be (take 2 (drop 8 (header n ++ rest))) ≡ 1)
      × (take 2 (drop 10 (header n ++ rest)) ≡ 0 ∷ 0 ∷ [])
      × (drop 12 (header n ++ rest) ≡ to_be 4 n ++ rest)
unfolding digits value_from
header-fields n rest = (refl, refl, refl, refl)

-- Every batch that `encode` accepts is read back by `decode`, the same in every operation.
pub decode-encode : (b : WriteBatch) (bytes : Bytes) → encode b ≡ ok bytes → decode bytes ≡ ok b
unfolding encode decode validate new
decode-encode b bytes h =
    let ops = b.operations in
    let n = length ops in
    let some_ops : (n == 0 || ltb 1000000 n) ≡ false = ground arith in
    let valid : validate_all ops ≡ ok tt = ground arith in
    let loop : encode_loop (header n) ops ≡ ok bytes = ground arith in
    let (shape, bound) =
      encode_loop-frames ops (header n) bytes (omega (arith, length-header n)) loop in
    let (magic, version, flags, behind) = header-fields n (frames ops) in
    let count : from_be (take 4 (drop 12 (header n ++ frames ops))) ≡ n =
      ap (λ r. from_be (take 4 r)) behind
      ∙ ap from_be (take-append 4 (to_be 4 n) (frames ops) (length-digits 256 4 n))
      ∙ read_word n (ground arith) in
    let size : length (header n ++ frames ops) ≡ 16 + length (frames ops) =
      omega (arith, length-append (header n) (frames ops), length-header n) in
    let decoded =
      decode_loop-frames ops (header n) 16 valid (length-header n)
        (omega (arith, ap length shape)) in
    let long : ltb (length (header n ++ frames ops)) 16 ≡ false = ground arith in
    let same : bytes_eq batch_magic batch_magic ≡ true = bytes_eq_refl batch_magic in
    let zeros : bytes_eq (0 ∷ 0 ∷ []) (0 ∷ 0 ∷ []) ≡ true = bytes_eq_refl (0 ∷ 0 ∷ []) in
    let ended : (16 + length (frames ops) == length (header n ++ frames ops)) ≡ true =
      ground arith in
    subst (λ r. decode r ≡ ok b) (sym shape)
      (rw
        (long, magic, same, version, flags, zeros, count, some_ops, decoded, ended, some_ops, valid)
        refl)
