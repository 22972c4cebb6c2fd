-- ===== src/Kv/Batch.antt =====
-- crates/vyrm-kv/src/batch.rs: the atomic write batch and its frame.
pub mod RoundTrip
use vyrm.Prelude.{
  ℕ, zero, suc, ◌+◌, ◌-◌, ◌≡◌, Bool, true, false, not, ◌&&◌, ◌||◌, List, [], ◌∷◌, ◌++◌, Option,
  none, some, Result, ok, err, ◌>>=◌, ◌>>◌, fail_if, ok_or, if◌then◌else◌, ltb, leb, ◌==◌, bytes_eq,
  length, take, drop, get_or, to_be, from_be, codes, String,
}
use vyrm.Core.Error.{Bytes}
use vyrm.Kv.Error.{
  Error, Outcome, invalid_batch, unsupported_version, u64_max, u32_max, wal_max_payload_bytes,
}

abbrev pub batch_format_version : ℕ
batch_format_version = 1

abbrev pub batch_magic : Bytes
batch_magic = codes "VYRBAT01"

abbrev pub batch_header_bytes : ℕ
batch_header_bytes = 16

abbrev pub op_header_bytes : ℕ
op_header_bytes = 12

abbrev pub max_operations : ℕ
max_operations = 1000000

abbrev pub max_key_bytes : ℕ
max_key_bytes = 1048576

abbrev pub max_value_bytes : ℕ
max_value_bytes = 8388608

pub data Mutation : Type 0 where
  put : Bytes → Bytes → Mutation
  delete : Bytes → Mutation

abbrev pub key : Mutation → Bytes
key (put k v) = k
key (delete k) = k

-- `Mutation::validate`
abbrev check_value : Mutation → Outcome (Unit {0})
check_value (put k v) =
    fail_if (ltb max_value_bytes (length v)) (invalid_batch "value length exceeds the maximum")
check_value (delete k) = ok tt

unfoldable pub validate_mutation : Mutation → Outcome (Unit {0})
validate_mutation op = do
  fail_if (length (key op) == 0 || ltb max_key_bytes (length (key op)))
      (invalid_batch "key length must be in 1..=maximum bytes")
  check_value op

unfoldable pub validate_all : List Mutation → Outcome (Unit {0})
validate_all [] = ok tt
validate_all (op ∷ ops) = do validate_mutation op; validate_all ops

pub record WriteBatch : Type 0 where
  pub operations : List Mutation

-- `WriteBatch::validate`
unfoldable pub validate : WriteBatch → Outcome (Unit {0})
validate b = do
  fail_if (length b.operations == 0 || ltb max_operations (length b.operations))
      (invalid_batch "operation count must be in 1..=maximum")
  validate_all b.operations

unfoldable pub new : List Mutation → Outcome WriteBatch
new operations = do
  validate (record { operations = operations })
  ok (record { operations = operations })

abbrev pub kind_of : Mutation → ℕ
kind_of (put k v) = 1
kind_of (delete k) = 2

abbrev pub value_of : Mutation → Bytes
value_of (put k v) = v
value_of (delete k) = []

-- One turn of the loop of `encode`: the frame of one operation.
unfoldable pub operation_frame : Mutation → Bytes
operation_frame op =
    kind_of op
    ∷ 0
    ∷ 0
    ∷ 0
    ∷ (to_be 4 (length (key op)) ++ (to_be 4 (length (value_of op)) ++ (key op ++ value_of op)))

unfoldable pub encode_loop : Bytes → List Mutation → Outcome Bytes
encode_loop output [] = ok output
encode_loop output (op ∷ ops) =
    let output' = output ++ operation_frame op in
    let rest = encode_loop output' ops in
    (do
      fail_if (ltb u32_max (length (key op))) (invalid_batch "key length exceeds u32")
      fail_if (ltb u32_max (length (value_of op))) (invalid_batch "value length exceeds u32")
      fail_if (ltb wal_max_payload_bytes (length output'))
          (invalid_batch "encoded batch exceeds the maximum")
      rest)

abbrev pub header : ℕ → Bytes
header count = batch_magic ++ (to_be 2 batch_format_version ++ (to_be 2 0 ++ to_be 4 count))

unfoldable pub encode : WriteBatch → Outcome Bytes
encode b = do
  validate b
  fail_if (ltb u32_max (length b.operations)) (invalid_batch "operation count exceeds u32")
  encode_loop (header (length b.operations)) b.operations

-- `bytes.get(from..to)`
abbrev pub slice : Bytes → ℕ → ℕ → Option Bytes
slice bytes from to =
    if leb from to && leb to (length bytes) then some (take (to - from) (drop from bytes)) else none

-- `checked_add` on `usize`
abbrev pub checked_add : ℕ → ℕ → Option ℕ
checked_add a b = if ltb u64_max (a + b) then none else some (a + b)

unfoldable pub operation_of : ℕ → Bytes → Bytes → Outcome Mutation
operation_of kind k v =
    if kind == 1
    then ok (put k v)
    else if kind == 2
    then (if length v == 0
        then ok (delete k)
        else err (invalid_batch "delete operation carries a value"))
    else err (invalid_batch "unknown operation kind")

-- `a.checked_add(b).and_then(|value| value.checked_add(c))`
abbrev pub checked_sum : ℕ → ℕ → ℕ → Option ℕ
checked_sum a b c = elim (checked_add a b) [ none ↦ none | some value ↦ checked_add value c ]

-- The second half of a turn of the loop of `decode`: the key and the value behind the header.
unfoldable pub decode_body : Bytes → ℕ → ℕ → ℕ → ℕ → Outcome (Mutation × ℕ)
decode_body bytes cursor kind key_len value_len = do
  fail_if (key_len == 0 || ltb max_key_bytes key_len || ltb max_value_bytes value_len)
      (invalid_batch "operation key/value length exceeds its contract")
  end ← ok_or (checked_sum cursor key_len value_len) (invalid_batch "operation length overflow")
  body ← ok_or (slice bytes cursor end) (invalid_batch "incomplete operation body")
  op ← operation_of kind (take key_len body) (drop key_len body)
  ok (op, end)

-- One turn of the loop of `decode`: the operation at the cursor, and the cursor behind it.
unfoldable pub decode_operation : Bytes → ℕ → Outcome (Mutation × ℕ)
decode_operation bytes cursor = do
  header_end ←
      ok_or (checked_add cursor op_header_bytes) (invalid_batch "operation header length overflow")
  op_header ← ok_or (slice bytes cursor header_end) (invalid_batch "incomplete operation header")
  fail_if (not (bytes_eq (take 3 (drop 1 op_header)) (0 ∷ 0 ∷ 0 ∷ [])))
      (invalid_batch "unknown operation flags")
  decode_body bytes header_end (get_or op_header 0 0) (from_be (take 4 (drop 4 op_header)))
      (from_be (take 4 (drop 8 op_header)))

unfoldable pub decode_loop : Bytes → ℕ → ℕ → Outcome (List Mutation × ℕ)
decode_loop bytes cursor zero = ok ([], cursor)
decode_loop bytes cursor (suc count) = do
  (op, end) ← decode_operation bytes cursor
  (ops, last) ← decode_loop bytes end count
  ok (op ∷ ops, last)

unfoldable pub decode : Bytes → Outcome WriteBatch
decode bytes = do
  fail_if (ltb (length bytes) batch_header_bytes) (invalid_batch "incomplete batch header")
  fail_if (not (bytes_eq (take 8 bytes) batch_magic)) (invalid_batch "batch magic does not match")
  fail_if (not (from_be (take 2 (drop 8 bytes)) == batch_format_version))
      (unsupported_version "write batch" (from_be (take 2 (drop 8 bytes))))
  fail_if (not (bytes_eq (take 2 (drop 10 bytes)) (0 ∷ 0 ∷ [])))
      (invalid_batch "unknown batch flags")
  fail_if
      (from_be (take 4 (drop 12 bytes)) == 0
        || ltb max_operations (from_be (take 4 (drop 12 bytes))))
      (invalid_batch "invalid operation count")
  (operations, cursor) ← decode_loop bytes batch_header_bytes (from_be (take 4 (drop 12 bytes)))
  fail_if (not (cursor == length bytes)) (invalid_batch "trailing bytes after the declared batch")
  new operations
