-- ===== src/Kv/Memtable.antt =====
-- crates/vyrm-kv/src/memtable.rs: the ordered multi-version table in memory. The `BTreeMap` is its
-- entries in key order. `size_of::<VersionedValue>()`, which the compiler decides, is a parameter.
pub mod Reads
pub mod Snapshot
pub mod Recover
pub mod Scans
pub mod Ordered
use vyrm.Prelude.{
  ℕ, zero, suc, min, ◌+◌, ◌-◌, ◌%◌, ◌≡◌, Bool, true, false, not, ◌&&◌, ◌||◌, List, [], ◌∷◌, ◌++◌,
  Option, none, some, Result, ok, err, ◌>>=◌, ◌>>◌, fail_if, ok_or, if◌then◌else◌, ltb, leb, ◌==◌,
  bytes_eq, length, lex_lt,
}
use vyrm.Core.Error.{Bytes}
use vyrm.Kv.Error.{Error, Outcome, invalid_batch, invalid_segment, u64_max}
use vyrm.Kv.Batch.{Mutation, put, delete, key, WriteBatch, checked_add, decode}

pub record VersionedValue : Type 0 where
  pub sequence : ℕ
  pub value : Option Bytes

abbrev pub Versions : Type 0
Versions = List (Bytes × List VersionedValue)

pub record Memtable : Type 0 where
  pub versions : Versions
  pub maximum_sequence : ℕ
  pub approximate_bytes : ℕ

abbrev pub saturating_add : ℕ → ℕ → ℕ
saturating_add a b = min (a + b) u64_max

abbrev pub written_value : Mutation → Option Bytes
written_value (put k v) = some v
written_value (delete k) = none

abbrev pub value_len : Option Bytes → ℕ
value_len none = 0
value_len (some v) = length v

-- `entry(key).or_default().push(version)`
unfoldable pub push_version : Bytes → VersionedValue → Versions → Versions
push_version k v [] = (k, v ∷ []) ∷ []
push_version k v ((j, vs) ∷ entries) =
    if lex_lt k j
    then (k, v ∷ []) ∷ (j, vs) ∷ entries
    else if lex_lt j k
    then (j, vs) ∷ push_version k v entries
    else (j, vs ++ v ∷ []) ∷ entries

-- `BTreeMap::get`, which stops at the first key that is not below the one it looks for.
unfoldable pub entry_of : Bytes → Versions → Option (List VersionedValue)
entry_of k [] = none
entry_of k ((j, vs) ∷ entries) =
    if lex_lt k j then none else if lex_lt j k then entry_of k entries else some vs

abbrev pub or_else {ℓ} : {A : Type ℓ} → Option A → Option A → Option A
or_else none b = b
or_else (some a) b = some a

-- `iter().rev().find(|version| version.sequence <= read_sequence)`
unfoldable pub newest_at : ℕ → List VersionedValue → Option VersionedValue
newest_at read_sequence [] = none
newest_at read_sequence (v ∷ vs) =
    or_else (newest_at read_sequence vs) (if leb v.sequence read_sequence then some v else none)

unfoldable pub at_sequence : ℕ → Memtable
at_sequence sequence = record { versions = []; maximum_sequence = sequence; approximate_bytes = 0 }

module _ (version_bytes : ℕ) where
  unfoldable pub grown : ℕ → Bytes → Option Bytes → ℕ
  grown bytes k value =
      saturating_add (saturating_add (saturating_add bytes (length k)) (value_len value))
        version_bytes

  -- The loop of `apply_write_batch`, from the operation that takes `sequence`.
  unfoldable pub apply_operations : ℕ → List Mutation → Versions × ℕ → Versions × ℕ
  apply_operations sequence [] table = table
  apply_operations sequence (op ∷ ops) (versions, bytes) = apply_operations (suc sequence) ops (
    push_version (key op) (record { sequence = sequence; value = written_value op }) versions,
    grown bytes (key op) (written_value op),
  )

  -- The count less one wraps at zero, as in a release build.
  unfoldable pub apply_write_batch : Memtable → WriteBatch → ℕ → ℕ → Outcome Memtable
  apply_write_batch t batch first_sequence last_sequence = do
    expected_last ←
        ok_or (checked_add first_sequence ((length batch.operations + u64_max) % suc u64_max))
          (invalid_batch "batch sequence range overflow")
    fail_if
        (not (first_sequence == saturating_add t.maximum_sequence 1)
          || not (last_sequence == expected_last))
        (invalid_batch "batch sequence range does not match")
    (let applied =
          apply_operations first_sequence batch.operations (t.versions, t.approximate_bytes) in
        ok (record {
          versions = applied.0;
          maximum_sequence = last_sequence;
          approximate_bytes = applied.1;
        }))

  unfoldable pub apply_owned_write_batch : Memtable → WriteBatch → ℕ → ℕ → Outcome Memtable
  apply_owned_write_batch t batch first_sequence last_sequence =
      apply_write_batch t batch first_sequence last_sequence

abbrev pub and_then {ℓ κ} : {A : Type ℓ} {B : Type κ} → Option A → (A → Option B) → Option B
and_then none f = none
and_then (some a) f = f a

unfoldable pub get_version : Memtable → Bytes → ℕ → Option VersionedValue
get_version t k read_sequence = and_then (entry_of k t.versions) (newest_at read_sequence)

unfoldable pub get : Memtable → Bytes → ℕ → Option Bytes
get t k read_sequence = and_then (get_version t k read_sequence) (λ v. v.value)

abbrev pub within : Bytes → Option Bytes → Bytes → Bool
within start none k = not (lex_lt k start)
within start (some end) k = not (lex_lt k start) && lex_lt k end

abbrev pub cons_some {ℓ} : {A : Type ℓ} → Option A → List A → List A
cons_some none rest = rest
cons_some (some a) rest = a ∷ rest

-- `filter_map` over the entries, in order.
unfoldable pub filter_map {ℓ κ} : {A : Type ℓ} {B : Type κ} → (A → Option B) → List A → List B
filter_map f [] = []
filter_map f (a ∷ rest) = cons_some (f a) (filter_map f rest)

abbrev pub map_option {ℓ κ} : {A : Type ℓ} {B : Type κ} → (A → B) → Option A → Option B
map_option f none = none
map_option f (some a) = some (f a)

-- What `scan` keeps of an entry.
abbrev pub scan_entry :
    Bytes → Option Bytes → ℕ → Bytes × List VersionedValue → Option (Bytes × Bytes)
scan_entry start end read_sequence (k, vs) =
    if within start end k
    then map_option (λ value. (k, value)) (and_then (newest_at read_sequence vs) (λ v. v.value))
    else none

unfoldable pub scan : Memtable → Bytes → Option Bytes → ℕ → List (Bytes × Bytes)
scan t start end read_sequence = filter_map (scan_entry start end read_sequence) t.versions

abbrev pub visible_entry : ℕ → Bytes × List VersionedValue → Option (Bytes × VersionedValue)
visible_entry read_sequence (k, vs) = map_option (λ v. (k, v)) (newest_at read_sequence vs)

unfoldable pub visible_versions : Memtable → ℕ → List (Bytes × VersionedValue)
visible_versions t read_sequence = filter_map (visible_entry read_sequence) t.versions

unfoldable pub key_count : Memtable → ℕ
key_count t = length t.versions

unfoldable pub count_versions : Versions → ℕ
count_versions [] = 0
count_versions ((k, vs) ∷ entries) = length vs + count_versions entries

unfoldable pub version_count : Memtable → ℕ
version_count t = count_versions t.versions
