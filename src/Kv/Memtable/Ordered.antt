-- ===== src/Kv/Memtable/Ordered.antt =====
-- memtable.rs: the order of a table's keys and of the versions of a key, from any log of batches.
use mathlib.Core.Path.{subst}
use vyrm.Prelude.{
  ℕ, suc, min, ◌+◌, ◌%◌, take, drop, from_be, ◌≤◌, ◌<◌, ◌≡◌, refl, sym, ◌∙◌, List, [], ◌∷◌, ◌++◌,
  Option, none, some, ok, length, arith, Option-cases, Result-cases, inl, inr, All, All-In, put,
  bytes_order, IsAscending, put-All, put-IsAscending, find-In,
}
use vyrm.Core.Error.{Bytes}
use vyrm.Kv.Error.{u64_max}
use vyrm.Kv.Batch.{
  Mutation, key, WriteBatch, checked_add, decode, decode_loop, batch_header_bytes, max_operations,
  new, validate,
}
use vyrm.Kv.Wal.{RecoveredBatch}
use vyrm.Kv.Memtable.{
  VersionedValue, Versions, Memtable, written_value, push_version, entry_of, at_sequence,
  apply_operations, apply_write_batch,
}
use vyrm.Kv.Memtable.Reads.{apply-result}
use vyrm.Kv.Memtable.Recover.{Ascends, apply, apply_all, recover_from}
use vyrm.Kv.Memtable.Scans.{entry_of-find}

-- A key with its versions: there is one at least, and their numbers ascend strictly up to the maximum.
abbrev pub IsNumbered : ℕ → Bytes × List VersionedValue → Type 0
IsNumbered maximum (k, vs) = (0 < length vs) × Ascends 0 maximum vs

pub record IsTable (t : Memtable) : Type 0 where
  pub ordered : IsAscending bytes_order t.versions
  pub numbered : All (IsNumbered t.maximum_sequence) t.versions

Ascends-up_to :
    (previous maximum top : ℕ) (vs : List VersionedValue)
    → maximum ≤ top
    → Ascends previous maximum vs
    → Ascends previous top vs
Ascends-up_to previous maximum top [] h a = tt
Ascends-up_to previous maximum top (v ∷ vs) h (above, below, rest) =
    (above, omega arith, Ascends-up_to v.sequence maximum top vs h rest)

Ascends-snoc :
    (previous maximum : ℕ) (vs : List VersionedValue) (v : VersionedValue)
    → previous < v.sequence
    → maximum < v.sequence
    → Ascends previous maximum vs
    → Ascends previous v.sequence (vs ++ v ∷ [])
Ascends-snoc previous maximum [] v h g a = (h, omega arith, tt)
Ascends-snoc previous maximum (u ∷ vs) v h g (above, below, rest) =
    (above, omega arith, Ascends-snoc u.sequence maximum vs v (omega arith) g rest)

IsNumbered-up_to :
    (maximum top : ℕ) (m : Versions)
    → maximum ≤ top
    → All (IsNumbered maximum) m
    → All (IsNumbered top) m
IsNumbered-up_to maximum top [] h a = tt
IsNumbered-up_to maximum top ((k, vs) ∷ m) h a =
    ((a.0.0, Ascends-up_to 0 maximum top vs h a.0.1), IsNumbered-up_to maximum top m h a.1)

length-snoc : (vs : List VersionedValue) (v : VersionedValue) → 0 < length (vs ++ v ∷ [])
length-snoc [] v = omega arith
length-snoc (u ∷ vs) v = omega arith

abbrev versions_of : Option (List VersionedValue) → List VersionedValue
versions_of none = []
versions_of (some vs) = vs

-- A push is an insertion of the versions of its key with the new one behind them.
push_version-put :
    (k : Bytes) (v : VersionedValue) (m : Versions)
    → push_version k v m ≡ put bytes_order k (versions_of (entry_of k m) ++ v ∷ []) m
unfolding push_version put entry_of
push_version-put k v [] = refl
push_version-put k v ((j, vs) ∷ m) = ground (arith, push_version-put k v m)

pushed-IsNumbered :
    (k : Bytes) (v : VersionedValue) (maximum : ℕ) (m : Versions)
    → maximum < v.sequence
    → All (IsNumbered maximum) m
    → IsNumbered v.sequence (k, versions_of (entry_of k m) ++ v ∷ [])
pushed-IsNumbered k v maximum m h a = elim (Option-cases (entry_of k m)) [
  | inl absent ↦ rw absent (omega arith, (omega arith, omega arith, tt))
  | inr (vs, found) ↦
      let there = find-In bytes_order k vs m (sym (entry_of-find k m) ∙ found) in
      let old : IsNumbered maximum (k, vs) = All-In (IsNumbered maximum) m a there in
      rw found (length-snoc vs v, Ascends-snoc 0 maximum vs v (omega arith) h old.1)
]

module _ (version_bytes : ℕ) where
  apply_operations-IsAscending :
      (s : ℕ) (ops : List Mutation) (table : Versions × ℕ)
      → IsAscending bytes_order table.0
      → IsAscending bytes_order (apply_operations version_bytes s ops table).0
  unfolding apply_operations
  apply_operations-IsAscending s [] table o = o
  apply_operations-IsAscending s (op ∷ ops) (m, bytes) o =
      apply_operations-IsAscending (suc s) ops _ (
        rw (push_version-put (key op) (record { sequence = s; value = written_value op }) m)
          (put-IsAscending bytes_order (key op) _ m o))

  apply_operations-IsNumbered :
      (s maximum top : ℕ) (ops : List Mutation) (table : Versions × ℕ)
      → maximum < s
      → maximum ≤ top
      → s + length ops ≤ suc top
      → All (IsNumbered maximum) table.0
      → All (IsNumbered top) (apply_operations version_bytes s ops table).0
  unfolding apply_operations
  apply_operations-IsNumbered s maximum top [] table h up fits a =
      IsNumbered-up_to maximum top table.0 up a
  apply_operations-IsNumbered s maximum top (op ∷ ops) (m, bytes) h up fits a =
      let v : VersionedValue = record { sequence = s; value = written_value op } in
      apply_operations-IsNumbered (suc s) s top ops _ (omega arith) (omega arith) (omega arith) (
        rw (push_version-put (key op) v m) (
          put-All bytes_order (IsNumbered s) (key op) _ m
            (IsNumbered-up_to maximum s m (omega arith) a)
            (pushed-IsNumbered (key op) v maximum m h a)))

  last-first :
      (maximum n first last : ℕ)
      → maximum < u64_max
      → n ≤ u64_max
      → first ≡ min (maximum + 1) u64_max
      → checked_add first ((n + u64_max) % suc u64_max) ≡ some last
      → (first ≡ maximum + 1) × (last ≡ maximum + n) × (0 < n)
  last-first maximum n first last h small from numbered =
      (ground (arith, from), ground (arith, from, numbered), ground (arith, from, numbered))

  -- A batch that is applied to an ordered table leaves an ordered one: its keys ascend strictly, every
  -- key has a version, and the numbers of its versions ascend strictly from above zero up to the
  -- table's maximum. The maximum grows by the number of operations, of which there is one at least.
  -- The maximum before is below the greatest 64-bit number.
  pub apply_write_batch-IsTable :
      (t t' : Memtable) (b : WriteBatch) (first last : ℕ)
      → IsTable t
      → t.maximum_sequence < u64_max
      → length b.operations ≤ u64_max
      → apply_write_batch version_bytes t b first last ≡ ok t'
      → IsTable t'
        × (t'.maximum_sequence ≡ t.maximum_sequence + length b.operations)
        × (0 < length b.operations)
  apply_write_batch-IsTable t t' b first last v room small e =
      let (from, numbered, versions, maximum) = apply-result version_bytes t t' b first last e in
      let (begins, ends, some_operation) =
        last-first t.maximum_sequence (length b.operations) first last room small from numbered in
      (
        record {
          ordered =
              subst (IsAscending bytes_order) (sym versions)
                (apply_operations-IsAscending first b.operations _ v.ordered);
          numbered =
              rw (maximum, versions)
                (apply_operations-IsNumbered first t.maximum_sequence last b.operations _
                  (omega arith) (omega arith) (omega arith) v.numbered);
        },
        maximum ∙ ends,
        some_operation,
      )

decode-length :
    (payload : Bytes) (b : WriteBatch)
    → decode payload ≡ ok b
    → length b.operations ≤ max_operations
unfolding decode new validate
decode-length payload b h =
    elim (Result-cases
      (decode_loop payload batch_header_bytes (from_be (take 4 (drop 12 payload))))) [
        | inl ((ops, cursor), q) ↦ ground (arith, h, q)
        | inr (x, q) ↦ absurd (ground (arith, h, q))
      ]

module _ (version_bytes : ℕ) where
  apply-IsTable :
      (t t' : Memtable) (r : RecoveredBatch)
      → IsTable t
      → t.maximum_sequence < u64_max
      → apply version_bytes t r ≡ ok t'
      → IsTable t' × (t'.maximum_sequence ≡ r.last_sequence)
  unfolding apply
  apply-IsTable t t' r v room h = elim (Result-cases (decode r.payload)) [
    | inl (b, q) ↦
        let applied : apply_write_batch version_bytes t b r.first_sequence r.last_sequence ≡ ok t' =
          rw q at h in
        let small = decode-length r.payload b q in
        (
          (apply_write_batch-IsTable version_bytes t t' b r.first_sequence r.last_sequence v room
              (omega arith) applied).0,
          (apply-result version_bytes t t' b r.first_sequence r.last_sequence applied).3,
        )
    | inr (x, q) ↦ absurd (ground (arith, h, q))
  ]

  apply_all-IsTable :
      (t t' : Memtable) (rs : List RecoveredBatch)
      → IsTable t
      → t.maximum_sequence < u64_max
      → All (λ (r : RecoveredBatch). r.last_sequence < u64_max) rs
      → apply_all version_bytes t rs ≡ ok t'
      → IsTable t'
  unfolding apply_all
  apply_all-IsTable t t' [] v room fits h =
      let is : t ≡ t' = ground (arith, h) in subst IsTable is v
  apply_all-IsTable t t' (r ∷ rs) v room fits h = elim (Result-cases (apply version_bytes t r)) [
    | inl (next, q) ↦
        let (table, maximum) = apply-IsTable t next r v room q in
        apply_all-IsTable next t' rs table (omega (arith, maximum, fits.0)) fits.1 (rw q at h)
    | inr (x, q) ↦ absurd (ground (arith, h, q))
  ]

  -- A table that is recovered from batches of a log is ordered: its keys ascend strictly, every key has
  -- a version, and the numbers of its versions ascend strictly from above zero up to the table's
  -- maximum. The number the recovery starts behind and the last numbers of the batches are below the
  -- greatest 64-bit number.
  pub recover_from-IsTable :
      (batches : List RecoveredBatch) (previous : ℕ) (t : Memtable)
      → All (λ (r : RecoveredBatch). r.last_sequence < u64_max) batches
      → previous < u64_max
      → recover_from version_bytes batches previous ≡ ok t
      → IsTable t
  unfolding recover_from at_sequence
  recover_from-IsTable batches previous t fits room h =
      apply_all-IsTable (at_sequence previous) t batches (record { ordered = tt; numbered = tt })
        room fits h
