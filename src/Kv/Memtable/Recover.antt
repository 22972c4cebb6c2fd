-- ===== src/Kv/Memtable/Recover.antt =====
-- memtable.rs: a table from the batches of a log, and from compacted versions.
use vyrm.Prelude.{
  ℕ, ◌≤◌, ◌<◌, ◌≡◌, ◌||◌, List, [], ◌∷◌, ok, ◌>>=◌, ◌>>◌, fail_if, ltb, leb, ◌==◌, length, All,
  arith, Result-cases, inl, inr,
}
use vyrm.Core.Error.{Bytes}
use vyrm.Kv.Error.{Outcome, invalid_segment}
use vyrm.Kv.Batch.{decode}
use vyrm.Kv.Wal.{RecoveredBatch}
use vyrm.Kv.Memtable.{VersionedValue, Versions, Memtable, grown, at_sequence, apply_write_batch}

module _ (version_bytes : ℕ) where
  unfoldable pub apply : Memtable → RecoveredBatch → Outcome Memtable
  apply t recovered = do
    batch ← decode recovered.payload
    apply_write_batch version_bytes t batch recovered.first_sequence recovered.last_sequence

  unfoldable pub apply_all : Memtable → List RecoveredBatch → Outcome Memtable
  apply_all t [] = ok t
  apply_all t (b ∷ bs) = do t' ← apply t b; apply_all t' bs

  unfoldable pub recover_from : List RecoveredBatch → ℕ → Outcome Memtable
  recover_from batches previous_sequence = apply_all (at_sequence previous_sequence) batches

  unfoldable pub recover : List RecoveredBatch → Outcome Memtable
  recover batches = recover_from batches 0

  -- The inner loop of `from_versions`, from the number of the version before.
  unfoldable pub check_versions : Bytes → ℕ → ℕ → List VersionedValue → ℕ → Outcome ℕ
  check_versions k maximum_sequence previous [] bytes = ok bytes
  check_versions k maximum_sequence previous (v ∷ vs) bytes = do
    fail_if (v.sequence == 0 || leb v.sequence previous || ltb maximum_sequence v.sequence)
        (invalid_segment "compacted versions are not strictly ordered")
    check_versions k maximum_sequence v.sequence vs (grown version_bytes bytes k v.value)

  unfoldable pub check_entries : ℕ → Versions → ℕ → Outcome ℕ
  check_entries maximum_sequence [] bytes = ok bytes
  check_entries maximum_sequence ((k, vs) ∷ entries) bytes = do
    fail_if (length k == 0 || length vs == 0)
        (invalid_segment "compacted memtable contains an empty key/version set")
    bytes' ← check_versions k maximum_sequence 0 vs bytes
    check_entries maximum_sequence entries bytes'

  unfoldable pub from_versions : Versions → ℕ → Outcome Memtable
  from_versions versions maximum_sequence = do
    bytes ← check_entries maximum_sequence versions 0
    ok (record {
      versions = versions;
      maximum_sequence = maximum_sequence;
      approximate_bytes = bytes;
    })

-- Strictly ascending numbers above one, up to another.
abbrev pub Ascends : ℕ → ℕ → List VersionedValue → Type 0
Ascends previous maximum [] = Unit
Ascends previous maximum (v ∷ vs) =
    (previous < v.sequence) × (v.sequence ≤ maximum) × Ascends v.sequence maximum vs

abbrev pub IsEntry : ℕ → Bytes × List VersionedValue → Type 0
IsEntry maximum (k, vs) = (0 < length k) × (0 < length vs) × Ascends 0 maximum vs

module _ (version_bytes : ℕ) where
  check_versions-Ascends :
      (k : Bytes) (maximum previous : ℕ) (vs : List VersionedValue) (bytes bytes' : ℕ)
      → check_versions version_bytes k maximum previous vs bytes ≡ ok bytes'
      → Ascends previous maximum vs
  unfolding check_versions
  check_versions-Ascends k maximum previous [] bytes bytes' e = tt
  check_versions-Ascends k maximum previous (v ∷ vs) bytes bytes' e = (
    ground arith,
    ground arith,
    check_versions-Ascends k maximum v.sequence vs (grown version_bytes bytes k v.value) bytes'
        (ground arith),
  )

  check_entries-All :
      (maximum : ℕ) (entries : Versions) (bytes bytes' : ℕ)
      → check_entries version_bytes maximum entries bytes ≡ ok bytes'
      → All (IsEntry maximum) entries
  unfolding check_entries
  check_entries-All maximum [] bytes bytes' e = tt
  check_entries-All maximum ((k, vs) ∷ entries) bytes bytes' e =
      elim (Result-cases (check_versions version_bytes k maximum 0 vs bytes)) [
        | inl (counted, q) ↦
            let rest : check_entries version_bytes maximum entries counted ≡ ok bytes' =
              ground (arith, q) in
            (
              (ground arith, ground arith, check_versions-Ascends k maximum 0 vs bytes counted q),
              check_entries-All maximum entries counted bytes' rest,
            )
        | inr (x, q) ↦ absurd (ground (arith, q))
      ]

  -- The versions that `from_versions` accepts are those of a well-formed table, under whose maximum
  -- it puts them: no key is empty, every key has a version, and the numbers of a key ascend
  -- strictly from above zero up to the maximum.
  pub from_versions-IsEntry :
      (versions : Versions) (maximum : ℕ) (t : Memtable)
      → from_versions version_bytes versions maximum ≡ ok t
      → (t.versions ≡ versions) × (t.maximum_sequence ≡ maximum) × All (IsEntry maximum) versions
  unfolding from_versions
  from_versions-IsEntry versions maximum t e =
      elim (Result-cases (check_entries version_bytes maximum versions 0)) [
        | inl (bytes, q) ↦
            (ground (arith, q), ground (arith, q), check_entries-All maximum versions 0 bytes q)
        | inr (x, q) ↦ absurd (ground (arith, q))
      ]
