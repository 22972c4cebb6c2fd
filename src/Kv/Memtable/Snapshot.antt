-- ===== src/Kv/Memtable/Snapshot.antt =====
-- memtable.rs: a snapshot. Reads below the numbers of a batch do not see the batch.
use vyrm.Prelude.{
  ℕ, suc, ◌<◌, ◌≡◌, refl, ap, ◌∙◌, List, [], ◌∷◌, ◌++◌, Option, none, ok, if◌then◌else◌, lex_lt,
  arith, Bool-cases, inl, inr,
}
use vyrm.Core.Error.{Bytes}
use vyrm.Kv.Batch.{Mutation, key, WriteBatch}
use vyrm.Kv.Memtable.{
  VersionedValue, Versions, Memtable, written_value, push_version, or_else, newest_at,
  apply_operations, apply_write_batch, and_then, get_version, get, cons_some, filter_map,
  map_option, within, scan_entry, scan, visible_entry, visible_versions,
}
use vyrm.Kv.Memtable.Reads.{apply-result, last_write, get_version-apply_write_batch}

newest_at-later :
    (n : ℕ) (vs : List VersionedValue) (v : VersionedValue)
    → n < v.sequence
    → newest_at n (vs ++ v ∷ []) ≡ newest_at n vs
unfolding newest_at
newest_at-later n [] v h = ground arith
newest_at-later n (u ∷ vs) v h = ground (arith, newest_at-later n vs v h)

-- A test of the entries that reads them at `n`, and finds nothing where there is no version.
module _ {ℓ} {B : Type ℓ} (n : ℕ) (found : Bytes → Option VersionedValue → Option B)
    (empty : (k : Bytes) → found k none ≡ none) where
  abbrev at_entry : Bytes × List VersionedValue → Option B
  at_entry (k, vs) = found k (newest_at n vs)

  filter_map-push_version :
      (k : Bytes) (v : VersionedValue) (m : Versions)
      → n < v.sequence
      → filter_map at_entry (push_version k v m) ≡ filter_map at_entry m
  unfolding filter_map push_version newest_at
  filter_map-push_version k v [] h =
      ap (λ o. cons_some (found k o) []) (newest_at-later n [] v h) ∙ rw (empty k) refl
  filter_map-push_version k v ((j, vs) ∷ m) h = elim (Bool-cases (lex_lt k j)) [
    | inl before ↦ rw before (
        ap
          (λ o.
            cons_some (found k o) (cons_some (found j (newest_at n vs)) (filter_map at_entry m)))
          (newest_at-later n [] v h)
        ∙ rw (empty k) refl)
    | inr here ↦ elim (Bool-cases (lex_lt j k)) [
      | inl after ↦
          rw (here, after)
            (ap (cons_some (found j (newest_at n vs))) (filter_map-push_version k v m h))
      | inr equal ↦
          rw (here, equal)
            (ap (λ o. cons_some (found j o) (filter_map at_entry m)) (newest_at-later n vs v h))
    ]
  ]

  filter_map-apply_operations :
      (version_bytes s : ℕ) (ops : List Mutation) (table : Versions × ℕ)
      → n < s
      → filter_map at_entry (apply_operations version_bytes s ops table).0
        ≡ filter_map at_entry table.0
  unfolding apply_operations
  filter_map-apply_operations version_bytes s [] table h = refl
  filter_map-apply_operations version_bytes s (op ∷ ops) (m, bytes) h =
      filter_map-apply_operations version_bytes (suc s) ops _ (omega arith)
      ∙ filter_map-push_version (key op) (record { sequence = s; value = written_value op }) m h

last_write-later : (k : Bytes) (n s : ℕ) (ops : List Mutation) → n < s → last_write k n s ops ≡ none
last_write-later k n s [] h = refl
last_write-later k n s (op ∷ ops) h =
    let rest = last_write-later k n (suc s) ops (omega arith) in ground arith

module _ (version_bytes : ℕ) where
  -- A batch whose numbers begin above `n` changes no answer at `n`: neither the version of a key nor
  -- its value, nor a scan of a range, nor the versions that are visible.
  pub snapshot-apply_write_batch :
      (t t' : Memtable) (b : WriteBatch) (first last n : ℕ)
      → apply_write_batch version_bytes t b first last ≡ ok t'
      → n < first
      → ((k : Bytes) → get_version t' k n ≡ get_version t k n)
        × ((k : Bytes) → get t' k n ≡ get t k n)
        × ((start : Bytes) (end : Option Bytes) → scan t' start end n ≡ scan t start end n)
        × (visible_versions t' n ≡ visible_versions t n)
  unfolding scan visible_versions get
  snapshot-apply_write_batch t t' b first last n e h =
      let (from, numbered, versions, maximum) = apply-result version_bytes t t' b first last e in
      let same_version : (k : Bytes) → get_version t' k n ≡ get_version t k n = λ k.
        get_version-apply_write_batch version_bytes t t' b first last k n e
        ∙ ap (λ o. or_else o (get_version t k n)) (last_write-later k n first b.operations h) in
      (
        same_version,
        λ k. ap (λ o. and_then o (λ (v : VersionedValue). v.value)) (same_version k),
        λ start end.
            ap (filter_map (scan_entry start end n)) versions
            ∙ filter_map-apply_operations n
                (λ k o.
                  if within start end k
                  then map_option (λ value. (k, value))
                      (and_then o (λ (v : VersionedValue). v.value))
                  else none)
                (λ k. ground arith) version_bytes first b.operations _ h,
        ap (filter_map (visible_entry n)) versions
            ∙ filter_map-apply_operations n (λ k. map_option (λ v. (k, v))) (λ k. refl)
                version_bytes first b.operations _ h,
      )
