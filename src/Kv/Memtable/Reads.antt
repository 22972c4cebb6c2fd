-- ===== src/Kv/Memtable/Reads.antt =====
-- memtable.rs: a table is a log of numbered operations, and a read at a sequence number sees the log
-- up to that number.
use vyrm.Prelude.{
  ℕ, suc, min, ◌+◌, ◌%◌, ◌≡◌, refl, sym, ap, ◌∙◌, false, ◌&&◌, List, [], ◌∷◌, ◌++◌, Option, none,
  some, ok, if◌then◌else◌, leb, bytes_eq, bytes_eq_refl, eq_of_bytes_eq, length, lex_lt,
  lex_lt_irrefl, lex_lt_trans, lex_lt_total, arith, Bool-cases, inl, inr,
}
use vyrm.Core.Error.{Bytes}
use vyrm.Kv.Error.{u64_max}
use vyrm.Kv.Batch.{Mutation, key, WriteBatch, checked_add}
use vyrm.Kv.Memtable.{
  VersionedValue, Versions, Memtable, written_value, push_version, entry_of, or_else, newest_at,
  apply_operations, apply_write_batch, and_then, get_version,
}

-- The specification: what the operations of a log, numbered from `sequence`, leave of a key for a
-- read at `read_sequence`: the last of them on that key with a number up to it.
abbrev pub last_write : Bytes → ℕ → ℕ → List Mutation → Option VersionedValue
last_write k read_sequence sequence [] = none
last_write k read_sequence sequence (op ∷ ops) =
    or_else (last_write k read_sequence (suc sequence) ops) (
      if bytes_eq k (key op) && leb sequence read_sequence
      then some (record { sequence = sequence; value = written_value op })
      else none)

newest_at-push :
    (n : ℕ) (vs : List VersionedValue) (v : VersionedValue)
    → newest_at n (vs ++ v ∷ [])
      ≡ or_else (if leb v.sequence n then some v else none) (newest_at n vs)
unfolding newest_at
newest_at-push n [] v = ground arith
newest_at-push n (u ∷ vs) v = ground (arith, newest_at-push n vs v)

abbrev read : Bytes → ℕ → Versions → Option VersionedValue
read k n m = and_then (entry_of k m) (newest_at n)

-- A push is seen under its key from its number on.
read-push_version_self :
    (k : Bytes) (n : ℕ) (v : VersionedValue) (m : Versions)
    → read k n (push_version k v m)
      ≡ or_else (if leb v.sequence n then some v else none) (read k n m)
unfolding push_version entry_of newest_at
read-push_version_self k n v [] = ground (arith, lex_lt_irrefl k)
read-push_version_self k n v ((j, vs) ∷ m) = elim (Bool-cases (lex_lt k j)) [
  | inl before ↦ rw (before, lex_lt_irrefl k) (ground arith)
  | inr here ↦ elim (Bool-cases (lex_lt j k)) [
    | inl after ↦ ground (arith, here, after, read-push_version_self k n v m)
    | inr equal ↦ ground (arith, here, equal, newest_at-push n vs v)
  ]
]

-- Under every other key, a push changes nothing.
entry_of-push_version :
    (k j : Bytes) (v : VersionedValue) (m : Versions)
    → bytes_eq k j ≡ false
    → entry_of k (push_version j v m) ≡ entry_of k m
unfolding push_version entry_of
entry_of-push_version k j v [] h = ground (arith, lex_lt_total k j, bytes_eq_refl k)
entry_of-push_version k j v ((i, vs) ∷ m) h = elim (Bool-cases (lex_lt j i)) [
  | inl before ↦ elim (Bool-cases (lex_lt k j)) [
    | inl less ↦ rw (before, less, lex_lt_trans k j i less before) refl
    | inr more ↦ rw (before, more) (ground (arith, lex_lt_total k j, bytes_eq_refl k))
  ]
  | inr here ↦ elim (Bool-cases (lex_lt i j)) [
    | inl after ↦ rw (here, after) (ground (arith, entry_of-push_version k j v m h))
    | inr equal ↦
        ground (arith, here, equal, h, lex_lt_total k i, lex_lt_total j i, bytes_eq_refl k)
  ]
]

read-push_version :
    (k : Bytes) (n : ℕ) (s : ℕ) (op : Mutation) (m : Versions)
    → read k n (push_version (key op) (record { sequence = s; value = written_value op }) m)
      ≡ or_else
          (if bytes_eq k (key op) && leb s n
            then some (record { sequence = s; value = written_value op })
            else none)
          (read k n m)
read-push_version k n s op m = elim (Bool-cases (bytes_eq k (key op))) [
  | inl same ↦
      ap (λ j. read k n (push_version j (record { sequence = s; value = written_value op }) m))
        (sym (eq_of_bytes_eq k (key op) same))
      ∙ read-push_version_self k n _ m
      ∙ rw same refl
  | inr other ↦
      ap (λ e. and_then e (newest_at n)) (entry_of-push_version k (key op) _ m other)
      ∙ rw other refl
]

module _ (version_bytes : ℕ) where
  or_else_assoc {ℓ} :
      {A : Type ℓ} (a b c : Option A) → or_else a (or_else b c) ≡ or_else (or_else a b) c
  or_else_assoc a b c = ground arith

  read-apply_operations :
      (k : Bytes) (n s : ℕ) (ops : List Mutation) (table : Versions × ℕ)
      → read k n (apply_operations version_bytes s ops table).0
        ≡ or_else (last_write k n s ops) (read k n table.0)
  unfolding apply_operations
  read-apply_operations k n s [] table = refl
  read-apply_operations k n s (op ∷ ops) (m, bytes) =
      read-apply_operations k n (suc s) ops _
      ∙ ap (or_else (last_write k n (suc s) ops)) (read-push_version k n s op m)
      ∙ or_else_assoc (last_write k n (suc s) ops) _ (read k n m)

  pub apply-result :
      (t t' : Memtable) (b : WriteBatch) (first last : ℕ)
      → apply_write_batch version_bytes t b first last ≡ ok t'
      → (first ≡ min (t.maximum_sequence + 1) u64_max)
        × (checked_add first ((length b.operations + u64_max) % suc u64_max) ≡ some last)
        × (t'.versions
            ≡ (apply_operations version_bytes first b.operations
                (t.versions, t.approximate_bytes)).0)
        × (t'.maximum_sequence ≡ last)
  unfolding apply_write_batch
  apply-result t t' b first last e = ground arith

  -- After a batch is applied with its numbers from `first` on, a read of a key at any sequence
  -- number sees the last operation of the batch on that key with a number up to it, and where there
  -- is none, what the read saw before the batch.
  pub get_version-apply_write_batch :
      (t t' : Memtable) (b : WriteBatch) (first last : ℕ) (k : Bytes) (n : ℕ)
      → apply_write_batch version_bytes t b first last ≡ ok t'
      → get_version t' k n ≡ or_else (last_write k n first b.operations) (get_version t k n)
  unfolding get_version
  get_version-apply_write_batch t t' b first last k n e =
      let (from, numbered, versions, maximum) = apply-result t t' b first last e in
      ap (read k n) versions ∙ read-apply_operations k n first b.operations _
