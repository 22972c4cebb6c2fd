-- ===== src/Kv/Wal/Writer.antt =====
-- wal.rs: the writer. Its file is a log, and its next number is the one behind the log.
use mathlib.Core.List.{append_assoc, append-nil}
use vyrm.Prelude.{
  ℕ, ◌+◌, ◌^◌, ◌≤◌, ◌<◌, ◌≡◌, refl, sym, ap, ◌∙◌, true, false, List, [], ◌∷◌, ◌++◌, some, ok, err,
  length, length-append, take, arith, ◌⊎◌, Result-cases, inl, inr,
}
use vyrm.Core.Error.{Bytes}
use vyrm.Kv.Error.{Error, Outcome, u64_max, poisoned_writer, io}
use vyrm.Kv.Batch.{checked_add}
use vyrm.Kv.Wal.{
  WalBatch, WalWriter, Durability, AppendReceipt, Written, complete, failed, validate, file_header,
  header_of, check_append, record_header, write_record, append,
}
use vyrm.Kv.Wal.Frames.{IsBatch, validate-IsBatch, IsBatch-validate}
use vyrm.Kv.Wal.Log.{IsLog, next_after, frames, log_file, length-frame}

-- A batch that a writer takes: the writer has met no failure, and the batch is valid and has the next
-- number.
pub record IsNext (w : WalWriter) (b : WalBatch) : Type 0 where
  pub ready : w.poisoned ≡ false
  pub batch : IsBatch b
  pub number : b.first_sequence ≡ w.next_sequence

module _ (crc32c_append : ℕ → Bytes → ℕ)
    (is_u32 : (c : ℕ) (chunk : Bytes) → crc32c_append c chunk < 2 ^ 32) where
  pub record IsWriter (start : ℕ) (bs : List WalBatch) (w : WalWriter) : Type 0 where
    pub file : w.file ≡ log_file crc32c_append is_u32 bs
    pub next : w.next_sequence ≡ next_after start bs
    pub log : IsLog start bs
    pub ready : w.poisoned ≡ false

  IsLog-snoc :
      (start : ℕ) (bs : List WalBatch) (b : WalBatch)
      → IsLog start bs
      → IsBatch b
      → b.first_sequence ≡ next_after start bs
      → IsLog start (bs ++ b ∷ [])
  IsLog-snoc start [] b l h e = (h, e, tt)
  IsLog-snoc start (c ∷ bs) b l h e = (l.0, l.1, IsLog-snoc (c.last_sequence + 1) bs b l.2 h e)

  next_after-snoc :
      (start : ℕ) (bs : List WalBatch) (b : WalBatch)
      → next_after start (bs ++ b ∷ []) ≡ b.last_sequence + 1
  next_after-snoc start [] b = refl
  next_after-snoc start (c ∷ bs) b = next_after-snoc (c.last_sequence + 1) bs b

  frames-snoc :
      (bs : List WalBatch) (b : WalBatch)
      → frames crc32c_append is_u32 (bs ++ b ∷ [])
        ≡ frames crc32c_append is_u32 bs ++ (header_of crc32c_append b ++ b.payload)
  frames-snoc [] b = append-nil (header_of crc32c_append b ++ b.payload)
  frames-snoc (c ∷ bs) b =
      ap (◌++◌ (header_of crc32c_append c ++ c.payload)) (frames-snoc bs b)
      ∙ sym (
          append_assoc (header_of crc32c_append c ++ c.payload) (frames crc32c_append is_u32 bs)
            (header_of crc32c_append b ++ b.payload))

  check_append-result :
      (w : WalWriter) (b : WalBatch) (header : Bytes)
      → check_append crc32c_append w b ≡ ok header
      → (validate b ≡ ok tt) × (b.first_sequence ≡ w.next_sequence)
  unfolding check_append
  check_append-result w b header e = ground arith

  check_append-ready :
      (w : WalWriter) (b : WalBatch) (header : Bytes)
      → check_append crc32c_append w b ≡ ok header
      → w.poisoned ≡ false
  unfolding check_append
  check_append-ready w b header e = ground arith

  IsNext-check_append :
      (w : WalWriter) (b : WalBatch)
      → IsNext w b
      → check_append crc32c_append w b ≡ ok (header_of crc32c_append b)
  unfolding check_append record_header
  IsNext-check_append w b next =
      ground (arith, next.ready, IsBatch-validate b next.batch, next.batch.size, next.number)

  append-accepted :
      (w w' : WalWriter) (b : WalBatch) (d : Durability) (r : AppendReceipt)
      → append crc32c_append w b d complete ≡ (w', ok r)
      → (header : Bytes) × (check_append crc32c_append w b ≡ ok header)
        × (write_record crc32c_append w b d complete ≡ (w', ok r))
  unfolding append
  append-accepted w w' b d r e = go (check_append crc32c_append w b) refl e
    where
      go :
          (c : Outcome Bytes)
          → check_append crc32c_append w b ≡ c
          → (elim c [ err x ↦ (w, err x) | ok header ↦ write_record crc32c_append w b d complete ])
            ≡ (w', ok r)
          → (header : Bytes) × (check_append crc32c_append w b ≡ ok header)
            × (write_record crc32c_append w b d complete ≡ (w', ok r))
      go (err x) q f = absurd (ground arith)
      go (ok header) q f = (header, q, f)

  write_record-complete :
      (w w' : WalWriter) (b : WalBatch) (d : Durability) (r : AppendReceipt)
      → b.last_sequence < u64_max
      → write_record crc32c_append w b d complete ≡ (w', ok r)
      → (w'.file ≡ w.file ++ (header_of crc32c_append b ++ b.payload))
        × (w'.next_sequence ≡ b.last_sequence + 1)
        × (w'.poisoned ≡ w.poisoned)
        × (r.offset ≡ length w.file)
        × (r.end_offset ≡ length w.file + 32 + length b.payload)
  unfolding write_record
  write_record-complete w w' b d r room e =
      let next : checked_add b.last_sequence 1 ≡ some (b.last_sequence + 1) =
        ground (arith, room) in
      let f = rw (next, write_record) at e in
      (
        sym (ap (λ (x : WalWriter × Outcome AppendReceipt). x.0.file) f),
        sym (ap (λ (x : WalWriter × Outcome AppendReceipt). x.0.next_sequence) f),
        sym (ap (λ (x : WalWriter × Outcome AppendReceipt). x.0.poisoned) f),
        ground (arith, f),
        ground (arith, f),
      )

  -- An append that succeeds on the writer of a log leaves the writer of the log with that batch at
  -- its end, and its receipt gives the bounds of the new record in the file.
  pub append-IsWriter :
      (start : ℕ) (bs : List WalBatch) (w w' : WalWriter) (b : WalBatch) (d : Durability)
      (r : AppendReceipt)
      → IsWriter start bs w
      → b.last_sequence ≤ u64_max
      → append crc32c_append w b d complete ≡ (w', ok r)
      → IsWriter start (bs ++ b ∷ []) w'
        × (r.offset ≡ length w.file)
        × (r.end_offset ≡ length w'.file)
  append-IsWriter start bs w w' b d r h fits e =
      let (header, checked, written) = append-accepted w w' b d r e in
      let (valid, number) = check_append-result w b header checked in
      let accepted = validate-IsBatch b fits valid in
      let (file, next, ready, offset, end) =
        write_record-complete w w' b d r accepted.room written in
      let record_bytes = header_of crc32c_append b ++ b.payload in
      (
        record {
          file =
              file
              ∙ ap (λ f. f ++ record_bytes) h.file
              ∙ append_assoc (file_header crc32c_append) (frames crc32c_append is_u32 bs)
                  record_bytes
              ∙ ap (◌++◌ (file_header crc32c_append)) (sym (frames-snoc bs b));
          next = next ∙ sym (next_after-snoc start bs b);
          log = IsLog-snoc start bs b h.log accepted (number ∙ h.next);
          ready = ready ∙ h.ready;
        },
        offset,
        omega (
          arith,
          end,
          ap length file,
          length-append w.file record_bytes,
          length-frame crc32c_append is_u32 b,
        ),
      )

  check_append-IsNext :
      (w : WalWriter) (b : WalBatch) (header : Bytes)
      → b.last_sequence ≤ u64_max
      → check_append crc32c_append w b ≡ ok header
      → IsNext w b
  check_append-IsNext w b header fits e =
      let (valid, number) = check_append-result w b header e in
      record {
        ready = check_append-ready w b header e;
        batch = validate-IsBatch b fits valid;
        number = number;
      }

  -- An append whose write fails, with any number of the record's bytes in the file, returns an error.
  -- Where the writer is poisoned, or the batch is no valid batch, or its first number is not the
  -- writer's next one, the error is that of the checks in front of the write, and the writer is left
  -- alone. In every other case, and in no other, those bytes are at the end of the file and the writer
  -- is poisoned: every later append of any batch returns an error and leaves the writer alone. The
  -- batch's last number is a 64-bit one.
  pub append-failed :
      (w : WalWriter) (b c : WalBatch) (d d' : Durability) (kept : ℕ) (written : Written)
      → b.last_sequence ≤ u64_max
      → ((x : Error) × (check_append crc32c_append w b ≡ err x)
          × (append crc32c_append w b d (failed kept) ≡ (w, err x))
          × (¬ IsNext w b))
        ⊎ (IsNext w b
            × ((w' : WalWriter) × (append crc32c_append w b d (failed kept) ≡ (w', err io))
                × (w'.file ≡ w.file ++ take kept (header_of crc32c_append b ++ b.payload))
                × (append crc32c_append w' c d' written ≡ (w', err poisoned_writer))))
  unfolding append check_append write_record
  append-failed w b c d d' kept written fits =
      elim (Result-cases (check_append crc32c_append w b)) [
        | inr (x, q) ↦
            inl (x, q, rw (q, append) refl, λ next. ground (arith, q, IsNext-check_append w b next))
        | inl (header, q) ↦ inr (
          check_append-IsNext w b header fits q,
          (
            record w {
              file = w.file ++ take kept (header_of crc32c_append b ++ b.payload);
              poisoned = true;
            },
            rw (q, append) refl,
            refl,
            refl,
          ),
        )
      ]
