-- ===== src/Kv/Wal/Crash.antt =====
-- wal.rs: an append that fails half-way, and the repair of the file that it leaves.
use mathlib.Core.List.{append-nil}
use mathlib.Core.Path.{subst}
use vyrm.Prelude.{
  ℕ, zero, suc, ◌+◌, ◌-◌, ◌^◌, ◌≤◌, ◌<◌, ◌≡◌, refl, sym, ap, ◌∙◌, true, false, List, [], ◌++◌, none,
  some, ok, ltb, ◌==◌, length, length-append, length-take, take, drop, take-append, drop-append,
  take-append_of_le, take-append-drop, arith, Bool-cases, inl, inr,
}
use vyrm.Core.Error.{Bytes}
use vyrm.Kv.Error.{Outcome, u64_max}
use vyrm.Kv.Batch.{checked_sum}
use vyrm.Kv.Wal.{WalBatch, RecoveredBatch, Recovery, header_of}
use vyrm.Kv.Wal.Recover.{recovery_at, recover_loop, recover_from, repair_torn_tail_from}
use vyrm.Kv.Wal.Frames.{IsBatch, length-header_of, decode_record_header-header_of}
use vyrm.Kv.Wal.Log.{IsLog, next_after, recovered_all, log_file, length-frame, recover_from-file}

module _ (crc32c_append : ℕ → Bytes → ℕ)
    (is_u32 : (c : ℕ) (chunk : Bytes) → crc32c_append c chunk < 2 ^ 32) where
  recover_loop-end :
      (fuel : ℕ) (file : Bytes) (expected : ℕ) (batches : List RecoveredBatch)
      → recover_loop crc32c_append fuel file (length file) expected batches
        ≡ ok (recovery_at (length file) expected batches none)
  unfolding recover_loop
  recover_loop-end zero file expected batches = refl
  recover_loop-end (suc fuel) file expected batches =
      let done : ltb (length file) (length file) ≡ false = ground arith in rw done refl

  -- A log whose numbers begin at `start` is recovered whole: every batch at its offset with its
  -- payload and checksum, up to the last number, with no torn tail.
  pub recover_from-log :
      (bs : List WalBatch) (start : ℕ)
      → IsLog start bs
      → 0 < start
      → length (log_file crc32c_append is_u32 bs) ≤ u64_max
      → recover_from crc32c_append (log_file crc32c_append is_u32 bs) start
        ≡ ok (
            recovery_at
              (length (log_file crc32c_append is_u32 bs))
              (next_after start bs)
              (recovered_all crc32c_append is_u32 16 bs)
              none)
  recover_from-log bs start l positive fits =
      let file = log_file crc32c_append is_u32 bs in
      let whole : file ++ [] ≡ file = append-nil file in
      let (rounds, enough, run) =
        recover_from-file crc32c_append is_u32 bs [] start l positive
          (subst (λ f. length f ≤ u64_max) (sym whole) fits) in
      ap (λ f. recover_from crc32c_append f start) (sym whole)
      ∙ run
      ∙ (λ i.
          recover_loop crc32c_append rounds (whole i) (length file) (next_after start bs)
            (recovered_all crc32c_append is_u32 16 bs))
      ∙ recover_loop-end rounds file (next_after start bs)
          (recovered_all crc32c_append is_u32 16 bs)

  abbrev frame : WalBatch → Bytes
  frame b = header_of crc32c_append b ++ b.payload

  -- A record of which some but not all bytes are in the file ends the loop.
  recover_loop-torn :
      (b : WalBatch) (k fuel : ℕ) (pre : Bytes) (batches : List RecoveredBatch)
      → IsBatch b
      → 0 < k
      → k < 32 + length b.payload
      → length pre + 32 + length b.payload ≤ u64_max
      → recover_loop crc32c_append
          (suc fuel)
          (pre ++ take k (frame b))
          (length pre)
          b.first_sequence
          batches
        ≡ ok (recovery_at (length pre) b.first_sequence batches (some (length pre)))
  unfolding recover_loop
  recover_loop-torn b k fuel pre batches h some_bytes cut fits = elim (Bool-cases (ltb k 32)) [
    | inl short ↦
        let inside : ltb (length pre) (length file) ≡ true = ground (arith, size) in
        let torn : ltb (length file - length pre) 32 ≡ true = ground (arith, size) in
        rw (inside, torn) refl
    | inr long ↦
        let inside : ltb (length pre) (length file) ≡ true = ground (arith, size) in
        let enough : ltb (length file - length pre) 32 ≡ false = ground (arith, size) in
        let same : (b.first_sequence == b.first_sequence) ≡ true = ground arith in
        let end : checked_sum (length pre) 32 (length b.payload)
            ≡ some (length pre + 32 + length b.payload) =
          ground arith in
        let beyond : ltb (length file) (length pre + 32 + length b.payload) ≡ true =
          ground (arith, size) in
        let header : take 32 (drop (length pre) file) ≡ header_of crc32c_append b =
          ap (take 32) (drop-append (length pre) pre (take k (frame b)) refl)
          ∙ sym (take-append_of_le 32 (take k (frame b)) (drop k (frame b)) (ground (arith, kept)))
          ∙ ap (take 32) (take-append-drop k (frame b))
          ∙ take-append 32 (header_of crc32c_append b) b.payload
              (length-header_of crc32c_append is_u32 b) in
        rw
          (
            inside,
            enough,
            header,
            decode_record_header-header_of crc32c_append is_u32 b (length pre) h,
            same,
            end,
            beyond,
          )
          refl
  ]
    where
      file : Bytes
      file = pre ++ take k (frame b)

      kept : length (take k (frame b)) ≡ k
      kept = omega (arith, length-take k (frame b), length-frame crc32c_append is_u32 b)

      size : length file ≡ length pre + k
      size = omega (arith, length-append pre (take k (frame b)), kept)

  repair_torn_tail_from-torn :
      (file log : Bytes) (start valid next offset : ℕ) (batches : List RecoveredBatch)
      (again : Outcome Recovery)
      → recover_from crc32c_append file start ≡ ok (recovery_at valid next batches (some offset))
      → take valid file ≡ log
      → recover_from crc32c_append log start ≡ again
      → repair_torn_tail_from crc32c_append file start ≡ (log, again)
  unfolding repair_torn_tail_from
  repair_torn_tail_from-torn file log start valid next offset batches again h cut r =
      rw (h, repair_torn_tail_from)
        (λ i. (cut i, (ap (λ f. recover_from crc32c_append f start) cut ∙ r) i))

  -- A crash in the middle of an append loses nothing that was appended before: recovery of a log
  -- with some but not all bytes of one more record returns every batch of the log and reports the
  -- tail at the end of the log, and the repair cuts the file back to the log.
  pub recover_from-torn :
      (bs : List WalBatch) (b : WalBatch) (k start : ℕ)
      → IsLog start bs
      → IsBatch b
      → b.first_sequence ≡ next_after start bs
      → 0 < start
      → 0 < k
      → k < 32 + length b.payload
      → length (log_file crc32c_append is_u32 bs) + 32 + length b.payload ≤ u64_max
      → (recover_from crc32c_append (log_file crc32c_append is_u32 bs ++ take k (frame b)) start
          ≡ ok (
              recovery_at
                (length (log_file crc32c_append is_u32 bs))
                (next_after start bs)
                (recovered_all crc32c_append is_u32 16 bs)
                (some (length (log_file crc32c_append is_u32 bs)))))
        × (repair_torn_tail_from crc32c_append
              (log_file crc32c_append is_u32 bs ++ take k (frame b))
              start
            ≡ (
              log_file crc32c_append is_u32 bs,
              ok (
                  recovery_at
                    (length (log_file crc32c_append is_u32 bs))
                    (next_after start bs)
                    (recovered_all crc32c_append is_u32 16 bs)
                    none),
            ))
  recover_from-torn bs b k start l h number positive some_bytes cut fits =
      let file = log_file crc32c_append is_u32 bs in
      let kept : length (take k (frame b)) ≡ k =
        omega (arith, length-take k (frame b), length-frame crc32c_append is_u32 b) in
      let (rounds, enough, run) =
        recover_from-file crc32c_append is_u32 bs (take k (frame b)) start l positive
          (omega (arith, length-append file (take k (frame b)), kept)) in
      let round : rounds ≡ suc (rounds - 1) = omega (arith, enough) in
      let torn : recover_from crc32c_append (file ++ take k (frame b)) start
          ≡ ok (
              recovery_at (length file) (next_after start bs)
                (recovered_all crc32c_append is_u32 16 bs) (some (length file))) =
        run
        ∙ (λ i.
            recover_loop crc32c_append (round i) (file ++ take k (frame b)) (length file)
              (sym number i) (recovered_all crc32c_append is_u32 16 bs))
        ∙ recover_loop-torn b k (rounds - 1) file (recovered_all crc32c_append is_u32 16 bs) h
            some_bytes cut fits
        ∙ ap
            (λ n. ok (
              recovery_at (length file) n (recovered_all crc32c_append is_u32 16 bs)
                (some (length file))))
            number in
      let cut_back : take (length file) (file ++ take k (frame b)) ≡ file =
        take-append (length file) file (take k (frame b)) refl in
      let again = recover_from-log bs start l positive (omega arith) in
      (
        torn,
        repair_torn_tail_from-torn (file ++ take k (frame b)) file start (length file)
            (next_after start bs) (length file) (recovered_all crc32c_append is_u32 16 bs) _ torn
            cut_back again,
      )
