-- ===== src/Kv/Wal/Log.antt =====
-- wal.rs: recovery of a whole log, and of a log whose last record was cut short.
use mathlib.Core.List.{append_assoc, append-nil}
use mathlib.Core.Path.{subst}
use vyrm.Prelude.{
  ℕ, zero, suc, ◌+◌, ◌-◌, ◌^◌, ◌≤◌, ◌<◌, ◌≡◌, sym, ap, ◌∙◌, false, List, [], ◌∷◌, ◌++◌, ok, ltb,
  ◌==◌, length, length-append, take, arith,
}
use vyrm.Core.Error.{Bytes}
use vyrm.Kv.Error.{u64_max}
use vyrm.Kv.Wal.{WalBatch, RecoveredBatch, file_header, header_of, validate_file_header}
use vyrm.Kv.Wal.Recover.{recover_loop, recover_from}
use vyrm.Kv.Wal.Frames.{
  IsBatch, length-header_of, length-file_header, validate_file_header-file_header,
}
use vyrm.Kv.Wal.Recovered.{recovered, recover_loop-record}

-- Batches in the order of the log: each is one that `append` accepts, and they number the
-- operations without a gap from `next` on.
abbrev pub IsLog : ℕ → List WalBatch → Type 0
IsLog next [] = Unit
IsLog next (b ∷ bs) = IsBatch b × (b.first_sequence ≡ next) × IsLog (b.last_sequence + 1) bs

-- The number behind the last batch.
abbrev pub next_after : ℕ → List WalBatch → ℕ
next_after next [] = next
next_after next (b ∷ bs) = next_after (b.last_sequence + 1) bs

module _ (crc32c_append : ℕ → Bytes → ℕ)
    (is_u32 : (c : ℕ) (chunk : Bytes) → crc32c_append c chunk < 2 ^ 32) where
  abbrev pub frames : List WalBatch → Bytes
  frames [] = []
  frames (b ∷ bs) = (header_of crc32c_append b ++ b.payload) ++ frames bs

  -- What recovery returns of the batches of a log that begins at an offset.
  abbrev pub recovered_all : ℕ → List WalBatch → List RecoveredBatch
  recovered_all offset [] = []
  recovered_all offset (b ∷ bs) =
      recovered crc32c_append is_u32 offset b ∷ recovered_all (offset + 32 + length b.payload) bs

  pub length-frame :
      (b : WalBatch) → length (header_of crc32c_append b ++ b.payload) ≡ 32 + length b.payload
  length-frame b = omega (
    arith,
    length-append (header_of crc32c_append b) b.payload,
    length-header_of crc32c_append is_u32 b,
  )

  recover_loop-log :
      (bs : List WalBatch) (pre tail : Bytes) (offset expected fuel rounds : ℕ)
      (batches : List RecoveredBatch)
      → IsLog expected bs
      → length pre ≡ offset
      → fuel ≡ length bs + rounds
      → length (pre ++ (frames bs ++ tail)) ≤ u64_max
      → recover_loop crc32c_append fuel (pre ++ (frames bs ++ tail)) offset expected batches
        ≡ recover_loop crc32c_append rounds
            (pre ++ (frames bs ++ tail))
            (offset + length (frames bs))
            (next_after expected bs)
            (batches ++ recovered_all offset bs)
  recover_loop-log [] pre tail offset expected fuel rounds batches l at f fits =
      let same_fuel : fuel ≡ rounds = omega arith in
      let same_offset : offset ≡ offset + 0 = omega arith in
      λ i.
        recover_loop crc32c_append (same_fuel i) (pre ++ tail) (same_offset i) expected
          (sym (append-nil batches) i)
  recover_loop-log (b ∷ bs) pre tail offset expected zero rounds batches l at f fits =
      absurd (omega arith)
  recover_loop-log (b ∷ bs) pre tail offset expected (suc fuel) rounds batches l at f fits =
      let (accepted, number, later) = l in
      let shape : pre ++ (((header_of crc32c_append b ++ b.payload) ++ frames bs) ++ tail)
          ≡ pre ++ (header_of crc32c_append b ++ (b.payload ++ (frames bs ++ tail))) =
        ap (◌++◌ pre) (
          append_assoc (header_of crc32c_append b ++ b.payload) (frames bs) tail
          ∙ append_assoc (header_of crc32c_append b) b.payload (frames bs ++ tail)) in
      let shape' : (pre ++ (header_of crc32c_append b ++ b.payload)) ++ (frames bs ++ tail)
          ≡ pre ++ (header_of crc32c_append b ++ (b.payload ++ (frames bs ++ tail))) =
        append_assoc pre (header_of crc32c_append b ++ b.payload) (frames bs ++ tail)
        ∙ ap (◌++◌ pre) (append_assoc (header_of crc32c_append b) b.payload (frames bs ++ tail)) in
      let behind : length (pre ++ (header_of crc32c_append b ++ b.payload))
          ≡ offset + 32 + length b.payload =
        omega (arith, length-append pre (header_of crc32c_append b ++ b.payload), length-frame b) in
      let end : offset + 32 + length b.payload + length (frames bs)
          ≡ offset + length ((header_of crc32c_append b ++ b.payload) ++ frames bs) =
        omega (
          arith,
          length-append (header_of crc32c_append b ++ b.payload) (frames bs),
          length-frame b,
        ) in
      let r = recovered crc32c_append is_u32 offset b in
      (λ i. recover_loop crc32c_append (suc fuel) (shape i) offset (sym number i) batches)
      ∙ recover_loop-record crc32c_append is_u32 b pre (frames bs ++ tail) offset accepted at fuel
          batches (subst (λ file. length file ≤ u64_max) shape fits)
      ∙ (λ i.
          recover_loop crc32c_append fuel (sym shape' i) (offset + 32 + length b.payload)
            (b.last_sequence + 1) (batches ++ r ∷ []))
      ∙ recover_loop-log bs (pre ++ (header_of crc32c_append b ++ b.payload)) tail
          (offset + 32 + length b.payload) (b.last_sequence + 1) fuel rounds (batches ++ r ∷ [])
          later behind (omega arith)
          (subst (λ file. length file ≤ u64_max) (shape ∙ sym shape') fits)
      ∙ (λ i.
          recover_loop crc32c_append rounds ((shape' ∙ sym shape) i) (end i)
            (next_after (b.last_sequence + 1) bs)
            (append_assoc batches (r ∷ []) (recovered_all (offset + 32 + length b.payload) bs) i))

  -- The file of a log.
  abbrev pub log_file : List WalBatch → Bytes
  log_file bs = file_header crc32c_append ++ frames bs

  length-frames : (bs : List WalBatch) → length bs ≤ length (frames bs)
  length-frames [] = omega arith
  length-frames (b ∷ bs) = omega (
    arith,
    length-frames bs,
    length-frame b,
    length-append (header_of crc32c_append b ++ b.payload) (frames bs),
  )

  -- Recovery begins with the loop behind the file header.
  pub recover_from-file :
      (bs : List WalBatch) (tail : Bytes) (start : ℕ)
      → IsLog start bs
      → 0 < start
      → length (log_file bs ++ tail) ≤ u64_max
      → (rounds : ℕ) × (length tail + 16 ≤ rounds)
        × (recover_from crc32c_append (log_file bs ++ tail) start
            ≡ recover_loop crc32c_append rounds
                (log_file bs ++ tail)
                (length (log_file bs))
                (next_after start bs)
                (recovered_all 16 bs))
  unfolding recover_from
  recover_from-file bs tail start l positive fits =
      let head = length-file_header crc32c_append is_u32 in
      let total : length (log_file bs ++ tail) ≡ 16 + (length (frames bs) + length tail) = omega (
        arith,
        length-append (log_file bs) tail,
        length-append (file_header crc32c_append) (frames bs),
        head,
      ) in
      let shape : log_file bs ++ tail ≡ file_header crc32c_append ++ (frames bs ++ tail) =
        append_assoc (file_header crc32c_append) (frames bs) tail in
      let rounds = length (log_file bs ++ tail) - length bs in
      let started : (start == 0) ≡ false = ground arith in
      let long : ltb (length (log_file bs ++ tail)) 16 ≡ false = ground (arith, total) in
      let accepted : validate_file_header crc32c_append (take 16 (log_file bs ++ tail)) ≡ ok tt =
        ap (λ file. validate_file_header crc32c_append (take 16 file)) shape
        ∙ validate_file_header-file_header crc32c_append is_u32 (frames bs ++ tail) in
      let end : 16 + length (frames bs) ≡ length (log_file bs) =
        omega (arith, length-append (file_header crc32c_append) (frames bs), head) in
      (
        rounds,
        omega (arith, total, length-frames bs),
        rw (started, long, accepted)
            ((λ i. recover_loop crc32c_append (length (log_file bs ++ tail)) (shape i) 16 start [])
              ∙ recover_loop-log bs (file_header crc32c_append) tail 16 start
                  (length (log_file bs ++ tail)) rounds [] l head
                  (omega (arith, total, length-frames bs))
                  (subst (λ file. length file ≤ u64_max) shape fits)
              ∙ (λ i.
                  recover_loop crc32c_append rounds (sym shape i) (end i) (next_after start bs)
                    (recovered_all 16 bs))),
      )
