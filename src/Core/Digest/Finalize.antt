-- ===== src/Core/Digest/Finalize.antt =====
-- digest.rs: `finalize` pads and hashes what is left as FIPS 180-4 says.
use vyrm.Core.Digest.Blocks.{
  digest_blocks, pad, reference, digest_blocks-append, length-copy_at, take-copy_at, copy_at_full,
  reference_tail,
}
use vyrm.Core.Digest.Update.{Represents, length-rest}
use mathlib.Core.List.{append_assoc}
use vyrm.Prelude.{
  ℕ, ◌+◌, ◌-◌, ◌*◌, ◌/◌, ◌%◌, ◌^◌, ◌≤◌, ◌<◌, ◌≡◌, sym, ap, ap₂, ◌∙◌, [], ◌∷◌, ◌++◌, ltb, length,
  length-append, take, replicate, length-replicate, replicate-add, take_all, to_be, length-digits,
  arith, Bool-cases, inl, inr,
}
use vyrm.Core.Error.{Bytes}
use vyrm.Core.Digest.{Sha256, compress, initial, copy_at, fill_zero, output, finalize}
use vyrm.Core.Digest.Blocks.{
  digest_blocks, pad, reference, digest_blocks-append, length-copy_at, take-copy_at, copy_at_full,
  reference_tail,
}
use vyrm.Core.Digest.Update.{Represents, length-rest}

module _ (s : Sha256) (text : Bytes) (r : Represents s text) where
  open r use {blocks, full, rest, cut, whole, hashed, room, held, partial, counted}

  marked : Bytes
  marked = copy_at s.buffer s.buffered (0x80 ∷ [])

  length-marked : length marked ≡ 64
  unfolding marked
  length-marked = length-copy_at s.buffer s.buffered (0x80 ∷ []) (omega arith) ∙ room

  length-fill_zero :
      (to : ℕ) → s.buffered < to → to ≤ 64 → length (fill_zero marked (s.buffered + 1) to) ≡ 64
  unfolding fill_zero
  length-fill_zero to h k =
      length-copy_at marked (s.buffered + 1) (replicate (to - (s.buffered + 1)) 0)
        (omega (arith, length-marked, length-replicate {0} {A = ℕ} (to - (s.buffered + 1)) 0))
      ∙ length-marked

  -- The buffer with the one bit behind its bytes, and zeros from there up to a place.
  take-fill_zero :
      (to : ℕ)
      → s.buffered < to
      → to ≤ 64
      → take to (fill_zero marked (s.buffered + 1) to)
        ≡ rest ++ (0x80 ∷ replicate (to - (s.buffered + 1)) 0)
  unfolding fill_zero marked
  take-fill_zero to h k =
      let zeros : Bytes = replicate (to - (s.buffered + 1)) 0 in
      let end : s.buffered + 1 + length zeros ≡ to =
        omega (arith, length-replicate {0} {A = ℕ} (to - (s.buffered + 1)) 0) in
      let fits : s.buffered + 1 ≤ length marked = omega (arith, length-marked) in
      (rw end at (take-copy_at marked (s.buffered + 1) zeros fits))
      ∙ ap (λ t. t ++ zeros) (take-copy_at s.buffer s.buffered (0x80 ∷ []) (omega arith))
      ∙ append_assoc (take s.buffered s.buffer) (0x80 ∷ []) zeros
      ∙ ap (λ t. t ++ (0x80 ∷ zeros)) held

  bits : Bytes
  bits = to_be 8 (length text * 8 % 2 ^ 64)

  -- What follows the whole blocks in the padded text, with so many zeros.
  padded_rest : ℕ → Bytes
  padded_rest zeros = rest ++ (0x80 ∷ (replicate zeros 0 ++ bits))

  zeros : ℕ
  zeros = (119 - length text % 64) % 64

  length-padded_rest : (n : ℕ) → length (padded_rest n) ≡ s.buffered + 1 + n + 8
  unfolding padded_rest bits
  length-padded_rest n = omega (
    arith,
    length-append rest (0x80 ∷ (replicate n 0 ++ bits)),
    length-append (replicate n 0) bits,
    length-replicate {0} {A = ℕ} n 0,
    length-digits 256 8 (length text * 8 % 2 ^ 64),
    length-rest s text (take 0 text) r,
  )

  pad-padded_rest : pad text ≡ full ++ padded_rest zeros
  unfolding padded_rest bits zeros
  pad-padded_rest =
      let tail : Bytes = 0x80 ∷ (replicate zeros 0 ++ bits) in
      ap (λ t. t ++ tail) cut ∙ append_assoc full rest tail

  remainder : length text % 64 ≡ s.buffered
  remainder =
      let e : length text ≡ length (full ++ rest) = ap length cut in
      omega (arith, length-append full rest, length-rest s text (take 0 text) r)

  reference_rest :
      (j n : ℕ)
      → zeros ≡ n
      → s.buffered + 1 + n + 8 ≡ j * 64
      → reference text ≡ output (digest_blocks j s.state (padded_rest n))
  reference_rest j n z h =
      ap (λ t. output (digest_blocks (length t / 64) initial t))
        (pad-padded_rest ∙ ap (λ k. full ++ padded_rest k) z)
      ∙ ap output (
          reference_tail blocks j full (padded_rest n) whole (length-padded_rest n ∙ h)
          ∙ ap (λ t. digest_blocks j t (padded_rest n)) (sym hashed))

  -- The length still fits behind the one bit: one more block.
  one_block :
      s.buffered < 56
      → output (compress s.state (copy_at (fill_zero marked (s.buffered + 1) 56) 56 bits))
        ≡ reference text
  unfolding bits padded_rest digest_blocks zeros
  one_block h =
      let filled = fill_zero marked (s.buffered + 1) 56 in
      let n = 56 - (s.buffered + 1) in
      let z : zeros ≡ n = omega (arith, remainder) in
      let block : copy_at filled 56 bits ≡ padded_rest n =
        copy_at_full filled 56 bits (
          omega (
            arith,
            length-fill_zero 56 h (omega arith),
            length-digits 256 8 (length text * 8 % 2 ^ 64),
          ))
        ∙ ap (λ t. t ++ bits) (take-fill_zero 56 h (omega arith))
        ∙ append_assoc rest (0x80 ∷ replicate n 0) bits in
      let whole_block : take 64 (padded_rest n) ≡ padded_rest n =
        take_all 64 (padded_rest n) (omega (arith, length-padded_rest n)) in
      ap (λ t. output (compress s.state t)) (block ∙ sym whole_block)
      ∙ sym (reference_rest 1 n z (omega arith))

  -- It does not: the zeros run on into a second block.
  two_blocks :
      56 ≤ s.buffered
      → output (
          compress
            (compress s.state (fill_zero marked (s.buffered + 1) 64))
            (copy_at (replicate 64 0) 56 bits))
        ≡ reference text
  unfolding bits padded_rest digest_blocks zeros
  two_blocks h =
      let first = fill_zero marked (s.buffered + 1) 64 in
      let n = 64 - (s.buffered + 1) in
      let z : zeros ≡ n + 56 = omega (arith, remainder) in
      let last : Bytes = replicate 56 0 ++ bits in
      let width = length-digits 256 8 (length text * 8 % 2 ^ 64) in
      let long : length first ≡ 64 = length-fill_zero 64 (omega arith) (omega arith) in
      let head : first ≡ rest ++ (0x80 ∷ replicate n 0) =
        sym (take_all 64 first (omega arith)) ∙ take-fill_zero 64 (omega arith) (omega arith) in
      let end : copy_at (replicate 64 0) 56 bits ≡ last =
        copy_at_full (replicate 64 0) 56 bits (omega (arith, width)) in
      let cut_ : padded_rest (n + 56) ≡ first ++ last =
        ap (λ t. rest ++ (0x80 ∷ (t ++ bits))) (replicate-add n 56 0)
        ∙ ap (λ t. rest ++ (0x80 ∷ t)) (append_assoc (replicate n 0) (replicate 56 0) bits)
        ∙ sym (append_assoc rest (0x80 ∷ replicate n 0) last)
        ∙ ap (λ t. t ++ last) (sym head) in
      let run : digest_blocks 2 s.state (first ++ last) ≡ compress (compress s.state first) last =
        digest_blocks-append 1 1 s.state first last long
        ∙ ap₂ (λ t u. compress (compress s.state t) u) (take_all 64 first (omega arith))
            (take_all 64 last (omega (arith, width))) in
      ap (λ t. output (compress (compress s.state first) t)) end
      ∙ ap output (sym run)
      ∙ ap (λ t. output (digest_blocks 2 s.state t)) (sym cut_)
      ∙ sym (reference_rest 2 (n + 56) z (omega arith))

-- The digest of a state that stands for a text is the reference digest of that text.
pub finalize-reference :
    (s : Sha256) (text : Bytes) → Represents s text → finalize s ≡ reference text
unfolding finalize marked bits
finalize-reference s text r = elim (Bool-cases (ltb 56 (s.buffered + 1))) [
  | inl late ↦ rw late (rw r.counted (two_blocks s text r (ground arith)))
  | inr early ↦ rw early (rw r.counted (one_block s text r (ground arith)))
]
