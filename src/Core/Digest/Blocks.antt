-- ===== src/Core/Digest/Blocks.antt =====
-- digest.rs: whole blocks, the padding of FIPS 180-4, and what a write into the buffer leaves.
use mathlib.Core.List.{append_assoc, append-nil}
use native.Mathlib.Nat.{zero-add, suc-add}
use vyrm.Prelude.{
  ℕ, zero, suc, ◌+◌, ◌-◌, ◌*◌, ◌/◌, ◌%◌, ◌^◌, ◌≤◌, ◌≡◌, ap₂, ◌∙◌, List, [], ◌∷◌, ◌++◌, length,
  length-append, take, drop, replicate, take-append, length-take, length-drop, drop_all,
  take-append_of_le, drop-append_of_le, to_be, arith,
}
use vyrm.Core.Error.{Bytes}
use vyrm.Core.Digest.{compress, initial, copy_at, output}

-- The state after the first `n` blocks of a text.
unfoldable pub digest_blocks : ℕ → List ℕ → Bytes → List ℕ
digest_blocks zero state text = state
digest_blocks (suc n) state text = digest_blocks n (compress state (take 64 text)) (drop 64 text)

-- The padded text: a one bit, zeros up to the last 8 bytes of a block, the length in bits.
abbrev pub pad : Bytes → Bytes
pad text =
    text
    ++ (0x80 ∷ (replicate ((119 - length text % 64) % 64) 0 ++ to_be 8 (length text * 8 % 2 ^ 64)))

-- SHA-256 of a text in memory.
abbrev pub reference : Bytes → Bytes
reference text = output (digest_blocks (length (pad text) / 64) initial (pad text))

pub digest_blocks-append :
    (n k : ℕ) (state : List ℕ) (x y : Bytes)
    → length x ≡ n * 64
    → digest_blocks (n + k) state (x ++ y) ≡ digest_blocks k (digest_blocks n state x) y
unfolding digest_blocks
digest_blocks-append zero k state [] y h = rw zero-add
digest_blocks-append zero k state (b ∷ x) y h = absurd (omega arith)
digest_blocks-append (suc n) k state x y h = rw suc-add (
    ap₂ (λ t u. digest_blocks (n + k) (compress state t) u) (take-append_of_le 64 x y (omega arith))
      (drop-append_of_le 64 x y (omega arith))
    ∙ (digest_blocks-append n k (compress state (take 64 x)) (drop 64 x) y
        (omega (arith, length-drop 64 x))))

module _ (b : Bytes) (at : ℕ) (i : Bytes) where
  pub length-copy_at : at + length i ≤ length b → length (copy_at b at i) ≡ length b
  unfolding copy_at
  length-copy_at h = omega (
    arith,
    length-append (take at b) (i ++ drop (at + length i) b),
    length-append i (drop (at + length i) b),
    length-take at b,
    length-drop (at + length i) b,
  )

  pub take-copy_at : at ≤ length b → take (at + length i) (copy_at b at i) ≡ take at b ++ i
  unfolding copy_at
  take-copy_at h = rw (← append_assoc (take at b) i (drop (at + length i) b)) (
      take-append (at + length i) (take at b ++ i) (drop (at + length i) b)
        (omega (arith, length-append (take at b) i, length-take at b)))

  pub copy_at_full : at + length i ≡ length b → copy_at b at i ≡ take at b ++ i
  unfolding copy_at
  copy_at_full h = rw (drop_all (at + length i) b (omega arith), append-nil)

-- The reference digest of whole blocks followed by a padded tail.
pub reference_tail :
    (k j : ℕ) (full tail : Bytes)
    → length full ≡ k * 64
    → length tail ≡ j * 64
    → digest_blocks (length (full ++ tail) / 64) initial (full ++ tail)
      ≡ digest_blocks j (digest_blocks k initial full) tail
reference_tail k j full tail whole tails =
    let n : length (full ++ tail) / 64 ≡ k + j = omega (arith, length-append full tail) in
    rw n (digest_blocks-append k j initial full tail whole)
