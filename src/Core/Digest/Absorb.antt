-- ===== src/Core/Digest/Absorb.antt =====
-- digest.rs: the loop of `update` over whole blocks.
use vyrm.Core.Digest.Blocks.{digest_blocks}
use mathlib.Core.List.{append_assoc}
use vyrm.Prelude.{
  ℕ, zero, suc, ◌*◌, ◌≤◌, ◌<◌, ◌≡◌, refl, sym, ap, ◌∙◌, List, [], ◌++◌, leb, length, length-append,
  take, drop, take-append, drop-append, take-append-drop, length-take, length-drop, arith,
  Bool-cases, inl, inr,
}
use vyrm.Core.Error.{Bytes}
use vyrm.Core.Digest.{compress, absorb}
use vyrm.Core.Digest.Blocks.{digest_blocks}

-- The loop of `update` consumes whole blocks and stops short of one.
pub record Absorbed (state : List ℕ) (input : Bytes) (r : List ℕ × Bytes) : Type 0 where
  pub blocks : ℕ
  pub full : Bytes
  pub cut : input ≡ full ++ r.1
  pub whole : length full ≡ blocks * 64
  pub hashed : r.0 ≡ digest_blocks blocks state full
  pub short : length r.1 < 64

Absorbed-block :
    (state : List ℕ) (input : Bytes) (r : List ℕ × Bytes)
    → 64 ≤ length input
    → Absorbed (compress state (take 64 input)) (drop 64 input) r
    → Absorbed state input r
unfolding digest_blocks
Absorbed-block state input r long a =
    let first : length (take 64 input) ≡ 64 = omega (arith, length-take 64 input) in
    record {
      blocks = suc a.blocks;
      full = take 64 input ++ a.full;
      cut = rw append_assoc (sym (take-append-drop 64 input) ∙ ap (λ t. take 64 input ++ t) a.cut);
      whole = omega (arith, length-append (take 64 input) a.full, first, a.whole);
      hashed =
          rw
            (
              take-append 64 (take 64 input) a.full first,
              drop-append 64 (take 64 input) a.full first,
            )
            a.hashed;
      short = a.short;
    }

Absorbed-none :
    (state : List ℕ) (input : Bytes) → length input < 64 → Absorbed state input (state, input)
unfolding digest_blocks
Absorbed-none state input h = record {
  blocks = 0;
  full = [];
  cut = refl;
  whole = omega arith;
  hashed = refl;
  short = h;
}

pub absorb-Absorbed :
    (fuel : ℕ) (state : List ℕ) (input : Bytes)
    → length input ≤ fuel
    → Absorbed state input (absorb fuel state input)
unfolding absorb
absorb-Absorbed zero state input h = Absorbed-none state input (omega arith)
absorb-Absorbed (suc fuel) state input h = elim (Bool-cases (leb 64 (length input))) [
  | inl long ↦ rw long (
      Absorbed-block state input _ (ground arith) (
        absorb-Absorbed fuel (compress state (take 64 input)) (drop 64 input)
          (omega (arith, length-drop 64 input))))
  | inr short_ ↦ rw short_ (Absorbed-none state input (ground arith))
]
