-- ===== src/Core/Digest.antt =====
-- crates/vyrm-core/src/digest.rs: SHA-256, incremental. A `u32` is a number below `2 ^ 32`, and
-- what wraps is written `% 2 ^ 32`.
pub mod Blocks
pub mod Absorb
pub mod Update
pub mod Finalize
pub mod Stream
mod Tests
use Prim.Native.Nat.{bit_and, bit_xor}
use mathlib.Core.List.{zip, flatten}
use vyrm.Prelude.{
  ℕ, zero, suc, ◌+◌, ◌-◌, ◌*◌, ◌/◌, ◌%◌, ◌^◌, min, Bool, true, false, List, [], ◌∷◌, ◌++◌, Option,
  none, some, ltb, leb, ◌==◌, if◌then◌else◌, length, take, drop, replicate, get_or, map, foldl,
  to_be, from_be,
}
use vyrm.Core.Error.{Bytes}

abbrev initial : List ℕ
initial =
    0x6a09e667 ∷ 0xbb67ae85 ∷ 0x3c6ef372 ∷ 0xa54ff53a ∷ 0x510e527f ∷ 0x9b05688c ∷ 0x1f83d9ab
    ∷ 0x5be0cd19 ∷ []

abbrev round_constants : List ℕ
round_constants =
    0x428a2f98 ∷ 0x71374491 ∷ 0xb5c0fbcf ∷ 0xe9b5dba5 ∷ 0x3956c25b ∷ 0x59f111f1 ∷ 0x923f82a4
    ∷ 0xab1c5ed5 ∷ 0xd807aa98 ∷ 0x12835b01 ∷ 0x243185be ∷ 0x550c7dc3 ∷ 0x72be5d74 ∷ 0x80deb1fe
    ∷ 0x9bdc06a7 ∷ 0xc19bf174 ∷ 0xe49b69c1 ∷ 0xefbe4786 ∷ 0x0fc19dc6 ∷ 0x240ca1cc ∷ 0x2de92c6f
    ∷ 0x4a7484aa ∷ 0x5cb0a9dc ∷ 0x76f988da ∷ 0x983e5152 ∷ 0xa831c66d ∷ 0xb00327c8 ∷ 0xbf597fc7
    ∷ 0xc6e00bf3 ∷ 0xd5a79147 ∷ 0x06ca6351 ∷ 0x14292967 ∷ 0x27b70a85 ∷ 0x2e1b2138 ∷ 0x4d2c6dfc
    ∷ 0x53380d13 ∷ 0x650a7354 ∷ 0x766a0abb ∷ 0x81c2c92e ∷ 0x92722c85 ∷ 0xa2bfe8a1 ∷ 0xa81a664b
    ∷ 0xc24b8b70 ∷ 0xc76c51a3 ∷ 0xd192e819 ∷ 0xd6990624 ∷ 0xf40e3585 ∷ 0x106aa070 ∷ 0x19a4c116
    ∷ 0x1e376c08 ∷ 0x2748774c ∷ 0x34b0bcb5 ∷ 0x391c0cb3 ∷ 0x4ed8aa4a ∷ 0x5b9cca4f ∷ 0x682e6ff3
    ∷ 0x748f82ee ∷ 0x78a5636f ∷ 0x84c87814 ∷ 0x8cc70208 ∷ 0x90befffa ∷ 0xa4506ceb ∷ 0xbef9a3f7
    ∷ 0xc67178f2 ∷ []

-- The eight working variables of a round.
pub record Work : Type 0 where
  pub a : ℕ
  pub b : ℕ
  pub c : ℕ
  pub d : ℕ
  pub e : ℕ
  pub f : ℕ
  pub g : ℕ
  pub h : ℕ

wrap : ℕ → ℕ
wrap n = n % 2 ^ 32

-- `x.rotate_right(k)` and `x >> k`
rotate_right : ℕ → ℕ → ℕ
rotate_right x k = x / 2 ^ k + x % 2 ^ k * 2 ^ (32 - k)

shift_right : ℕ → ℕ → ℕ
shift_right x k = x / 2 ^ k

infixl 60 ◌xor◌
abbrev ◌xor◌ : ℕ → ℕ → ℕ
x xor y = bit_xor x y

-- The first 16 words of the schedule: the block in big-endian words.
block_words : ℕ → Bytes → List ℕ
block_words zero block = []
block_words (suc n) block = from_be (take 4 block) ∷ block_words n (drop 4 block)

-- `words[index]` for the indices from 16 up, behind the words before it.
extend : ℕ → ℕ → List ℕ → List ℕ
unfolding wrap rotate_right shift_right
extend zero index words = words
extend (suc rounds) index words =
    let w15 = get_or words (index - 15) 0 in
    let w2 = get_or words (index - 2) 0 in
    let s0 = rotate_right w15 7 xor rotate_right w15 18 xor shift_right w15 3 in
    let s1 = rotate_right w2 17 xor rotate_right w2 19 xor shift_right w2 10 in
    let word =
      wrap (wrap (wrap (get_or words (index - 16) 0 + s0) + get_or words (index - 7) 0) + s1) in
    extend rounds (index + 1) (words ++ word ∷ [])

round : Work → ℕ × ℕ → Work
unfolding wrap rotate_right
round w (k, word) =
    let sum1 = rotate_right w.e 6 xor rotate_right w.e 11 xor rotate_right w.e 25 in
    let choose = bit_and w.e w.f xor bit_and (2 ^ 32 - 1 - w.e) w.g in
    let t1 = wrap (wrap (wrap (wrap (w.h + sum1) + choose) + k) + word) in
    let sum0 = rotate_right w.a 2 xor rotate_right w.a 13 xor rotate_right w.a 22 in
    let majority = bit_and w.a w.b xor bit_and w.a w.c xor bit_and w.b w.c in
    let t2 = wrap (sum0 + majority) in
    record {
      a = wrap (t1 + t2);
      b = w.a;
      c = w.b;
      d = w.c;
      e = wrap (w.d + t1);
      f = w.e;
      g = w.f;
      h = w.g;
    }

load_work : List ℕ → Work
load_work s = record {
  a = get_or s 0 0;
  b = get_or s 1 0;
  c = get_or s 2 0;
  d = get_or s 3 0;
  e = get_or s 4 0;
  f = get_or s 5 0;
  g = get_or s 6 0;
  h = get_or s 7 0;
}

store_work : Work → List ℕ
store_work w = w.a ∷ w.b ∷ w.c ∷ w.d ∷ w.e ∷ w.f ∷ w.g ∷ w.h ∷ []

add_words : ℕ × ℕ → ℕ
unfolding wrap
add_words (slot, value) = wrap (slot + value)

unfoldable pub compress : List ℕ → Bytes → List ℕ
unfolding block_words extend round load_work store_work add_words
compress state block =
    let words = extend 48 16 (block_words 16 block) in
    let work = foldl round (load_work state) (zip round_constants words) in
    map add_words (zip state (store_work work))

pub record Sha256 : Type 0 where
  pub state : List ℕ
  pub buffer : Bytes
  pub buffered : ℕ
  pub length_ : ℕ

unfoldable pub new : Sha256
new = record { state = initial; buffer = replicate 64 0; buffered = 0; length_ = 0 }

-- `buffer[at..at + input.len()].copy_from_slice(input)`
unfoldable pub copy_at : Bytes → ℕ → Bytes → Bytes
copy_at buffer at input = take at buffer ++ (input ++ drop (at + length input) buffer)

-- `while input.len() >= 64`, with the number of rounds that the length allows as fuel: the state,
-- and the input that is left.
unfoldable pub absorb : ℕ → List ℕ → Bytes → List ℕ × Bytes
absorb zero state input = (state, input)
absorb (suc fuel) state input =
    let rest = absorb fuel (compress state (take 64 input)) (drop 64 input) in
    if leb 64 (length input) then rest else (state, input)

-- What `update` does when the buffer is empty.
unfoldable pub update_blocks : Sha256 → Bytes → Sha256
update_blocks s input =
    let (state, rest) = absorb (length input) s.state input in
    record s { state = state; buffer = copy_at s.buffer 0 rest; buffered = length rest }

-- What it does with bytes in the buffer: fill it up, and go on if that completes a block.
unfoldable pub update_buffered : Sha256 → Bytes → Sha256
update_buffered s input =
    let n = min (64 - s.buffered) (length input) in
    let buffer = copy_at s.buffer s.buffered (take n input) in
    if s.buffered + n == 64
    then update_blocks (record s { state = compress s.state buffer; buffer = buffer; buffered = 0 })
        (drop n input)
    else record s { buffer = buffer; buffered = s.buffered + n }

unfoldable pub absorb_input : Sha256 → Bytes → Sha256
absorb_input s input =
    let t = record s { length_ = s.length_ + length input } in
    if t.buffered == 0 then update_blocks t input else update_buffered t input

-- `none` is the panic on a length that leaves the `u64`.
unfoldable pub update : Sha256 → Bytes → Option Sha256
update s input =
    if leb (s.length_ + length input) (2 ^ 64 - 1) then some (absorb_input s input) else none

-- `buffer[from..to].fill(0)`
unfoldable pub fill_zero : Bytes → ℕ → ℕ → Bytes
fill_zero buffer from to = copy_at buffer from (replicate (to - from) 0)

unfoldable pub output : List ℕ → Bytes
output state = flatten (map (to_be 4) state)

unfoldable pub finalize : Sha256 → Bytes
finalize s =
    let bits = to_be 8 (s.length_ * 8 % 2 ^ 64) in
    let marked = copy_at s.buffer s.buffered (0x80 ∷ []) in
    let used = s.buffered + 1 in
    if ltb 56 used
    then (let state = compress s.state (fill_zero marked used 64) in
        output (compress state (copy_at (replicate 64 0) 56 bits)))
    else output (compress s.state (copy_at (fill_zero marked used 56) 56 bits))

-- `sha256(input)`: a slice in memory is shorter than `2 ^ 63` bytes, so that `update` returns.
unfoldable pub sha256 : Bytes → Bytes
sha256 input = finalize (absorb_input new input)

hex_digit : ℕ → ℕ
hex_digit d = if ltb d 10 then 48 + d else 87 + d

-- `hex`: two lower-case hexadecimal digits for each byte.
unfoldable pub hex : Bytes → Bytes
unfolding hex_digit
hex [] = []
hex (b ∷ bs) = hex_digit (b / 16) ∷ hex_digit (b % 16) ∷ hex bs

unfoldable pub sha256_hex : Bytes → Bytes
sha256_hex input = hex (sha256 input)
