-- ===== src/Core/Key/Decimal.antt =====
-- The decimal fields of a key: `format!("{n:020}")` and `str::parse::<u64>`.
use vyrm.Prelude.{
  ℕ, suc, ◌+◌, ◌-◌, ◌*◌, ◌^◌, ◌<◌, ◌≤◌, ◌≡◌, refl, ◌∙◌, ap, ◌&&◌, List, [], ◌∷◌, Option, none, some,
  ltb, leb, ◌==◌, if◌then◌else◌, map, length, digits, value_from, value_from-digits, length-digits,
  lex_lt, lex_lt-digits, digits-All, All, arith, bytes_eq, bytes_eq-digits,
}
use vyrm.Core.Error.{Bytes}

abbrev pub u64_max : ℕ
u64_max = 2 ^ 64 - 1

-- The ASCII digit.
abbrev pub ascii : ℕ → ℕ
ascii d = 48 + d

-- `n` in `w` decimal digits, with zeros in front. A `u64` has at most 20, so `{n:020}` writes 20.
unfoldable pub decimal : ℕ → ℕ → Bytes
decimal w n = map ascii (digits 10 w n)

-- The loop of `parse`: `checked_mul(10)` and `checked_add`, so that an overflow fails.
unfoldable pub parse_digits : ℕ → Bytes → Option ℕ
parse_digits acc [] = some acc
parse_digits acc (c ∷ cs) =
    if leb 48 c && leb c 57 && leb (acc * 10 + (c - 48)) u64_max
    then parse_digits (acc * 10 + (c - 48)) cs
    else none

-- The empty text and a lone sign fail; one leading `+` is read over.
unfoldable pub parse_u64 : Bytes → Option ℕ
parse_u64 [] = none
parse_u64 (c ∷ []) = parse_digits 0 (c ∷ [])
parse_u64 (c ∷ d ∷ cs) = if c == b'+' then parse_digits 0 (d ∷ cs) else parse_digits 0 (c ∷ d ∷ cs)

length-map-ascii : (ds : List ℕ) → length (map ascii ds) ≡ length ds
length-map-ascii [] = refl
length-map-ascii (d ∷ ds) = ap suc (length-map-ascii ds)

pub length-decimal : (w n : ℕ) → length (decimal w n) ≡ w
unfolding decimal
length-decimal w n = length-map-ascii (digits 10 w n) ∙ length-digits 10 w n

lex_lt-map-ascii : (xs ys : List ℕ) → lex_lt (map ascii xs) (map ascii ys) ≡ lex_lt xs ys
unfolding lex_lt
lex_lt-map-ascii [] [] = refl
lex_lt-map-ascii [] (y ∷ ys) = refl
lex_lt-map-ascii (x ∷ xs) [] = refl
lex_lt-map-ascii (x ∷ xs) (y ∷ ys) = ground (arith, lex_lt-map-ascii xs ys)

bytes_eq-map-ascii : (xs ys : List ℕ) → bytes_eq (map ascii xs) (map ascii ys) ≡ bytes_eq xs ys
unfolding bytes_eq
bytes_eq-map-ascii [] [] = refl
bytes_eq-map-ascii [] (y ∷ ys) = refl
bytes_eq-map-ascii (x ∷ xs) [] = refl
bytes_eq-map-ascii (x ∷ xs) (y ∷ ys) = ground (arith, bytes_eq-map-ascii xs ys)

-- The order of the fields is the order of the numbers.
pub lex_lt-decimal :
    (w n m : ℕ) → n < 10 ^ w → m < 10 ^ w → lex_lt (decimal w n) (decimal w m) ≡ ltb n m
unfolding decimal
lex_lt-decimal w n m h k = lex_lt-map-ascii _ _ ∙ lex_lt-digits 10 w n m (omega arith) h k

pub bytes_eq-decimal :
    (w n m : ℕ) → n < 10 ^ w → m < 10 ^ w → bytes_eq (decimal w n) (decimal w m) ≡ (n == m)
unfolding decimal
bytes_eq-decimal w n m h k = bytes_eq-map-ascii _ _ ∙ bytes_eq-digits 10 w n m (omega arith) h k

-- A row of digits parses to its value, if that is a `u64`.
value_from-ge : (acc : ℕ) (ds : List ℕ) → acc ≤ value_from 10 acc ds
unfolding value_from
value_from-ge acc [] = omega arith
value_from-ge acc (d ∷ ds) = omega (arith, value_from-ge (acc * 10 + d) ds)

parse_digits-value_from :
    (acc : ℕ) (ds : List ℕ)
    → All (λ d. d < 10) ds
    → value_from 10 acc ds ≤ u64_max
    → parse_digits acc (map ascii ds) ≡ some (value_from 10 acc ds)
unfolding parse_digits value_from
parse_digits-value_from acc [] small fits = refl
parse_digits-value_from acc (d ∷ ds) small fits = ground (
  arith,
  small.0,
  value_from-ge (acc * 10 + d) ds,
  parse_digits-value_from (acc * 10 + d) ds small.1 fits,
)

parse_u64-digits :
    (ds : List ℕ)
    → All (λ d. d < 10) ds
    → 0 < length ds
    → parse_u64 (map ascii ds) ≡ parse_digits 0 (map ascii ds)
unfolding parse_u64
parse_u64-digits [] small h = absurd (omega arith)
parse_u64-digits (d ∷ []) small h = refl
parse_u64-digits (d ∷ e ∷ ds) small h = ground (arith, small.0)

-- Every `u64` written in 20 digits is read back.
pub parse_u64-decimal : (n : ℕ) → n ≤ u64_max → parse_u64 (decimal 20 n) ≡ some n
unfolding decimal
parse_u64-decimal n h =
    let ds = digits 10 20 n in
    let small = digits-All 10 20 n (omega arith) in
    let v : value_from 10 0 ds ≡ n = value_from-digits 10 20 n (omega arith) (omega arith) in
    parse_u64-digits ds small (omega (arith, length-digits 10 20 n))
    ∙ parse_digits-value_from 0 ds small (omega (arith, v))
    ∙ ap some v

-- Digits are bytes.
ascii-All : (ds : List ℕ) → All (λ d. d < 10) ds → All (λ b. b < 256) (map ascii ds)
ascii-All [] h = tt
ascii-All (d ∷ ds) h = (omega (arith, h.0), ascii-All ds h.1)

pub decimal-All : (w n : ℕ) → All (λ b. b < 256) (decimal w n)
unfolding decimal
decimal-All w n = ascii-All (digits 10 w n) (digits-All 10 w n (omega arith))
