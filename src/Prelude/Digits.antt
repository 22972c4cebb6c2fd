-- ===== src/Prelude/Digits.antt =====
-- Fixed-width positional notation, most significant digit first: the decimal fields of a key
-- (base 10) and the big-endian fields of a frame (base 256).
use Prim.Native.Nat.{ℕ, zero, suc, ◌+◌, ◌*◌, ◌/◌, ◌%◌, ◌^◌, ◌≤◌, ◌<◌}
use mathlib.Core.Path.{◌≡◌, refl, ap, sym, ◌∙◌}
use mathlib.Core.Bool.{◌&&◌, ◌||◌}
use mathlib.Core.Logic.{inl, inr}
use mathlib.Core.List.{List, [], ◌∷◌, ◌++◌}
use native.Mathlib.Omega.{arith}
use native.Mathlib.Nat.{pow-zero, pow-suc, mod-lt, div-add-mod', div-lt_iff_lt-mul}
use vyrm.Prelude.Tests.{ltb, ◌==◌, bytes_eq, ==_iff, Bool-cases, eq_of_bytes_eq, bytes_eq_refl}
use vyrm.Prelude.Lists.{length, length-append, All, All-append}
use vyrm.Prelude.Order.{lex_lt, lex_lt-field}

-- The last `w` digits of `n` in base `b`.
unfoldable pub digits : ℕ → ℕ → ℕ → List ℕ
digits b zero n = []
digits b (suc w) n = digits b w (n / b) ++ (n % b) ∷ []

-- The number that a row of digits stands for, behind the digits read so far.
unfoldable pub value_from : ℕ → ℕ → List ℕ → ℕ
value_from b acc [] = acc
value_from b acc (d ∷ ds) = value_from b (acc * b + d) ds

value_from-snoc :
    (b acc : ℕ) (ds : List ℕ) (d : ℕ)
    → value_from b acc (ds ++ d ∷ []) ≡ value_from b acc ds * b + d
unfolding value_from
value_from-snoc b acc [] d = refl
value_from-snoc b acc (e ∷ ds) d = value_from-snoc b (acc * b + e) ds d

pub length-digits : (b w n : ℕ) → length (digits b w n) ≡ w
unfolding digits
length-digits b zero n = refl
length-digits b (suc w) n =
    omega (arith, length-append (digits b w (n / b)) ((n % b) ∷ []), length-digits b w (n / b))

-- Digits stay below the base.
pub digits-All : (b w n : ℕ) → 0 < b → All (λ d. d < b) (digits b w n)
unfolding digits
digits-All b zero n h = tt
digits-All b (suc w) n h =
    All-append (λ d. d < b) (digits b w (n / b)) ((n % b) ∷ []) (digits-All b w (n / b) h)
      (mod-lt n h, tt)

-- Reading back what was written: the round trip of every fixed-width field.
pub value_from-digits : (b w n : ℕ) → 0 < b → n < b ^ w → value_from b 0 (digits b w n) ≡ n
unfolding digits value_from
value_from-digits b zero n h fits = omega (arith, pow-zero b)
value_from-digits b (suc w) n h fits =
    value_from-snoc b 0 (digits b w (n / b)) (n % b)
    ∙ ap (λ q. q * b + n % b)
        (value_from-digits b w (n / b) h ((div-lt_iff_lt-mul h).1 (rw pow-suc at fits)))
    ∙ div-add-mod' n b

module _ (b w n m : ℕ) (h : 0 < b) (nf : n < b ^ w) (mf : m < b ^ w) where
  digits_inj : digits b w n ≡ digits b w m → n ≡ m
  digits_inj p =
      sym (value_from-digits b w n h nf) ∙ ap (value_from b 0) p ∙ value_from-digits b w m h mf

  -- Two fields of one width are equal exactly when the numbers are.
  pub bytes_eq-digits : bytes_eq (digits b w n) (digits b w m) ≡ (n == m)
  bytes_eq-digits = elim (Bool-cases (n == m)) [
    | inl same ↦
        let e : n ≡ m = (==_iff n m).0 same in rw same (rw e (bytes_eq_refl (digits b w m)))
    | inr differ ↦ elim (Bool-cases (bytes_eq (digits b w n) (digits b w m))) [
      | inl eq ↦ absurd (ground (arith, digits_inj (eq_of_bytes_eq _ _ eq)))
      | inr ne ↦ rw (differ, ne)
    ]
  ]

mul_gap : (q r b : ℕ) → q < r → q * b + b ≤ r * b
mul_gap q r b h = grind arith

-- Split off the last digit of each: the quotients decide first.
ltb-div-mod :
    (b n m : ℕ) → 0 < b → (ltb (n / b) (m / b) || (n / b == m / b && ltb (n % b) (m % b))) ≡ ltb n m
ltb-div-mod b n m h = ground (
  arith,
  div-add-mod' n b,
  div-add-mod' m b,
  mod-lt n h,
  mod-lt m h,
  mul_gap (n / b) (m / b) b,
  mul_gap (m / b) (n / b) b,
  ap (λ (q : ℕ). q * b) {x = n / b} {y = m / b},
)

-- Fixed-width fields are ordered as the numbers that they stand for.
pub lex_lt-digits :
    (b w n m : ℕ) → 0 < b → n < b ^ w → m < b ^ w → lex_lt (digits b w n) (digits b w m) ≡ ltb n m
unfolding digits lex_lt
lex_lt-digits b zero n m h nf mf = ground (arith, pow-zero b)
lex_lt-digits b (suc w) n m h nf mf =
    let p = (div-lt_iff_lt-mul {x = n} {y = b ^ w} h).1 (rw pow-suc at nf) in
    let q = (div-lt_iff_lt-mul {x = m} {y = b ^ w} h).1 (rw pow-suc at mf) in
    rw
      (
        lex_lt-field (digits b w (n / b)) (digits b w (m / b)) ((n % b) ∷ []) ((m % b) ∷ [])
            (length-digits b w (n / b) ∙ sym (length-digits b w (m / b))),
        lex_lt-digits b w (n / b) (m / b) h p q,
        bytes_eq-digits b w (n / b) (m / b) h p q,
      )
      (ground (arith, ltb-div-mod b n m h))

-- `to_be_bytes` of a word of `w` bytes, and `from_be_bytes`.
abbrev pub to_be : ℕ → ℕ → List ℕ
to_be w n = digits 256 w n

abbrev pub from_be : List ℕ → ℕ
from_be bs = value_from 256 0 bs
