-- ===== src/Prelude/Integers.antt =====
-- Signed integers, and three-way comparisons.
use mathlib.Core.Path.{◌≡◌, refl}
use mathlib.Core.List.{List}
use mathlib.Core.Logic.{inl, inr}
use Prim.Native.Nat.{ℕ, suc, ◌+◌, ◌-◌}
use native.Mathlib.Omega.{arith}
use vyrm.Prelude.Tests.{if◌then◌else◌, ltb, Bool-cases}
use vyrm.Prelude.Maps.{KeyOrder}
use vyrm.Prelude.Orders.{nat_order, bytes_order}

-- An `i64`; `negsuc n` is `- (n + 1)`.
pub data ℤ : Type 0 where
  pos : ℕ → ℤ
  negsuc : ℕ → ℤ

-- `a - b`
unfoldable pub difference : ℕ → ℕ → ℤ
difference a b = if ltb a b then negsuc (b - suc a) else pos (a - b)

infixl 60 ◌+ℤ◌
unfoldable pub ◌+ℤ◌ : ℤ → ℤ → ℤ
pos a +ℤ pos b = pos (a + b)
pos a +ℤ negsuc b = difference a (suc b)
negsuc a +ℤ pos b = difference b (suc a)
negsuc a +ℤ negsuc b = negsuc (suc (a + b))

abbrev pub negate : ℕ → ℤ
negate n = difference 0 n

-- `std::cmp::Ordering`
pub data Ordering : Type 0 where
  less same greater : Ordering

abbrev pub flip_order : Ordering → Ordering
flip_order less = greater
flip_order same = same
flip_order greater = less

-- `Ord::cmp` of an order.
abbrev pub cmp_by : {K : Type 0} → KeyOrder K → K → K → Ordering
cmp_by o a b = if o.lt a b then less else if o.lt b a then greater else same

abbrev pub cmp : ℕ → ℕ → Ordering
cmp = cmp_by nat_order

abbrev pub cmp_bytes : List ℕ → List ℕ → Ordering
cmp_bytes = cmp_by bytes_order

unfoldable pub cmp_int : ℤ → ℤ → Ordering
cmp_int (pos a) (pos b) = cmp a b
cmp_int (pos a) (negsuc b) = greater
cmp_int (negsuc a) (pos b) = less
cmp_int (negsuc a) (negsuc b) = cmp b a

pub cmp_by-flip : {K : Type 0} (o : KeyOrder K) (a b : K) → cmp_by o b a ≡ flip_order (cmp_by o a b)
cmp_by-flip o a b = elim (Bool-cases (o.lt a b)) [
  | inl below ↦ elim (Bool-cases (o.lt b a)) [
    | inl above ↦ absurd (ground (arith, o.trans a b a below above, o.irrefl a))
    | inr kept ↦ ground (arith, below, kept)
  ]
  | inr here ↦ elim (Bool-cases (o.lt b a)) [
    | inl above ↦ ground (arith, here, above)
    | inr kept ↦ ground (arith, here, kept)
  ]
]

pub cmp_int-flip : (a b : ℤ) → cmp_int b a ≡ flip_order (cmp_int a b)
unfolding cmp_int
cmp_int-flip (pos a) (pos b) = cmp_by-flip nat_order a b
cmp_int-flip (pos a) (negsuc b) = refl
cmp_int-flip (negsuc a) (pos b) = refl
cmp_int-flip (negsuc a) (negsuc b) = cmp_by-flip nat_order b a
