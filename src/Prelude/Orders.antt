-- ===== src/Prelude/Orders.antt =====
-- The orders of the key types: numbers, byte strings, and pairs in dictionary order.
use Prim.Native.Nat.{ℕ}
use mathlib.Core.Path.{◌≡◌, ap}
use mathlib.Core.Logic.{inl, inr}
use mathlib.Core.Bool.{Bool, true, false, ◌&&◌, ◌||◌, not}
use native.Mathlib.Omega.{arith}
use vyrm.Prelude.Tests.{ltb, Bool-cases}
use vyrm.Prelude.Order.{lex_lt, lex_lt_irrefl, lex_lt_trans, lex_lt_total}
use vyrm.Prelude.Maps.{KeyOrder}
use mathlib.Core.List.{List}

pub ltb_irrefl : (a : ℕ) → ltb a a ≡ false
ltb_irrefl a = ground arith

pub ltb_trans : (a b c : ℕ) → ltb a b ≡ true → ltb b c ≡ true → ltb a c ≡ true
ltb_trans a b c h k = ground arith

pub ltb_total : (a b : ℕ) → ltb a b ≡ false → ltb b a ≡ false → a ≡ b
ltb_total a b h k = ground arith

abbrev pub nat_order : KeyOrder ℕ
nat_order = record { lt = ltb; irrefl = ltb_irrefl; trans = ltb_trans; total = ltb_total }

abbrev pub bytes_order : KeyOrder (List ℕ)
bytes_order = record {
  lt = lex_lt;
  irrefl = lex_lt_irrefl;
  trans = lex_lt_trans;
  total = lex_lt_total;
}

module _ {A B : Type 0} (o : KeyOrder A) (p : KeyOrder B) where
  abbrev pub pair_lt : A × B → A × B → Bool
  pair_lt (a, b) (c, d) = o.lt a c || not (o.lt c a) && p.lt b d

  pub pair_irrefl : (x : A × B) → pair_lt x x ≡ false
  pair_irrefl (a, b) = ground (arith, o.irrefl a, p.irrefl b)

  pub pair_total : (x y : A × B) → pair_lt x y ≡ false → pair_lt y x ≡ false → x ≡ y
  pair_total (a, b) (c, d) h k =
      let first : a ≡ c = o.total a c (ground arith) (ground arith) in
      let second : b ≡ d = p.total b d (ground (arith, o.irrefl a)) (ground arith) in
      λ i. (first i, second i)

  pub pair_trans : (x y z : A × B) → pair_lt x y ≡ true → pair_lt y z ≡ true → pair_lt x z ≡ true
  pair_trans (a, b) (c, d) (e, f) h k = elim (Bool-cases (o.lt a c)) [
    | inl ac ↦ elim (Bool-cases (o.lt c e)) [
      | inl ce ↦ ground (arith, o.trans a c e ac ce)
      | inr nce ↦
          let same : c ≡ e = o.total c e nce (ground (arith, k, nce)) in
          ground (arith, ac, ap (o.lt a) same)
    ]
    | inr nac ↦
        let same : a ≡ c = o.total a c nac (ground (arith, h, nac)) in
        elim (Bool-cases (o.lt c e)) [
          | inl ce ↦ ground (arith, ce, ap (λ t. o.lt t e) same)
          | inr nce ↦
              let same' : c ≡ e = o.total c e nce (ground (arith, k, nce)) in
              ground (
                arith,
                p.trans b d f (ground (arith, h, nac)) (ground (arith, k, nce)),
                ap (λ t. o.lt t e) same,
                ap (o.lt e) same,
                nce,
              )
        ]
  ]

  abbrev pub pair_order : KeyOrder (A × B)
  pair_order = record { lt = pair_lt; irrefl = pair_irrefl; trans = pair_trans; total = pair_total }
