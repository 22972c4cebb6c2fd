-- ===== src/Prelude/Order.antt =====
-- Byte strings under the byte-lexicographic order, the order of `Vec<u8>` and of an ordered store.
use Prim.Native.Nat.{ℕ}
use mathlib.Core.Path.{◌≡◌, refl}
use mathlib.Core.Bool.{Bool, true, false, ◌&&◌, ◌||◌}
use mathlib.Core.List.{List, [], ◌∷◌, ◌++◌}
use native.Mathlib.Omega.{arith}
use vyrm.Prelude.Tests.{ltb, ◌==◌, bytes_eq}
use vyrm.Prelude.Lists.{length}

unfoldable pub lex_lt : List ℕ → List ℕ → Bool
lex_lt [] [] = false
lex_lt [] (y ∷ ys) = true
lex_lt (x ∷ xs) [] = false
lex_lt (x ∷ xs) (y ∷ ys) = ltb x y || (x == y && lex_lt xs ys)

pub lex_lt-nil : (xs : List ℕ) → lex_lt xs [] ≡ false
unfolding lex_lt
lex_lt-nil [] = refl
lex_lt-nil (x ∷ xs) = refl

pub lex_lt_irrefl : (xs : List ℕ) → lex_lt xs xs ≡ false
unfolding lex_lt
lex_lt_irrefl [] = refl
lex_lt_irrefl (x ∷ xs) = ground (arith, lex_lt_irrefl xs)

pub lex_lt_trans :
    (xs ys zs : List ℕ) → lex_lt xs ys ≡ true → lex_lt ys zs ≡ true → lex_lt xs zs ≡ true
unfolding lex_lt
lex_lt_trans [] [] zs h k = ground arith
lex_lt_trans [] (y ∷ ys) [] h k = ground arith
lex_lt_trans [] (y ∷ ys) (z ∷ zs) h k = refl
lex_lt_trans (x ∷ xs) [] zs h k = ground arith
lex_lt_trans (x ∷ xs) (y ∷ ys) [] h k = ground arith
lex_lt_trans (x ∷ xs) (y ∷ ys) (z ∷ zs) h k = ground (arith, lex_lt_trans xs ys zs)

pub lex_lt_asym : (xs ys : List ℕ) → lex_lt xs ys ≡ true → lex_lt ys xs ≡ false
unfolding lex_lt
lex_lt_asym [] [] h = refl
lex_lt_asym [] (y ∷ ys) h = refl
lex_lt_asym (x ∷ xs) [] h = ground arith
lex_lt_asym (x ∷ xs) (y ∷ ys) h = ground (arith, lex_lt_asym xs ys)

-- Two strings of which neither is below the other are one.
pub lex_lt_total : (xs ys : List ℕ) → lex_lt xs ys ≡ false → lex_lt ys xs ≡ false → xs ≡ ys
unfolding lex_lt
lex_lt_total [] [] h k = refl
lex_lt_total [] (y ∷ ys) h k = ground arith
lex_lt_total (x ∷ xs) [] h k = ground arith
lex_lt_total (x ∷ xs) (y ∷ ys) h k = ground (arith, lex_lt_total xs ys)

-- A common front decides nothing.
pub lex_lt-append : (p xs ys : List ℕ) → lex_lt (p ++ xs) (p ++ ys) ≡ lex_lt xs ys
unfolding lex_lt
lex_lt-append [] xs ys = refl
lex_lt-append (x ∷ p) xs ys = ground (arith, lex_lt-append p xs ys)

-- Fields of one width decide before what follows them, unless they are equal.
pub lex_lt-field :
    (a b xs ys : List ℕ)
    → length a ≡ length b
    → lex_lt (a ++ xs) (b ++ ys) ≡ (lex_lt a b || (bytes_eq a b && lex_lt xs ys))
unfolding lex_lt bytes_eq
lex_lt-field [] [] xs ys h = refl
lex_lt-field [] (y ∷ b) xs ys h = absurd (omega arith)
lex_lt-field (x ∷ a) [] xs ys h = absurd (omega arith)
lex_lt-field (x ∷ a) (y ∷ b) xs ys h = ground (arith, lex_lt-field a b xs ys)
