-- ===== src/Core/Key/Fields.antt =====
-- key.rs: how the separator splits a key into its fields, and why no field can imitate another.
use vyrm.Prelude.{
  ℕ, ◌≤◌, ◌<◌, ◌≡◌, refl, ap, true, false, List, [], ◌∷◌, ◌++◌, none, some, map, All, arith, digits,
  digits-All, ok,
}
use vyrm.Core.Error.{Bytes}
use vyrm.Core.Ident.{sep, contains, is_utf8}
use vyrm.Core.Key.{u64_max, inv_width, invert, decimal, split_once, parse_inverted}
use vyrm.Core.Key.Decimal.{ascii, parse_u64-decimal}

pub split_once-field :
    (x y : Bytes) → contains x sep ≡ false → split_once (x ++ sep ∷ y) ≡ some (x, y)
unfolding split_once contains
split_once-field [] y h = refl
split_once-field (b ∷ x) y h = ground (arith, split_once-field x y)

pub split_once-none : (x : Bytes) → contains x sep ≡ false → split_once x ≡ none
unfolding split_once contains
split_once-none [] h = refl
split_once-none (b ∷ x) h = ground (arith, split_once-none x)

-- A field without the separator, and what follows it, can be read off in one way only.
pub field_inj :
    (x x' y y' : Bytes)
    → contains x sep ≡ false
    → contains x' sep ≡ false
    → x ++ sep ∷ y ≡ x' ++ sep ∷ y'
    → (x ≡ x') × (y ≡ y')
field_inj x x' y y' h h' e =
    ground (arith, split_once-field x y h, split_once-field x' y' h', ap split_once e)

contains-ascii : (ds : List ℕ) → contains (map ascii ds) sep ≡ false
unfolding contains
contains-ascii [] = refl
contains-ascii (d ∷ ds) = ground (arith, contains-ascii ds)

pub contains-decimal : (w n : ℕ) → contains (decimal w n) sep ≡ false
unfolding decimal
contains-decimal w n = contains-ascii (digits 10 w n)

is_utf8-ascii : (ds : List ℕ) → All (λ d. d < 10) ds → is_utf8 (map ascii ds) ≡ true
unfolding is_utf8
is_utf8-ascii [] h = refl
is_utf8-ascii (d ∷ ds) h = ground (arith, h.0, is_utf8-ascii ds h.1)

pub is_utf8-decimal : (w n : ℕ) → is_utf8 (decimal w n) ≡ true
unfolding decimal
is_utf8-decimal w n = is_utf8-ascii (digits 10 w n) (digits-All 10 w n (omega arith))

pub parse_inverted-decimal :
    (t : ℕ) → t ≤ u64_max → parse_inverted (decimal inv_width (invert t)) ≡ ok t
unfolding parse_inverted
parse_inverted-decimal t h =
    ground (arith, is_utf8-decimal 20 (invert t), parse_u64-decimal (invert t) (omega arith))
