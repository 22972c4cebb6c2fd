-- ===== src/Vector/Filter/Laws.antt =====
-- filter.rs: what comparisons, matches and validation mean.
use mathlib.Core.Path.{Path, subst}
use vyrm.Prelude.{
  ◌≡◌, refl, sym, ap, ◌∙◌, Bool, true, false, not, ◌&&◌, ◌||◌, List, [], ◌∷◌, ◌++◌, Option, none,
  some, if◌then◌else◌, arith, Option-cases, inl, inr, All, In, Map, find, put, contains_key,
  contains_key-put, contains_key-put_self, bytes_order, nat_order, Ordering, less, same, greater,
  flip_order, cmp, cmp_by-flip, cmp_int, cmp_int-flip,
}
use vyrm.Core.Error.{Bytes}
use vyrm.Core.Runtime.Value.{
  RuntimeValue, integer, unsigned, decimal, string, null, boolean, digest, list, map,
  RuntimeProperties,
}
use vyrm.Vector.Filter.{
  FilterExpression, FilterExpressions, condition, every, any, negated, no_filters, and_filter,
  Decimal, decimal_parts, then_compare, compare_digits, is_zero, signed, compare_parts,
  compare_decimal, compare_mixed, compare_values, magnitude, operator_matches, matches, matches_all,
  matches_any, collect_properties, collect_each, sorted, referenced_properties,
}

then_compare-flip :
    (a b : Ordering) → then_compare (flip_order a) (flip_order b) ≡ flip_order (then_compare a b)
then_compare-flip less b = refl
then_compare-flip same b = refl
then_compare-flip greater b = refl

compare_digits-flip : (a b : Bytes) → compare_digits b a ≡ flip_order (compare_digits a b)
unfolding compare_digits
compare_digits-flip [] [] = refl
compare_digits-flip [] (b ∷ bs) =
    (λ i. then_compare (cmp_by-flip nat_order 48 b i) (compare_digits-flip [] bs i))
    ∙ then_compare-flip (cmp 48 b) (compare_digits [] bs)
compare_digits-flip (a ∷ l) [] =
    (λ i. then_compare (cmp_by-flip nat_order a 48 i) (compare_digits-flip l [] i))
    ∙ then_compare-flip (cmp a 48) (compare_digits l [])
compare_digits-flip (a ∷ l) (b ∷ bs) =
    (λ i. then_compare (cmp_by-flip nat_order a b i) (compare_digits-flip l bs i))
    ∙ then_compare-flip (cmp a b) (compare_digits l bs)

flip_flip : (o : Ordering) → flip_order (flip_order o) ≡ o
flip_flip less = refl
flip_flip same = refl
flip_flip greater = refl

signs-flip :
    (m n : Bool) (o : Ordering)
    → Path Ordering
        (if n && not m then less else if not n && m then greater else signed n (flip_order o))
        (flip_order (if m && not n then less else if not m && n then greater else signed m o))
signs-flip true true o = refl
signs-flip true false o = refl
signs-flip false true o = refl
signs-flip false false o = refl

-- The signs first, then what is left.
abbrev choose : Bool → Bool → Bool → Bool → Ordering → Ordering
choose l_zero r_zero l_minus r_minus o =
    if l_zero && r_zero
    then same
    else if l_minus && not r_minus
    then less
    else if not l_minus && r_minus
    then greater
    else signed l_minus o

choose-flip :
    (a b m n : Bool) (o : Ordering) → choose b a n m (flip_order o) ≡ flip_order (choose a b m n o)
choose-flip true true m n o = refl
choose-flip true false m n o = signs-flip m n o
choose-flip false true m n o = signs-flip m n o
choose-flip false false m n o = signs-flip m n o

compare_parts-flip : (l r : Decimal) → compare_parts r l ≡ flip_order (compare_parts l r)
unfolding compare_parts
compare_parts-flip l r =
    let size = cmp_int-flip (magnitude l) (magnitude r) in
    let digits = compare_digits-flip l.digits r.digits in
    let both : then_compare (cmp_int (magnitude r) (magnitude l)) (compare_digits r.digits l.digits)
        ≡ flip_order (
            then_compare (cmp_int (magnitude l) (magnitude r)) (compare_digits l.digits r.digits)) =
      (λ i. then_compare (size i) (digits i)) ∙ then_compare-flip _ _ in
    ap (choose (is_zero r.digits) (is_zero l.digits) r.negative l.negative) both
    ∙ choose-flip (is_zero l.digits) (is_zero r.digits) l.negative r.negative _

abbrev pub flipped : Option Ordering → Option Ordering
flipped none = none
flipped (some o) = some (flip_order o)

compare_decimal-flip : (a b : Bytes) → compare_decimal b a ≡ flipped (compare_decimal a b)
unfolding compare_decimal
compare_decimal-flip a b = elim (Option-cases (decimal_parts a)) [
  | inl absent ↦ elim (Option-cases (decimal_parts b)) [
    | inl gone ↦ rw (absent, gone) refl
    | inr (r, there) ↦ rw (absent, there) refl
  ]
  | inr (l, here) ↦ elim (Option-cases (decimal_parts b)) [
    | inl gone ↦ rw (here, gone) refl
    | inr (r, there) ↦ rw (here, there) (ap (λ o. some o) (compare_parts-flip l r))
  ]
]

-- Two values compare the other way round with the opposite order, and are incomparable both ways or
-- neither.
pub compare_values-flip : (a b : RuntimeValue) → compare_values b a ≡ flipped (compare_values a b)
unfolding compare_values
compare_values-flip (integer a) (integer b) = ap (λ o. some o) (cmp_int-flip a b)
compare_values-flip (unsigned a) (unsigned b) = ap (λ o. some o) (cmp_by-flip nat_order a b)
compare_values-flip (integer a) (unsigned b) = refl
compare_values-flip (unsigned a) (integer b) =
    ap (λ o. some o) (sym (flip_flip (compare_mixed b a)))
compare_values-flip (decimal a) (decimal b) = compare_decimal-flip a b
compare_values-flip (string a) (string b) = ap (λ o. some o) (cmp_by-flip bytes_order a b)
compare_values-flip (integer a) b = ground arith
compare_values-flip (unsigned a) b = ground arith
compare_values-flip (decimal a) b = ground arith
compare_values-flip (string a) b = ground arith
compare_values-flip null b = ground arith
compare_values-flip (boolean a) b = ground arith
compare_values-flip (digest a) b = ground arith
compare_values-flip (list a) b = ground arith
compare_values-flip (map a) b = ground arith

-- The maps agree on the names.
abbrev pub Agree : Map Bytes (Unit {0}) → RuntimeProperties → RuntimeProperties → Type 0
Agree names p q =
    (name : Bytes)
    → contains_key bytes_order name names ≡ true
    → find bytes_order name p ≡ find bytes_order name q

In-sorted :
    (name : Bytes) (xs : List Bytes) → In name xs → contains_key bytes_order name (sorted xs) ≡ true
unfolding sorted
In-sorted name [] i = elim i [ ]
In-sorted name (x ∷ xs) (inl e) =
    subst (λ k. contains_key bytes_order k (put bytes_order x tt (sorted xs)) ≡ true) (sym e)
      (contains_key-put_self bytes_order x tt (sorted xs))
In-sorted name (x ∷ xs) (inr i) =
    contains_key-put bytes_order name x tt (sorted xs) (In-sorted name xs i)

module _ (p q : RuntimeProperties) where
  abbrev Same : Bytes → Type 0
  Same name = find bytes_order name p ≡ find bytes_order name q

  Agree-All : (xs : List Bytes) → ((name : Bytes) → In name xs → Same name) → All Same xs
  Agree-All [] f = tt
  Agree-All (x ∷ xs) f = (f x (inl refl), Agree-All xs (λ name i. f name (inr i)))

  All-last : (xs : List Bytes) (x : Bytes) → All Same (xs ++ x ∷ []) → All Same xs × Same x
  All-last [] x a = (tt, a.0)
  All-last (y ∷ xs) x a = let (rest, last) = All-last xs x a.1 in ((a.0, rest), last)

  mutual
    unfolding matches collect_properties

    matches-Same :
        (f : FilterExpression) (values : List Bytes)
        → All Same (collect_properties f values)
        → All Same values × (matches f p ≡ matches f q)
    matches-Same (condition c) values a =
        let (rest, last) = All-last values c.property a in
        (rest, ap (operator_matches c.operator) last)
    matches-Same (every fs) values a =
        let (rest, here, other) = each-Same fs values a in (rest, here)
    matches-Same (any fs) values a = let (rest, other, here) = each-Same fs values a in (rest, here)
    matches-Same (negated f) values a =
        let (rest, here) = matches-Same f values a in (rest, ap not here)

    each-Same :
        (fs : FilterExpressions) (values : List Bytes)
        → All Same (collect_each fs values)
        → All Same values
          × (matches_all fs p ≡ matches_all fs q)
          × (matches_any fs p ≡ matches_any fs q)
    each-Same no_filters values a = (a, refl, refl)
    each-Same (and_filter f fs) values a =
        let (behind, all_rest, any_rest) = each-Same fs (collect_properties f values) a in
        let (front, here) = matches-Same f values behind in
        (front, λ i. here i && all_rest i, λ i. here i || any_rest i)

-- A filter looks at the properties that it references and at nothing else: two records that agree on
-- those are matched alike.
pub matches-referenced_properties :
    (f : FilterExpression) (p q : RuntimeProperties)
    → Agree (referenced_properties f) p q
    → matches f p ≡ matches f q
unfolding referenced_properties
matches-referenced_properties f p q agree =
    (matches-Same p q f [] (
      Agree-All p q (collect_properties f [])
        (λ name i. agree name (In-sorted name (collect_properties f []) i)))).1
