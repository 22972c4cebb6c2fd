-- ===== src/Vector/Filter.antt =====
-- crates/vyrm-vector/src/filter.rs: filters over the properties of a vector's record. Whether a text is
-- blank after `trim` is a parameter.
pub mod Laws
pub mod Bounds
use vyrm.Prelude.{
  ℕ, zero, suc, ◌+◌, ◌-◌, ◌*◌, ◌≡◌, Bool, true, false, not, ◌&&◌, ◌||◌, List, [], ◌∷◌, ◌++◌, Option,
  none, some, Result, ok, err, ◌>>=◌, ◌>>◌, fail_if, if◌then◌else◌, option, ltb, leb, ◌==◌, length,
  all, Map, find, put, bytes_order, ℤ, pos, negsuc, ◌+ℤ◌, negate, Ordering, less, same, greater,
  flip_order, cmp, cmp_bytes, cmp_int,
}
use vyrm.Core.Error.{Bytes, Error, invalid_runtime, Outcome}
use vyrm.Core.Runtime.Value.{
  RuntimeValue, integer, unsigned, decimal, string, RuntimeValues, nil, cons, RuntimeProperties,
  value_eq,
}

pub data FilterOperator : Type 0 where
  equals not_equals : RuntimeValue → FilterOperator
  is_in : RuntimeValues → FilterOperator
  range :
      Option RuntimeValue
      → Option RuntimeValue
      → Option RuntimeValue
      → Option RuntimeValue
      → FilterOperator
  exists : Bool → FilterOperator

pub record FilterCondition : Type 0 where
  pub property : Bytes
  pub operator : FilterOperator

mutual
  pub data FilterExpression : Type 0 where
    condition : FilterCondition → FilterExpression
    every any : FilterExpressions → FilterExpression
    negated : FilterExpression → FilterExpression

  pub data FilterExpressions : Type 0 where
    no_filters : FilterExpressions
    and_filter : FilterExpression → FilterExpressions → FilterExpressions

-- The text before the first `e` or `E`, and the text behind it.
abbrev pub is_e : ℕ → Bool
is_e b = b == 101 || b == 69

unfoldable pub split_at : (ℕ → Bool) → Bytes → Bytes × Option Bytes
split_at p [] = ([], none)
split_at p (b ∷ bs) =
    let rest = split_at p bs in if p b then ([], some bs) else (b ∷ rest.0, rest.1)

unfoldable pub contains : (ℕ → Bool) → Bytes → Bool
contains p [] = false
contains p (b ∷ bs) = p b || contains p bs

abbrev pub is_digit : ℕ → Bool
is_digit b = leb 48 b && leb b 57

unfoldable pub number : ℕ → Bytes → ℕ
number n [] = n
number n (b ∷ bs) = number (n * 10 + (b - 48)) bs

abbrev pub digits_of : Bytes → Option ℕ
digits_of [] = none
digits_of (b ∷ bs) = if all is_digit (b ∷ bs) then some (number 0 (b ∷ bs)) else none

abbrev pub i64_limit : ℕ
i64_limit = 9223372036854775808

abbrev pub negative_of : Option ℕ → Option ℤ
negative_of none = none
negative_of (some n) = if leb n i64_limit then some (negate n) else none

abbrev pub positive_of : Option ℕ → Option ℤ
positive_of none = none
positive_of (some n) = if ltb n i64_limit then some (pos n) else none

-- `str::parse::<i64>`
unfoldable pub parse_i64 : Bytes → Option ℤ
parse_i64 [] = none
parse_i64 (b ∷ bs) =
    if b == 45
    then negative_of (digits_of bs)
    else if b == 43
    then positive_of (digits_of bs)
    else positive_of (digits_of (b ∷ bs))

abbrev pub within : ℤ → Bool
within (pos n) = leb n 1000000
within (negsuc n) = leb (suc n) 1000000

abbrev pub exponent_of : Option Bytes → Option ℤ
exponent_of none = some (pos 0)
exponent_of (some text) =
    if contains is_e text
    then none
    else option (parse_i64 text) none (λ e. if within e then some e else none)

unfoldable pub sign_of : Bytes → Bool × Bytes
sign_of [] = (false, [])
sign_of (b ∷ bs) = if b == 45 then (true, bs) else if b == 43 then (false, bs) else (false, b ∷ bs)

abbrev pub fraction_of : Option Bytes → Bytes
fraction_of none = []
fraction_of (some text) = text

unfoldable pub drop_zeros : Bytes → Bytes
drop_zeros [] = []
drop_zeros (b ∷ bs) = if b == 48 then drop_zeros bs else b ∷ bs

-- The digits without the zeros at their end, and how many of those there were.
unfoldable pub strip_zeros : Bytes → Bytes × ℕ
strip_zeros [] = ([], 0)
strip_zeros (b ∷ bs) =
    let rest = strip_zeros bs in
    if length rest.0 == 0 && b == 48 then ([], rest.1 + 1) else (b ∷ rest.0, rest.1)

pub record Decimal : Type 0 where
  pub negative : Bool
  pub digits : Bytes
  pub exponent : ℤ

abbrev pub is_dot : ℕ → Bool
is_dot b = b == 46

-- What is left of a number once its zeros in front are gone.
abbrev pub normal : Bool → ℤ → ℕ → Bytes → Decimal
normal negative exponent places [] = record { negative = false; digits = 48 ∷ []; exponent = pos 0 }
normal negative exponent places (b ∷ bs) =
    let (digits, zeros) = strip_zeros (b ∷ bs) in
    record {
      negative = negative;
      digits = digits;
      exponent = exponent +ℤ negate places +ℤ pos zeros;
    }

-- `decimal_parts`. The exponent is small enough for its arithmetic to stay within an `i64`.
unfoldable pub decimal_parts : Bytes → Option Decimal
decimal_parts value =
    let (front, behind) = split_at is_e value in
    option (exponent_of behind) none (λ exponent.
      let (negative, mantissa) = sign_of front in
      let (whole, dotted) = split_at is_dot mantissa in
      let fraction = fraction_of dotted in
      if contains is_dot fraction
        || length whole == 0 && length fraction == 0
        || not (all is_digit (whole ++ fraction))
      then none
      else some (normal negative exponent (length fraction) (drop_zeros (whole ++ fraction))))

abbrev pub then_compare : Ordering → Ordering → Ordering
then_compare less o = less
then_compare same o = o
then_compare greater o = greater

unfoldable pub compare_digits : Bytes → Bytes → Ordering
compare_digits [] [] = same
compare_digits [] (b ∷ bs) = then_compare (cmp 48 b) (compare_digits [] bs)
compare_digits (a ∷ l) [] = then_compare (cmp a 48) (compare_digits l [])
compare_digits (a ∷ l) (b ∷ bs) = then_compare (cmp a b) (compare_digits l bs)

abbrev pub is_zero : Bytes → Bool
is_zero (b ∷ []) = b == 48
is_zero _ = false

abbrev pub magnitude : Decimal → ℤ
magnitude d = pos (length d.digits) +ℤ d.exponent

abbrev pub signed : Bool → Ordering → Ordering
signed true o = flip_order o
signed false o = o

unfoldable pub compare_parts : Decimal → Decimal → Ordering
compare_parts l r =
    if is_zero l.digits && is_zero r.digits
    then same
    else if l.negative && not r.negative
    then less
    else if not l.negative && r.negative
    then greater
    else signed l.negative
        (then_compare (cmp_int (magnitude l) (magnitude r)) (compare_digits l.digits r.digits))

unfoldable pub compare_decimal : Bytes → Bytes → Option Ordering
compare_decimal left right =
    option (decimal_parts left) none
      (λ l. option (decimal_parts right) none (λ r. some (compare_parts l r)))

abbrev pub compare_mixed : ℤ → ℕ → Ordering
compare_mixed (negsuc a) b = less
compare_mixed (pos a) b = cmp a b

unfoldable pub compare_values : RuntimeValue → RuntimeValue → Option Ordering
compare_values (integer a) (integer b) = some (cmp_int a b)
compare_values (unsigned a) (unsigned b) = some (cmp a b)
compare_values (integer a) (unsigned b) = some (compare_mixed a b)
compare_values (unsigned a) (integer b) = some (flip_order (compare_mixed b a))
compare_values (decimal a) (decimal b) = compare_decimal a b
compare_values (string a) (string b) = some (cmp_bytes a b)
compare_values _ _ = none

abbrev pub is_some : {A : Type 0} → Option A → Bool
is_some none = false
is_some (some a) = true

abbrev pub present : Option RuntimeValue → List RuntimeValue
present none = []
present (some v) = v ∷ []

abbrev pub or_else : Option RuntimeValue → Option RuntimeValue → Option RuntimeValue
or_else none b = b
or_else (some a) b = some a

unfoldable pub is_orderable : RuntimeValue → Bool
is_orderable (integer n) = true
is_orderable (unsigned n) = true
is_orderable (string s) = true
is_orderable (decimal s) = is_some (decimal_parts s)
is_orderable _ = false

-- The order of the two ends of a range; `strict` where one of them is excluded.
abbrev pub check_ends : Bool → Option Ordering → Outcome (Unit {0})
check_ends strict none = err (invalid_runtime "vector range bounds use incompatible value types")
check_ends strict (some greater) =
    err (invalid_runtime "vector range lower bound must precede its upper bound")
check_ends true (some same) =
    err (invalid_runtime "vector range lower bound must precede its upper bound")
check_ends false (some same) = ok tt
check_ends strict (some less) = ok tt

abbrev pub check_bounds : Bool → Option RuntimeValue → Option RuntimeValue → Outcome (Unit {0})
check_bounds strict (some lower) (some upper) = check_ends strict (compare_values lower upper)
check_bounds strict none upper = ok tt
check_bounds strict (some lower) none = ok tt

unfoldable pub validate_operator : FilterOperator → Outcome (Unit {0})
validate_operator (is_in nil) =
    err (invalid_runtime "vector in filter must contain at least one value")
validate_operator (is_in (cons v vs)) = ok tt
validate_operator (range gt gte lt lte) = do
  fail_if (is_some gt && is_some gte)
      (invalid_runtime "vector range filter cannot set both gt and gte")
  fail_if (is_some lt && is_some lte)
      (invalid_runtime "vector range filter cannot set both lt and lte")
  fail_if (not (is_some gt) && not (is_some gte) && not (is_some lt) && not (is_some lte))
      (invalid_runtime "vector range filter must declare a bound")
  fail_if (not (all is_orderable (present gt ++ present gte ++ present lt ++ present lte)))
      (invalid_runtime "vector range bounds must be integer, unsigned, decimal, or string")
  check_bounds (is_some gt || is_some lt) (or_else gt gte) (or_else lt lte)
validate_operator _ = ok tt

unfoldable pub any_equal : RuntimeValues → RuntimeValue → Bool
any_equal nil actual = false
any_equal (cons v vs) actual = value_eq v actual || any_equal vs actual

-- The four tests of a bound on the order of the actual value and the bound.
abbrev pub above : Option Ordering → Bool
above (some greater) = true
above _ = false

abbrev pub not_below : Option Ordering → Bool
not_below none = false
not_below (some less) = false
not_below (some o) = true

abbrev pub below : Option Ordering → Bool
below (some less) = true
below _ = false

abbrev pub not_above : Option Ordering → Bool
not_above none = false
not_above (some greater) = false
not_above (some o) = true

abbrev pub bounded : (Option Ordering → Bool) → RuntimeValue → Option RuntimeValue → Bool
bounded test actual none = true
bounded test actual (some bound) = test (compare_values actual bound)

unfoldable pub in_range :
    Option RuntimeValue
    → Option RuntimeValue
    → Option RuntimeValue
    → Option RuntimeValue
    → RuntimeValue
    → Bool
in_range gt gte lt lte actual =
    bounded above actual gt
    && bounded not_below actual gte
    && bounded below actual lt
    && bounded not_above actual lte

abbrev pub same_bool : Bool → Bool → Bool
same_bool true b = b
same_bool false b = not b

unfoldable pub operator_matches : FilterOperator → Option RuntimeValue → Bool
operator_matches (equals v) none = false
operator_matches (equals v) (some actual) = value_eq actual v
operator_matches (not_equals v) none = false
operator_matches (not_equals v) (some actual) = not (value_eq actual v)
operator_matches (is_in vs) none = false
operator_matches (is_in vs) (some actual) = any_equal vs actual
operator_matches (exists wanted) actual = same_bool (is_some actual) wanted
operator_matches (range gt gte lt lte) none = false
operator_matches (range gt gte lt lte) (some actual) = in_range gt gte lt lte actual

abbrev pub condition_matches : FilterCondition → RuntimeProperties → Bool
condition_matches c properties =
    operator_matches c.operator (find bytes_order c.property properties)

unfoldable mutual
  pub matches : FilterExpression → RuntimeProperties → Bool
  matches (condition c) properties = condition_matches c properties
  matches (every fs) properties = matches_all fs properties
  matches (any fs) properties = matches_any fs properties
  matches (negated f) properties = not (matches f properties)

  pub matches_all : FilterExpressions → RuntimeProperties → Bool
  matches_all no_filters properties = true
  matches_all (and_filter f fs) properties = matches f properties && matches_all fs properties

  pub matches_any : FilterExpressions → RuntimeProperties → Bool
  matches_any no_filters properties = false
  matches_any (and_filter f fs) properties = matches f properties || matches_any fs properties

unfoldable mutual
  pub collect_properties : FilterExpression → List Bytes → List Bytes
  collect_properties (condition c) values = values ++ c.property ∷ []
  collect_properties (every fs) values = collect_each fs values
  collect_properties (any fs) values = collect_each fs values
  collect_properties (negated f) values = collect_properties f values

  pub collect_each : FilterExpressions → List Bytes → List Bytes
  collect_each no_filters values = values
  collect_each (and_filter f fs) values = collect_each fs (collect_properties f values)

-- `sort` and `dedup`: the values once each and in order, as the keys of a map.
unfoldable pub sorted : List Bytes → Map Bytes (Unit {0})
sorted [] = []
sorted (v ∷ vs) = put bytes_order v tt (sorted vs)

unfoldable pub referenced_properties : FilterExpression → Map Bytes (Unit {0})
referenced_properties f = sorted (collect_properties f [])

abbrev pub max_filter_depth : ℕ
max_filter_depth = 32

abbrev pub max_filter_nodes : ℕ
max_filter_nodes = 4096

module _ (is_blank : Bytes → Bool) where
  abbrev pub has_nul : Bytes → Bool
  has_nul = contains (λ b. b == 0)

  unfoldable pub validate_condition : FilterCondition → Outcome (Unit {0})
  validate_condition c = do
    fail_if (is_blank c.property || has_nul c.property)
        (invalid_runtime "vector filter property must be non-empty and contain no NUL bytes")
    validate_operator c.operator

  -- The nodes counted so far go in, and those counted behind the filter come out.
  abbrev pub count_node : ℕ → ℕ → Outcome (Unit {0})
  count_node depth nodes =
      fail_if (ltb max_filter_depth depth || ltb max_filter_nodes nodes)
        (invalid_runtime "vector filter exceeds depth or node limit")

  abbrev pub not_empty : FilterExpressions → Outcome (Unit {0})
  not_empty no_filters =
      err (invalid_runtime "vector all/any filter must contain at least one child")
  not_empty (and_filter f fs) = ok tt

  unfoldable mutual
    pub validate_at : FilterExpression → ℕ → ℕ → Outcome ℕ
    validate_at (condition c) depth nodes = do
      count_node depth (suc nodes)
      validate_condition c
      ok (suc nodes)
    validate_at (every fs) depth nodes = do
      count_node depth (suc nodes)
      not_empty fs
      validate_each fs (suc depth) (suc nodes)
    validate_at (any fs) depth nodes = do
      count_node depth (suc nodes)
      not_empty fs
      validate_each fs (suc depth) (suc nodes)
    validate_at (negated f) depth nodes = do
      count_node depth (suc nodes)
      validate_at f (suc depth) (suc nodes)

    pub validate_each : FilterExpressions → ℕ → ℕ → Outcome ℕ
    validate_each no_filters depth nodes = ok nodes
    validate_each (and_filter f fs) depth nodes = do
      nodes' ← validate_at f depth nodes
      validate_each fs depth nodes'

  unfoldable pub validate : FilterExpression → Outcome (Unit {0})
  validate f = do nodes ← validate_at f 0 0; ok tt
