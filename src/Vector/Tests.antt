-- ===== src/Vector/Tests.antt =====
-- crates/vyrm-vector/src/filter.rs: comparisons, matches and validation of concrete filters.
use mathlib.Core.Path.{subst}
use vyrm.Prelude.{
  ◌≤◌, ◌≡◌, ◌≢◌, refl, sym, ap, ◌∙◌, arith, Bool, true, false, [], ◌∷◌, none, some, ok, codes, find,
  put, contains_key, key-cases, find-put_other, bytes_order, lex_lt, pos, same, greater, inl, inr,
  ◌+ℤ◌, difference, cmp_int,
}
use vyrm.Core.Error.{Bytes}
use vyrm.Core.Runtime.Value.{integer, decimal, RuntimeProperties}
use vyrm.Vector.Filter.{
  FilterExpression, condition, every, negated, no_filters, and_filter, range, exists, decimal_parts,
  split_at, contains, sign_of, drop_zeros, strip_zeros, parse_i64, number, compare_digits,
  compare_parts, compare_decimal, compare_values, matches, referenced_properties,
  collect_properties, sorted, validate, validate_at, validate_condition, validate_operator,
  is_orderable, max_filter_nodes, max_filter_depth,
}
use vyrm.Vector.Filter.Laws.{flipped, compare_values-flip, matches-referenced_properties}
use vyrm.Vector.Filter.Bounds.{size, height, IsValid, validate-bounds}

-- `1.20e2` is 120, and zero is taken to be more than one half.
decimal_example : compare_decimal (codes "1.20e2") (codes "120") ≡ some same
unfolding compare_decimal decimal_parts split_at contains parse_i64 number sign_of compare_parts
    drop_zeros strip_zeros cmp_int ◌+ℤ◌ difference compare_digits
decimal_example = refl

zero_example : compare_decimal (codes "0") (codes "0.5") ≡ some greater
unfolding compare_decimal decimal_parts split_at contains sign_of compare_parts drop_zeros
    strip_zeros cmp_int ◌+ℤ◌ difference
zero_example = refl

compare_values-flip_example :
    compare_values (decimal (codes "120")) (decimal (codes "1.5"))
    ≡ flipped (compare_values (decimal (codes "1.5")) (decimal (codes "120")))
compare_values-flip_example = compare_values-flip (decimal (codes "1.5")) (decimal (codes "120"))

abbrev price : FilterExpression
price = condition (record {
  property = codes "price";
  operator = range none (some (integer (pos 3))) (some (decimal (codes "9.5"))) none;
})

abbrev cheap : FilterExpression
cheap =
    condition (record {
      property = codes "price";
      operator = range none (some (integer (pos 3))) none none;
    })

abbrev filter : FilterExpression
filter = every (
    and_filter cheap (
      and_filter (negated (condition (record { property = codes "gone"; operator = exists true })))
        no_filters))

abbrev left : RuntimeProperties
left = (codes "price", integer (pos 4)) ∷ []

abbrev right : RuntimeProperties
right = (codes "price", integer (pos 4)) ∷ (codes "shop", integer (pos 1)) ∷ []

not_referenced : contains_key bytes_order (codes "shop") (referenced_properties filter) ≢ true
unfolding contains_key referenced_properties collect_properties sorted put find lex_lt
not_referenced e = ground (arith, e)

right-put : put bytes_order (codes "shop") (integer (pos 1)) left ≡ right
unfolding put lex_lt
right-put = refl

left_agrees :
    (name : Bytes)
    → contains_key bytes_order name (referenced_properties filter) ≡ true
    → find bytes_order name left ≡ find bytes_order name right
left_agrees name c = elim (key-cases bytes_order name (codes "shop")) [
  | inl shop ↦ absurd (
      not_referenced
        (subst (λ k. contains_key bytes_order k (referenced_properties filter) ≡ true) shop c))
  | inr differs ↦
      sym (find-put_other bytes_order name (codes "shop") (integer (pos 1)) left differs)
      ∙ ap (find bytes_order name) right-put
]

matches-referenced_properties_example : matches filter left ≡ matches filter right
matches-referenced_properties_example = matches-referenced_properties filter left right left_agrees

abbrev never_blank : Bytes → Bool
never_blank text = false

filter_valid : validate never_blank filter ≡ ok tt
unfolding validate validate_at validate_condition contains validate_operator is_orderable
filter_valid = refl

validate-bounds_example :
    (size filter ≤ max_filter_nodes)
    × (height filter ≤ max_filter_depth)
    × IsValid never_blank filter
validate-bounds_example = validate-bounds never_blank filter filter_valid
