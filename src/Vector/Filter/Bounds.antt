-- ===== src/Vector/Filter/Bounds.antt =====
-- filter.rs, `FilterExpression::validate`: what a filter that validates looks like.
use vyrm.Prelude.{ℕ, suc, ◌+◌, ◌≤◌, ◌≡◌, Bool, ok, ◌>>◌, max, arith, Result-cases, inl, inr}
use vyrm.Core.Error.{Bytes}
use vyrm.Vector.Filter.{
  FilterExpression, FilterExpressions, condition, every, any, negated, no_filters, and_filter,
  validate_condition, count_node, not_empty, validate_at, validate_each, validate, max_filter_depth,
  max_filter_nodes,
}

-- The nodes of a filter, and how far its deepest node is below the root.
unfoldable mutual
  pub size : FilterExpression → ℕ
  size (condition c) = 1
  size (every fs) = suc (size_each fs)
  size (any fs) = suc (size_each fs)
  size (negated f) = suc (size f)

  pub size_each : FilterExpressions → ℕ
  size_each no_filters = 0
  size_each (and_filter f fs) = size f + size_each fs

unfoldable mutual
  pub height : FilterExpression → ℕ
  height (condition c) = 0
  height (every fs) = height_each fs
  height (any fs) = height_each fs
  height (negated f) = suc (height f)

  pub height_each : FilterExpressions → ℕ
  height_each no_filters = 0
  height_each (and_filter f fs) = max (suc (height f)) (height_each fs)

module _ (is_blank : Bytes → Bool) where
  -- Every condition of the filter is valid, and no group is empty.
  unfoldable mutual
    pub IsValid : FilterExpression → Type 0
    IsValid (condition c) = validate_condition is_blank c ≡ ok tt
    IsValid (every fs) = (not_empty is_blank fs ≡ ok tt) × AreValid fs
    IsValid (any fs) = (not_empty is_blank fs ≡ ok tt) × AreValid fs
    IsValid (negated f) = IsValid f

    pub AreValid : FilterExpressions → Type 0
    AreValid no_filters = Unit
    AreValid (and_filter f fs) = IsValid f × AreValid fs

  counted :
      (depth nodes : ℕ)
      → count_node is_blank depth nodes ≡ ok tt
      → (depth ≤ max_filter_depth) × (nodes ≤ max_filter_nodes)
  counted depth nodes e = (ground (arith, e), ground (arith, e))

  record Fits (f : FilterExpression) (depth nodes count : ℕ) : Type 0 where
    valid : IsValid f
    total : count ≡ nodes + size f
    deep : depth + height f ≤ max_filter_depth
    few : count ≤ max_filter_nodes

  record FitEach (fs : FilterExpressions) (depth nodes count : ℕ) : Type 0 where
    valid : AreValid fs
    total : count ≡ nodes + size_each fs
    deep : depth + height_each fs ≤ max_filter_depth
    few : count ≤ max_filter_nodes

  group :
      (fs : FilterExpressions) (depth nodes count : ℕ)
      → (depth ≤ max_filter_depth
          → suc nodes ≤ max_filter_nodes
          → validate_each is_blank fs (suc depth) (suc nodes) ≡ ok count
          → FitEach fs depth (suc nodes) count)
      → (count_node is_blank depth (suc nodes)
          >> (not_empty is_blank fs >> validate_each is_blank fs (suc depth) (suc nodes)))
        ≡ ok count
      → (not_empty is_blank fs ≡ ok tt) × FitEach fs depth (suc nodes) count
  group fs depth nodes count rest e =
      let one : count_node is_blank depth (suc nodes) ≡ ok tt = ground (arith, e) in
      let some_filter : not_empty is_blank fs ≡ ok tt = ground (arith, e, one) in
      let (shallow, few) = counted depth (suc nodes) one in
      (some_filter, rest shallow few (ground (arith, e, one, some_filter)))

  mutual
    unfolding validate_at IsValid size height

    validate_at-Fits :
        (f : FilterExpression) (depth nodes count : ℕ)
        → validate_at is_blank f depth nodes ≡ ok count
        → Fits f depth nodes count
    validate_at-Fits (condition c) depth nodes count e =
        let one : count_node is_blank depth (suc nodes) ≡ ok tt = ground (arith, e) in
        let valid : validate_condition is_blank c ≡ ok tt = ground (arith, e, one) in
        let is : suc nodes ≡ count = ground (arith, e, one, valid) in
        let (shallow, few) = counted depth (suc nodes) one in
        record {
          valid = valid;
          total = omega (arith, is);
          deep = omega (arith, shallow);
          few = omega (arith, few, is);
        }
    validate_at-Fits (every fs) depth nodes count e =
        let (some_filter, rest) =
          group fs depth nodes count (validate_each-FitEach fs depth (suc nodes) count) e in
        record {
          valid = (some_filter, rest.valid);
          total = omega (arith, rest.total);
          deep = rest.deep;
          few = rest.few;
        }
    validate_at-Fits (any fs) depth nodes count e =
        let (some_filter, rest) =
          group fs depth nodes count (validate_each-FitEach fs depth (suc nodes) count) e in
        record {
          valid = (some_filter, rest.valid);
          total = omega (arith, rest.total);
          deep = rest.deep;
          few = rest.few;
        }
    validate_at-Fits (negated f) depth nodes count e =
        let one : count_node is_blank depth (suc nodes) ≡ ok tt = ground (arith, e) in
        let rest = validate_at-Fits f (suc depth) (suc nodes) count (ground (arith, e, one)) in
        record {
          valid = rest.valid;
          total = omega (arith, rest.total);
          deep = omega (arith, rest.deep);
          few = rest.few;
        }

    validate_each-FitEach :
        (fs : FilterExpressions) (depth nodes count : ℕ)
        → depth ≤ max_filter_depth
        → nodes ≤ max_filter_nodes
        → validate_each is_blank fs (suc depth) nodes ≡ ok count
        → FitEach fs depth nodes count
    validate_each-FitEach no_filters depth nodes count shallow few e =
        let is : nodes ≡ count = ground (arith, e) in
        record {
          valid = tt;
          total = omega (arith, is);
          deep = omega (arith, shallow);
          few = omega (arith, few, is);
        }
    validate_each-FitEach (and_filter f fs) depth nodes count shallow few e =
        elim (Result-cases (validate_at is_blank f (suc depth) nodes)) [
          | inl (middle, done) ↦
              let first = validate_at-Fits f (suc depth) nodes middle done in
              let rest =
                validate_each-FitEach fs depth middle count shallow first.few
                  (ground (arith, e, done)) in
              record {
                valid = (first.valid, rest.valid);
                total = omega (arith, first.total, rest.total);
                deep = omega (arith, first.deep, rest.deep);
                few = rest.few;
              }
          | inr (b, fails) ↦ absurd (ground (arith, e, fails))
        ]

  -- A filter that validates has no more than 4096 nodes, none more than 32 below the root, only valid
  -- conditions, and a child in every group.
  pub validate-bounds :
      (f : FilterExpression)
      → validate is_blank f ≡ ok tt
      → (size f ≤ max_filter_nodes) × (height f ≤ max_filter_depth) × IsValid f
  unfolding validate
  validate-bounds f e = elim (Result-cases (validate_at is_blank f 0 0)) [
    | inl (count, done) ↦
        let fits = validate_at-Fits f 0 0 count done in
        (omega (arith, fits.total, fits.few), omega (arith, fits.deep), fits.valid)
    | inr (b, fails) ↦ absurd (ground (arith, e, fails))
  ]
