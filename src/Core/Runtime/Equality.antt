-- ===== src/Core/Runtime/Equality.antt =====
-- runtime.rs: the derived comparisons of values, records and relations decide equality.
use vyrm.Prelude.{
  ℕ, ◌≡◌, refl, ap, Bool, true, false, ◌&&◌, [], ◌∷◌, Option, none, some, bytes_eq, eq_of_bytes_eq,
  arith, ℤ, pos, negsuc,
}
use vyrm.Core.Runtime.Value.{
  RuntimeValue, RuntimeValues, RuntimeEntries, null, boolean, integer, unsigned, decimal, string,
  digest, list, map, nil, cons, end, entry, RuntimeProperties, same_bool, same_int, value_eq,
  values_eq, entries_eq,
}
use vyrm.Core.Runtime.Graph.{RuntimeRecord, RuntimeRelation}
use vyrm.Core.Runtime.Graph.Snapshot.{eq_of_ref_eq}
use vyrm.Core.Runtime.Graph.Diff.{properties_eq, end_eq, record_eq, relation_eq}

and_left : (a b : Bool) → (a && b) ≡ true → a ≡ true
and_left a b h = ground (arith, h)

and_right : (a b : Bool) → (a && b) ≡ true → b ≡ true
and_right a b h = ground (arith, h)

same_bool_sound : (a b : Bool) → same_bool a b ≡ true → a ≡ b
same_bool_sound true true h = refl
same_bool_sound false false h = refl
same_bool_sound true false h = absurd (ground (arith, h))
same_bool_sound false true h = absurd (ground (arith, h))

same_int_sound : (a b : ℤ) → same_int a b ≡ true → a ≡ b
same_int_sound (pos a) (pos b) h = ap (λ n. pos n) (ground (arith, h))
same_int_sound (negsuc a) (negsuc b) h = ap (λ n. negsuc n) (ground (arith, h))
same_int_sound (pos a) (negsuc b) h = absurd (ground (arith, h))
same_int_sound (negsuc a) (pos b) h = absurd (ground (arith, h))

mutual
  unfolding value_eq

  pub value_eq_sound : (a b : RuntimeValue) → value_eq a b ≡ true → a ≡ b
  value_eq_sound null null h = refl
  value_eq_sound (boolean a) (boolean b) h = ap (λ x. boolean x) (same_bool_sound a b h)
  value_eq_sound (integer a) (integer b) h = ap (λ x. integer x) (same_int_sound a b h)
  value_eq_sound (unsigned a) (unsigned b) h = ap (λ x. unsigned x) (ground (arith, h))
  value_eq_sound (decimal a) (decimal b) h = ap (λ x. decimal x) (eq_of_bytes_eq a b h)
  value_eq_sound (string a) (string b) h = ap (λ x. string x) (eq_of_bytes_eq a b h)
  value_eq_sound (digest a) (digest b) h = ap (λ x. digest x) (eq_of_bytes_eq a b h)
  value_eq_sound (list a) (list b) h = ap (λ x. list x) (values_eq_sound a b h)
  value_eq_sound (map a) (map b) h = ap (λ x. map x) (entries_eq_sound a b h)
  value_eq_sound _ _ h = absurd (ground (arith, h))

  values_eq_sound : (a b : RuntimeValues) → values_eq a b ≡ true → a ≡ b
  values_eq_sound nil nil h = refl
  values_eq_sound (cons x a) (cons y b) h = λ i.
      cons (value_eq_sound x y (ground (arith, h)) i) (values_eq_sound a b (ground (arith, h)) i)
  values_eq_sound nil (cons y b) h = absurd (ground (arith, h))
  values_eq_sound (cons x a) nil h = absurd (ground (arith, h))

  entries_eq_sound : (a b : RuntimeEntries) → entries_eq a b ≡ true → a ≡ b
  entries_eq_sound end end h = refl
  entries_eq_sound (entry k x a) (entry j y b) h =
      let front = and_left (bytes_eq k j && value_eq x y) (entries_eq a b) h in
      λ i.
        entry (eq_of_bytes_eq k j (and_left (bytes_eq k j) (value_eq x y) front) i)
          (value_eq_sound x y (and_right (bytes_eq k j) (value_eq x y) front) i)
          (entries_eq_sound a b (and_right (bytes_eq k j && value_eq x y) (entries_eq a b) h) i)
  entries_eq_sound end (entry k y b) h = absurd (ground (arith, h))
  entries_eq_sound (entry k x a) end h = absurd (ground (arith, h))

properties_eq_sound : (a b : RuntimeProperties) → properties_eq a b ≡ true → a ≡ b
unfolding properties_eq
properties_eq_sound [] [] h = refl
properties_eq_sound ((k, x) ∷ a) ((j, y) ∷ b) h =
    let front = and_left (bytes_eq k j && value_eq x y) (properties_eq a b) h in
    λ i.
      (
        eq_of_bytes_eq k j (and_left (bytes_eq k j) (value_eq x y) front) i,
        value_eq_sound x y (and_right (bytes_eq k j) (value_eq x y) front) i,
      )
      ∷ properties_eq_sound a b (and_right (bytes_eq k j && value_eq x y) (properties_eq a b) h) i
properties_eq_sound [] (e ∷ b) h = absurd (ground (arith, h))
properties_eq_sound (e ∷ a) [] h = absurd (ground (arith, h))

end_eq_sound : (a b : Option ℕ) → end_eq a b ≡ true → a ≡ b
end_eq_sound none none h = refl
end_eq_sound (some a) (some b) h = ap (λ x. some x) (ground (arith, h))
end_eq_sound none (some b) h = absurd (ground (arith, h))
end_eq_sound (some a) none h = absurd (ground (arith, h))

pub record_eq_sound : (a b : RuntimeRecord) → record_eq a b ≡ true → a ≡ b
record_eq_sound a b h =
    let reference = eq_of_ref_eq a.reference b.reference (ground (arith, h)) in
    let from : a.valid_from ≡ b.valid_from = ground (arith, h) in
    let to = end_eq_sound a.valid_to b.valid_to (ground (arith, h)) in
    let properties = properties_eq_sound a.properties b.properties (ground (arith, h)) in
    λ i. record {
      reference = reference i;
      valid_from = from i;
      valid_to = to i;
      properties = properties i;
    }

pub relation_eq_sound : (a b : RuntimeRelation) → relation_eq a b ≡ true → a ≡ b
relation_eq_sound a b h =
    let reference = eq_of_ref_eq a.reference b.reference (ground (arith, h)) in
    let source = eq_of_ref_eq a.from b.from (ground (arith, h)) in
    let target = eq_of_ref_eq a.to b.to (ground (arith, h)) in
    let from : a.valid_from ≡ b.valid_from = ground (arith, h) in
    let to = end_eq_sound a.valid_to b.valid_to (ground (arith, h)) in
    let properties = properties_eq_sound a.properties b.properties (ground (arith, h)) in
    λ i. record {
      reference = reference i;
      from = source i;
      to = target i;
      valid_from = from i;
      valid_to = to i;
      properties = properties i;
    }
