-- ===== src/Core/Runtime/Graph/Patch.antt =====
-- runtime.rs, `diff`: the older graph with the difference applied is the newer one.
use mathlib.Core.Path.{subst}
use vyrm.Prelude.{
  ◌≡◌, ◌≢◌, refl, sym, ap, ◌∙◌, Bool, true, false, List, [], ◌∷◌, Option, none, some, if◌then◌else◌,
  arith, Bool-cases, Option-cases, inl, inr, All, Map, find, put-All, contains_key, Above,
  IsAscending, put-IsAscending, key-cases, find-first, find-later, find-Above,
}
use vyrm.Core.Runtime.Graph.{RuntimeRef, ref_order, ref_eq, RuntimeRecord, RuntimeRelation}
use vyrm.Core.Runtime.Graph.Snapshot.{ref_eq_refl, eq_of_ref_eq}
use vyrm.Core.Runtime.Graph.Diff.{
  Change, by_reference, values_without, changed_values, RuntimeGraphDiff, record_eq, relation_eq,
}

module _ {V : Type 0} (reference : V → RuntimeRef) (same : V → V → Bool) where
  -- The first value of a reference.
  unfoldable pub value_of : RuntimeRef → List V → Option V
  value_of ref [] = none
  value_of ref (v ∷ vs) = if ref_eq (reference v) ref then some v else value_of ref vs

  unfoldable pub after_of : RuntimeRef → List (Change V) → Option V
  after_of ref [] = none
  after_of ref (c ∷ cs) = if ref_eq (reference c.after) ref then some c.after else after_of ref cs

  -- What a difference makes of what was there under a reference.
  abbrev pub patched : Option V → Option V → Option V → Option V → Option V
  patched (some gone) added changed before = none
  patched none (some new) changed before = some new
  patched none none (some after) before = some after
  patched none none none before = before

  record IsIndex (m : Map RuntimeRef V) : Type 0 where
    keyed : All (λ (e : RuntimeRef × V). e.0 ≡ reference e.1) m
    ordered : IsAscending ref_order m

  by_reference-IsIndex :
      (vs : List V) (m : Map RuntimeRef V) → IsIndex m → IsIndex (by_reference reference same vs m)
  unfolding by_reference
  by_reference-IsIndex [] m v = v
  by_reference-IsIndex (x ∷ vs) m v = by_reference-IsIndex vs _ (record {
    keyed =
        put-All ref_order (λ (e : RuntimeRef × V). e.0 ≡ reference e.1) (reference x) x m v.keyed
          refl;
    ordered = put-IsAscending ref_order (reference x) x m v.ordered;
  })

  named : (ref k : RuntimeRef) (v : V) → ref ≡ k → k ≡ reference v → ref_eq (reference v) ref ≡ true
  named ref k v here key = subst (λ j. ref_eq j ref ≡ true) (here ∙ key) (ref_eq_refl ref)

  unnamed :
      (ref k : RuntimeRef) (v : V) → ref ≢ k → k ≡ reference v → ref_eq (reference v) ref ≡ false
  unnamed ref k v differs key = elim (Bool-cases (ref_eq (reference v) ref)) [
    | inl same_ref ↦ absurd (differs (sym (key ∙ eq_of_ref_eq (reference v) ref same_ref)))
    | inr other ↦ other
  ]

  at_first :
      (ref k : RuntimeRef) (v : V) (m : Map RuntimeRef V)
      → ref ≡ k
      → find ref_order ref ((k, v) ∷ m) ≡ some v
  at_first ref k v m here =
      ap (λ j. find ref_order j ((k, v) ∷ m)) here ∙ find-first ref_order k v m

  -- What is looked up under a reference in the values whose key is not in the other map.
  values_without-find :
      (ref : RuntimeRef) (m other : Map RuntimeRef V)
      → IsIndex m
      → value_of ref (values_without reference same m other)
        ≡ (if contains_key ref_order ref other then none else find ref_order ref m)
  unfolding values_without value_of
  values_without-find ref [] other i = unfold find in ground arith
  values_without-find ref ((k, v) ∷ m) other i =
      let tail : IsIndex m = record { keyed = i.keyed.1; ordered = i.ordered.1 } in
      let rest = values_without-find ref m other tail in
      elim (key-cases ref_order ref k) [
        | inl here ↦
            let own = named ref k v here i.keyed.0 in
            let first = at_first ref k v m here in
            let there : contains_key ref_order k other ≡ contains_key ref_order ref other =
              ap (λ j. contains_key ref_order j other) (sym here) in
            ground (arith, own, first, there, rest)
        | inr differs ↦
            let own = unnamed ref k v differs i.keyed.0 in
            let next = find-later ref_order ref k v m i.ordered differs in
            ground (arith, own, next, rest)
      ]

  abbrev pick : Option V → Option V → Option V
  pick none before = none
  pick (some after) none = none
  pick (some after) (some before) = if same before after then none else some after

  changed_values-find :
      (ref : RuntimeRef) (m before : Map RuntimeRef V)
      → IsIndex m
      → after_of ref (changed_values reference same m before)
        ≡ pick (find ref_order ref m) (find ref_order ref before)
  unfolding changed_values after_of
  changed_values-find ref [] before i = unfold find in ground arith
  changed_values-find ref ((k, v) ∷ m) before i =
      let tail : IsIndex m = record { keyed = i.keyed.1; ordered = i.ordered.1 } in
      let rest = changed_values-find ref m before tail in
      elim (key-cases ref_order ref k) [
        | inl here ↦
            let own = named ref k v here i.keyed.0 in
            let first = at_first ref k v m here in
            let gone : find ref_order ref m ≡ none =
              find-Above ref_order ref m
                (subst (λ j. Above ref_order j m) (sym here) i.ordered.0) in
            let there : find ref_order k before ≡ find ref_order ref before =
              ap (λ j. find ref_order j before) (sym here) in
            elim (Option-cases (find ref_order ref before)) [
              | inl absent ↦ ground (arith, own, first, there, rest, absent, gone)
              | inr (b, found) ↦ ground (arith, own, first, there, rest, found, gone)
            ]
        | inr differs ↦
            let own = unnamed ref k v differs i.keyed.0 in
            let next = find-later ref_order ref k v m i.ordered differs in
            elim (Option-cases (find ref_order k before)) [
              | inl absent ↦ ground (arith, own, next, rest, absent)
              | inr (b, found) ↦ ground (arith, own, next, rest, found)
            ]
      ]

  patched-find :
      ((a b : V) → same a b ≡ true → a ≡ b)
      → (ref : RuntimeRef) (before after : Map RuntimeRef V) → IsIndex before
      → IsIndex after
      → patched
          (value_of ref (values_without reference same before after))
          (value_of ref (values_without reference same after before))
          (after_of ref (changed_values reference same after before))
          (find ref_order ref before)
        ≡ find ref_order ref after
  unfolding contains_key
  patched-find sound ref before after i j =
      let removed = values_without-find ref before after i in
      let added = values_without-find ref after before j in
      let changed = changed_values-find ref after before j in
      elim (Option-cases (find ref_order ref before)) [
        | inl old_absent ↦ elim (Option-cases (find ref_order ref after)) [
          | inl new_absent ↦ ground (arith, removed, added, changed, old_absent, new_absent)
          | inr (a, new) ↦ ground (arith, removed, added, changed, old_absent, new)
        ]
        | inr (b, old) ↦ elim (Option-cases (find ref_order ref after)) [
          | inl new_absent ↦ ground (arith, removed, added, changed, old, new_absent)
          | inr (a, new) ↦ elim (Bool-cases (same b a)) [
            | inl kept ↦
                let is = sound b a kept in
                ground (arith, removed, added, changed, old, new, kept, is)
            | inr differs ↦ ground (arith, removed, added, changed, old, new, differs)
          ]
        ]
      ]

  pub by_reference-patched :
      ((a b : V) → same a b ≡ true → a ≡ b)
      → (ref : RuntimeRef) (before after : List V)
      → (let b = by_reference reference same before [] in
          let a = by_reference reference same after [] in
          patched
            (value_of ref (values_without reference same b a))
            (value_of ref (values_without reference same a b))
            (after_of ref (changed_values reference same a b))
            (find ref_order ref b)
          ≡ find ref_order ref a)
  by_reference-patched sound ref before after =
      patched-find sound ref _ _
        (by_reference-IsIndex before [] (record { keyed = tt; ordered = tt }))
        (by_reference-IsIndex after [] (record { keyed = tt; ordered = tt }))

-- The record and the relation under a reference once a difference is applied.
abbrev pub patched_record :
    RuntimeGraphDiff → RuntimeRef → Option RuntimeRecord → Option RuntimeRecord
patched_record d ref =
    patched (λ (r : RuntimeRecord). r.reference) record_eq
      (value_of (λ (r : RuntimeRecord). r.reference) record_eq ref d.removed_records)
      (value_of (λ (r : RuntimeRecord). r.reference) record_eq ref d.added_records)
      (after_of (λ (r : RuntimeRecord). r.reference) record_eq ref d.changed_records)

abbrev pub patched_relation :
    RuntimeGraphDiff → RuntimeRef → Option RuntimeRelation → Option RuntimeRelation
patched_relation d ref =
    patched (λ (r : RuntimeRelation). r.reference) relation_eq
      (value_of (λ (r : RuntimeRelation). r.reference) relation_eq ref d.removed_relations)
      (value_of (λ (r : RuntimeRelation). r.reference) relation_eq ref d.added_relations)
      (after_of (λ (r : RuntimeRelation). r.reference) relation_eq ref d.changed_relations)
