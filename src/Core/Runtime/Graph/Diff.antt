-- ===== src/Core/Runtime/Graph/Diff.antt =====
-- runtime.rs, `RuntimeGraphSnapshot::diff`: what two graphs differ by, for records and for relations.
use vyrm.Prelude.{
  ℕ, Bool, true, false, ◌&&◌, ◌==◌, List, [], ◌∷◌, Option, none, some, if◌then◌else◌, bytes_eq, Map,
  find, contains_key, put,
}
use vyrm.Core.Runtime.Value.{RuntimeProperties, value_eq}
use vyrm.Core.Runtime.Graph.{
  RuntimeRef, ref_order, ref_eq, RuntimeRecord, RuntimeRelation, RuntimeGraphSnapshot,
}

-- The derived `PartialEq`.
unfoldable pub properties_eq : RuntimeProperties → RuntimeProperties → Bool
properties_eq [] [] = true
properties_eq ((k, x) ∷ a) ((j, y) ∷ b) = bytes_eq k j && value_eq x y && properties_eq a b
properties_eq [] (e ∷ b) = false
properties_eq (e ∷ a) [] = false

abbrev pub end_eq : Option ℕ → Option ℕ → Bool
end_eq none none = true
end_eq (some a) (some b) = a == b
end_eq none (some b) = false
end_eq (some a) none = false

abbrev pub record_eq : RuntimeRecord → RuntimeRecord → Bool
record_eq a b =
    ref_eq a.reference b.reference
    && a.valid_from == b.valid_from
    && end_eq a.valid_to b.valid_to
    && properties_eq a.properties b.properties

abbrev pub relation_eq : RuntimeRelation → RuntimeRelation → Bool
relation_eq a b =
    ref_eq a.reference b.reference
    && ref_eq a.from b.from
    && ref_eq a.to b.to
    && a.valid_from == b.valid_from
    && end_eq a.valid_to b.valid_to
    && properties_eq a.properties b.properties

-- `before` and `after` of a `RuntimeRecordChange` or a `RuntimeRelationChange`.
pub record Change (V : Type 0) : Type 0 where
  pub before : V
  pub after : V

module _ {V : Type 0} (reference : V → RuntimeRef) (same : V → V → Bool) where
  -- The collection into a map, where a later value replaces an earlier one.
  unfoldable pub by_reference : List V → Map RuntimeRef V → Map RuntimeRef V
  by_reference [] m = m
  by_reference (v ∷ vs) m = by_reference vs (put ref_order (reference v) v m)

  -- The values of one map whose keys are not in the other.
  unfoldable pub values_without : Map RuntimeRef V → Map RuntimeRef V → List V
  values_without [] other = []
  values_without ((k, v) ∷ m) other =
      if contains_key ref_order k other then values_without m other else v ∷ values_without m other

  abbrev pub change_of : V → Option V → List (Change V) → List (Change V)
  change_of after none rest = rest
  change_of after (some before) rest =
      if same before after then rest else record { before = before; after = after } ∷ rest

  unfoldable pub changed_values : Map RuntimeRef V → Map RuntimeRef V → List (Change V)
  changed_values [] before = []
  changed_values ((k, v) ∷ m) before =
      change_of v (find ref_order k before) (changed_values m before)

pub record RuntimeGraphDiff : Type 0 where
  pub from_cursor : ℕ
  pub to_cursor : ℕ
  pub added_records : List RuntimeRecord
  pub removed_records : List RuntimeRecord
  pub changed_records : List (Change RuntimeRecord)
  pub added_relations : List RuntimeRelation
  pub removed_relations : List RuntimeRelation
  pub changed_relations : List (Change RuntimeRelation)

abbrev pub records_of : RuntimeGraphSnapshot → Map RuntimeRef RuntimeRecord
records_of s = by_reference (λ (r : RuntimeRecord). r.reference) record_eq s.records []

abbrev pub relations_of : RuntimeGraphSnapshot → Map RuntimeRef RuntimeRelation
relations_of s = by_reference (λ (r : RuntimeRelation). r.reference) relation_eq s.relations []

unfoldable pub diff : RuntimeGraphSnapshot → RuntimeGraphSnapshot → RuntimeGraphDiff
diff older newer = record {
  from_cursor = older.known_at_cursor;
  to_cursor = newer.known_at_cursor;
  added_records =
      values_without (λ (r : RuntimeRecord). r.reference) record_eq (records_of newer)
        (records_of older);
  removed_records =
      values_without (λ (r : RuntimeRecord). r.reference) record_eq (records_of older)
        (records_of newer);
  changed_records =
      changed_values (λ (r : RuntimeRecord). r.reference) record_eq (records_of newer)
        (records_of older);
  added_relations =
      values_without (λ (r : RuntimeRelation). r.reference) relation_eq (relations_of newer)
        (relations_of older);
  removed_relations =
      values_without (λ (r : RuntimeRelation). r.reference) relation_eq (relations_of older)
        (relations_of newer);
  changed_relations =
      changed_values (λ (r : RuntimeRelation). r.reference) relation_eq (relations_of newer)
        (relations_of older);
}
