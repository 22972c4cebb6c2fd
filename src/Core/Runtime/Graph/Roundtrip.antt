-- ===== src/Core/Runtime/Graph/Roundtrip.antt =====
-- runtime.rs, `diff`: the difference of two graphs, applied to the older one.
use vyrm.Prelude.{◌≡◌, find}
use vyrm.Core.Runtime.Graph.{
  RuntimeRef, ref_order, RuntimeRecord, RuntimeRelation, RuntimeGraphSnapshot,
}
use vyrm.Core.Runtime.Graph.Diff.{record_eq, relation_eq, records_of, relations_of, diff}
use vyrm.Core.Runtime.Graph.Patch.{by_reference-patched, patched_record, patched_relation}
use vyrm.Core.Runtime.Equality.{record_eq_sound, relation_eq_sound}

-- Under every reference, what the older graph holds, with the removed, added and changed values of the difference applied to it, is what the newer graph holds, for records and for relations.
pub diff-patched :
    (older newer : RuntimeGraphSnapshot) (ref : RuntimeRef)
    → (patched_record (diff older newer) ref (find ref_order ref (records_of older))
        ≡ find ref_order ref (records_of newer))
      × (patched_relation (diff older newer) ref (find ref_order ref (relations_of older))
          ≡ find ref_order ref (relations_of newer))
unfolding diff
diff-patched older newer ref = (
  by_reference-patched (λ (r : RuntimeRecord). r.reference) record_eq record_eq_sound ref
      older.records newer.records,
  by_reference-patched (λ (r : RuntimeRelation). r.reference) relation_eq relation_eq_sound ref
      older.relations newer.relations,
)
