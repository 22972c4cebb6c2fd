-- ===== src/Core/Runtime/Tests.antt =====
-- runtime.rs: the graph of three notes, at an instant and a cursor.
use vyrm.Prelude.{
  ℕ, ◌+◌, ◌≡◌, ◌↔◌, true, List, [], ◌∷◌, Option, none, some, length, codes, contains_key, In, find,
}
use vyrm.Core.Error.{Bytes}
use vyrm.Core.Claim.Window.{Within}
use vyrm.Core.Runtime.Graph.{
  RuntimeRef, ref_order, RuntimeRecord, RuntimeRelation, RuntimeMutation, a_record, relation,
  RuntimeChange, RuntimeGraphSnapshot, Refs, from_changes, traverse,
}
use vyrm.Core.Runtime.Graph.Snapshot.{last_record, from_changes-last_record}
use vyrm.Core.Runtime.Graph.Diff.{records_of, relations_of, diff}
use vyrm.Core.Runtime.Graph.Patch.{patched_record, patched_relation}
use vyrm.Core.Runtime.Graph.Roundtrip.{diff-patched}
use vyrm.Core.Runtime.Graph.Reached.{IsReached, traverse-IsReached}

abbrev note : Bytes → RuntimeRef
note id = record { kind = codes "note"; id = id }

abbrev version : ℕ → Option ℕ → RuntimeRecord
version from to = record {
  reference = note (codes "a");
  valid_from = from;
  valid_to = to;
  properties = [];
}

abbrev link : Bytes → Bytes → Bytes → RuntimeRelation
link id from to = record {
  reference = record { kind = codes "link"; id = id };
  from = note from;
  to = note to;
  valid_from = 1;
  valid_to = none;
  properties = [];
}

abbrev change : ℕ → RuntimeMutation → RuntimeChange
change cursor mutation = record {
  cursor = cursor;
  commit_id = codes "c";
  commit_ordinal = 0;
  scope = codes "s";
  at = cursor;
  actor = codes "m";
  mutation = mutation;
  previous_digest = none;
  digest = [];
}

-- The last change is behind the cursor.
abbrev changes : List RuntimeChange
changes =
    change 1 (a_record (version 1 none))
    ∷ change 2 (a_record (version 2 (some 9)))
    ∷ change 3 (relation (link (codes "x") (codes "a") (codes "b")))
    ∷ change 4 (relation (link (codes "y") (codes "b") (codes "c")))
    ∷ change 7 (a_record (version 4 none))
    ∷ []

from_changes-last_record_example :
    In (version 2 (some 9)) (from_changes changes (codes "s") 5 6).records ↔ (
      (last_record (codes "s") 5 6 (note (codes "a")) changes ≡ some (version 2 (some 9)))
      × Within 2 (some 9) 5)
from_changes-last_record_example =
    from_changes-last_record (codes "s") 5 6 changes (version 2 (some 9))

abbrev graph : RuntimeGraphSnapshot
graph = record {
  scope = codes "s";
  valid_at = 5;
  known_at_cursor = 6;
  records = version 2 (some 9) ∷ [];
  relations =
      link (codes "x") (codes "a") (codes "b") ∷ link (codes "y") (codes "b") (codes "c") ∷ [];
}

traverse-IsReached_example :
    (visited : Refs) × (traverse (length graph.relations + 2) graph (note (codes "a")) 1 []
      ≡ some visited)
    × ((x : RuntimeRef)
        → (contains_key ref_order x visited ≡ true) ↔ IsReached graph (note (codes "a")) 1 [] x)
traverse-IsReached_example = traverse-IsReached graph (note (codes "a")) 1 []

-- The note has changed, and one of the two links is gone.
abbrev later_graph : RuntimeGraphSnapshot
later_graph = record {
  scope = codes "s";
  valid_at = 5;
  known_at_cursor = 7;
  records = version 4 none ∷ [];
  relations = link (codes "x") (codes "a") (codes "b") ∷ [];
}

diff-patched_example :
    (patched_record
        (diff graph later_graph)
        (note (codes "a"))
        (find ref_order (note (codes "a")) (records_of graph))
      ≡ find ref_order (note (codes "a")) (records_of later_graph))
    × (patched_relation
          (diff graph later_graph)
          (note (codes "a"))
          (find ref_order (note (codes "a")) (relations_of graph))
        ≡ find ref_order (note (codes "a")) (relations_of later_graph))
diff-patched_example = diff-patched graph later_graph (note (codes "a"))
