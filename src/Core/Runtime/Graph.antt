-- ===== src/Core/Runtime/Graph.antt =====
-- runtime.rs, `RuntimeGraphSnapshot`: the graph of a scope at a cursor and an instant, its traversal and
-- its difference from another. A `BTreeMap` is its entries in the order of the references. Of the
-- mutations that no graph looks at, only the kind is kept.
pub mod Snapshot
pub mod Traversal
pub mod Reached
pub mod Diff
pub mod Patch
pub mod Roundtrip
use vyrm.Prelude.{
  ℕ, zero, suc, ◌+◌, ◌*◌, ◌/◌, ◌%◌, ◌≡◌, refl, sym, ap, ◌∙◌, Bool, true, false, not, ◌&&◌, ◌||◌,
  List, [], ◌∷◌, ◌++◌, Option, none, some, if◌then◌else◌, option, ltb, leb, length, bytes_eq, codes,
  Map, find, contains_key, put, KeyOrder, nat_order, bytes_order, pair_order,
}
use vyrm.Core.Error.{Bytes}
use vyrm.Core.Claim.{Claim}
use vyrm.Core.Runtime.Value.{RuntimeValue, RuntimeProperties, value_eq}

pub record RuntimeRef : Type 0 where
  pub kind : Bytes
  pub id : Bytes

-- The derived `Ord`: the kind first.
abbrev pub ref_pair : RuntimeRef → Bytes × Bytes
ref_pair r = (r.kind, r.id)

pub ref_total :
    (a b : RuntimeRef)
    → (pair_order bytes_order bytes_order).lt (ref_pair a) (ref_pair b) ≡ false
    → (pair_order bytes_order bytes_order).lt (ref_pair b) (ref_pair a) ≡ false
    → a ≡ b
ref_total a b h k =
    let same = (pair_order bytes_order bytes_order).total (ref_pair a) (ref_pair b) h k in
    λ i. record { kind = (same i).0; id = (same i).1 }

abbrev pub ref_order : KeyOrder RuntimeRef
ref_order = record {
  lt = λ a b. (pair_order bytes_order bytes_order).lt (ref_pair a) (ref_pair b);
  irrefl = λ a. (pair_order bytes_order bytes_order).irrefl (ref_pair a);
  trans =
      λ a b c. (pair_order bytes_order bytes_order).trans (ref_pair a) (ref_pair b) (ref_pair c);
  total = ref_total;
}

pub record RuntimeRecord : Type 0 where
  pub reference : RuntimeRef
  pub valid_from : ℕ
  pub valid_to : Option ℕ
  pub properties : RuntimeProperties

pub record RuntimeRelation : Type 0 where
  pub reference : RuntimeRef
  pub from : RuntimeRef
  pub to : RuntimeRef
  pub valid_from : ℕ
  pub valid_to : Option ℕ
  pub properties : RuntimeProperties

pub record RuntimeEvent : Type 0 where
  pub kind : Bytes
  pub subject : Option RuntimeRef
  pub properties : RuntimeProperties

pub data RuntimeMutation : Type 0 where
  claim : Claim → RuntimeMutation
  a_record : RuntimeRecord → RuntimeMutation
  relation : RuntimeRelation → RuntimeMutation
  event : RuntimeEvent → RuntimeMutation
  schema vector series_sample geo object : RuntimeMutation

pub record RuntimeChange : Type 0 where
  pub cursor : ℕ
  pub commit_id : Bytes
  pub commit_ordinal : ℕ
  pub scope : Bytes
  pub at : ℕ
  pub actor : Bytes
  pub mutation : RuntimeMutation
  pub previous_digest : Option Bytes
  pub digest : Bytes

pub record RuntimeGraphSnapshot : Type 0 where
  pub scope : Bytes
  pub valid_at : ℕ
  pub known_at_cursor : ℕ
  pub records : List RuntimeRecord
  pub relations : List RuntimeRelation

-- The decimal digits of a `u64`, twenty at most.
unfoldable pub decimal : ℕ → ℕ → Bytes → Bytes
decimal zero n digits = digits
decimal (suc fuel) n digits =
    let rest = decimal fuel (n / 10) ((n % 10 + 48) ∷ digits) in
    if ltb n 10 then (n + 48) ∷ digits else rest

abbrev pub cursor_id : ℕ → Bytes
cursor_id cursor = codes "cursor:" ++ decimal 20 cursor []

abbrev pub event_ref : RuntimeChange → RuntimeEvent → RuntimeRef
event_ref c e = record { kind = e.kind; id = cursor_id c.cursor }

abbrev pub event_record : RuntimeChange → RuntimeEvent → RuntimeRecord
event_record c e = record {
  reference = event_ref c e;
  valid_from = c.at;
  valid_to = none;
  properties = e.properties;
}

abbrev pub emitted : RuntimeChange → RuntimeEvent → RuntimeRef → RuntimeRelation
emitted c e subject = record {
  reference = record { kind = codes "emitted"; id = cursor_id c.cursor };
  from = subject;
  to = event_ref c e;
  valid_from = c.at;
  valid_to = none;
  properties = [];
}

pub record Latest : Type 0 where
  pub records : Map RuntimeRef RuntimeRecord
  pub relations : Map RuntimeRef RuntimeRelation

abbrev pub put_record : RuntimeRecord → Latest → Latest
put_record r l = record l { records = put ref_order r.reference r l.records }

abbrev pub put_relation : RuntimeRelation → Latest → Latest
put_relation r l = record l { relations = put ref_order r.reference r l.relations }

-- One round of the loop of `from_changes`.
unfoldable pub add_mutation : ℕ → RuntimeChange → RuntimeMutation → Latest → Latest
add_mutation valid_at c (a_record r) l = if leb r.valid_from valid_at then put_record r l else l
add_mutation valid_at c (relation r) l = if leb r.valid_from valid_at then put_relation r l else l
add_mutation valid_at c (event e) l =
    let l' = put_record (event_record c e) l in
    option e.subject l' (λ subject. put_relation (emitted c e subject) l')
add_mutation valid_at c _ l = l

abbrev pub is_visible : Bytes → ℕ → RuntimeChange → Bool
is_visible scope known_at_cursor c = leb c.cursor known_at_cursor && bytes_eq c.scope scope

unfoldable pub add_changes : Bytes → ℕ → ℕ → List RuntimeChange → Latest → Latest
add_changes scope valid_at known_at_cursor [] l = l
add_changes scope valid_at known_at_cursor (c ∷ cs) l =
    add_changes scope valid_at known_at_cursor cs
      (if is_visible scope known_at_cursor c then add_mutation valid_at c c.mutation l else l)

abbrev pub before_end : ℕ → Option ℕ → Bool
before_end at none = true
before_end at (some valid_to) = ltb at valid_to

abbrev pub valid_at_window : ℕ → Option ℕ → ℕ → Bool
valid_at_window valid_from valid_to at = leb valid_from at && before_end at valid_to

unfoldable pub live_records : ℕ → Map RuntimeRef RuntimeRecord → List RuntimeRecord
live_records at [] = []
live_records at ((k, r) ∷ m) =
    if valid_at_window r.valid_from r.valid_to at then r ∷ live_records at m else live_records at m

unfoldable pub live_relations : ℕ → Map RuntimeRef RuntimeRelation → List RuntimeRelation
live_relations at [] = []
live_relations at ((k, r) ∷ m) =
    if valid_at_window r.valid_from r.valid_to at
    then r ∷ live_relations at m
    else live_relations at m

-- `RuntimeGraphSnapshot::from_changes`
unfoldable pub from_changes : List RuntimeChange → Bytes → ℕ → ℕ → RuntimeGraphSnapshot
from_changes changes scope valid_at known_at_cursor =
    let l =
      add_changes scope valid_at known_at_cursor changes
        (record { records = []; relations = [] }) in
    record {
      scope = scope;
      valid_at = valid_at;
      known_at_cursor = known_at_cursor;
      records = live_records valid_at l.records;
      relations = live_relations valid_at l.relations;
    }

abbrev pub ref_eq : RuntimeRef → RuntimeRef → Bool
ref_eq a b = bytes_eq a.kind b.kind && bytes_eq a.id b.id

unfoldable pub outgoing : RuntimeRef → List RuntimeRelation → List RuntimeRelation
outgoing from [] = []
outgoing from (r ∷ rs) = if ref_eq r.from from then r ∷ outgoing from rs else outgoing from rs

unfoldable pub incoming : RuntimeRef → List RuntimeRelation → List RuntimeRelation
incoming to [] = []
incoming to (r ∷ rs) = if ref_eq r.to to then r ∷ incoming to rs else incoming to rs

abbrev pub Refs : Type 0
Refs = Map RuntimeRef (Unit {0})

-- An empty set of kinds permits every kind.
abbrev pub permits : Map Bytes (Unit {0}) → RuntimeRelation → Bool
permits [] r = true
permits (k ∷ kinds) r = contains_key bytes_order r.reference.kind (k ∷ kinds)

abbrev pub Queue : Type 0
Queue = List (RuntimeRef × ℕ)

-- The loop over the relations of a node: what is visited, and what is pushed behind the queue.
unfoldable pub visit : Map Bytes (Unit {0}) → ℕ → List RuntimeRelation → Refs × Queue → Refs × Queue
visit kinds depth [] state = state
visit kinds depth (r ∷ rs) (visited, queue) = visit kinds depth rs (
    if permits kinds r && not (contains_key ref_order r.to visited)
    then (put ref_order r.to tt visited, queue ++ (r.to, suc depth) ∷ [])
    else (visited, queue))

-- The loop of `traverse`, on fuel.
unfoldable pub traverse_loop :
    List RuntimeRelation → ℕ → Map Bytes (Unit {0}) → ℕ → Refs × Queue → Option Refs
traverse_loop relations max_depth kinds zero state = none
traverse_loop relations max_depth kinds (suc fuel) (visited, []) = some visited
traverse_loop relations max_depth kinds (suc fuel) (visited, (current, depth) ∷ queue) =
    traverse_loop relations max_depth kinds fuel (
      if leb max_depth depth
      then (visited, queue)
      else visit kinds depth (outgoing current relations) (visited, queue))

-- `traverse`: the references visited, in order.
unfoldable pub traverse :
    ℕ → RuntimeGraphSnapshot → RuntimeRef → ℕ → Map Bytes (Unit {0}) → Option Refs
traverse fuel s start max_depth kinds =
    traverse_loop s.relations max_depth kinds fuel ((start, tt) ∷ [], (start, 0) ∷ [])
