-- ===== src/Core/Runtime/Graph/Snapshot.antt =====
-- runtime.rs, `from_changes`: the records of a snapshot.
use mathlib.Core.Path.{subst}
use vyrm.Prelude.{
  bytes_eq, ◌&&◌, ℕ, ◌≡◌, ◌↔◌, refl, sym, ap, ◌∙◌, true, List, [], ◌∷◌, Option, none, some,
  if◌then◌else◌, if-rule, option-rule, leb, bytes_eq_refl, eq_of_bytes_eq, arith, Bool-cases,
  Option-cases, inl, inr, All, All-In, In, Map, find, put, put-All, find-put_self, find-put_other,
  find-In, In-find, IsAscending, put-IsAscending,
}
use vyrm.Core.Error.{Bytes}
use vyrm.Core.Claim.Window.{Within}
use vyrm.Core.Runtime.Graph.{
  RuntimeRef, ref_order, ref_eq, RuntimeRecord, RuntimeMutation, claim, a_record, relation, event,
  schema, vector, series_sample, geo, object, RuntimeChange, event_record, Latest, put_record,
  put_relation, add_mutation, is_visible, add_changes, valid_at_window, live_records, from_changes,
}

-- The specification: the record that a change writes for an instant, if it writes one. A record that
-- starts behind the instant is passed over, the record of an event never is.
abbrev pub written : ℕ → RuntimeChange → RuntimeMutation → Option RuntimeRecord
written valid_at c (a_record r) = if leb r.valid_from valid_at then some r else none
written valid_at c (event e) = some (event_record c e)
written valid_at c _ = none

abbrev pub later : Option RuntimeRecord → Option RuntimeRecord → Option RuntimeRecord
later none b = b
later (some a) b = some a

abbrev pub of_reference : RuntimeRef → Option RuntimeRecord → Option RuntimeRecord
of_reference ref none = none
of_reference ref (some r) = if ref_eq r.reference ref then some r else none

abbrev pub none_record : Option RuntimeRecord
none_record = none

-- The last record that the visible changes write for a reference.
abbrev pub last_record : Bytes → ℕ → ℕ → RuntimeRef → List RuntimeChange → Option RuntimeRecord
last_record scope at cursor ref [] = none
last_record scope at cursor ref (c ∷ cs) = later (last_record scope at cursor ref cs) (
    if leb c.cursor cursor && bytes_eq c.scope scope
    then of_reference ref (written at c c.mutation)
    else none_record)

pub ref_eq_refl : (a : RuntimeRef) → ref_eq a a ≡ true
ref_eq_refl a = ground (arith, bytes_eq_refl a.kind, bytes_eq_refl a.id)

pub eq_of_ref_eq : (a b : RuntimeRef) → ref_eq a b ≡ true → a ≡ b
eq_of_ref_eq a b h =
    let kinds = eq_of_bytes_eq a.kind b.kind (ground (arith, h)) in
    let ids = eq_of_bytes_eq a.id b.id (ground (arith, h)) in
    λ i. record { kind = kinds i; id = ids i }

later_assoc : (a b c : Option RuntimeRecord) → later (later a b) c ≡ later a (later b c)
later_assoc none b c = refl
later_assoc (some a) b c = refl

find-put_record :
    (ref : RuntimeRef) (r : RuntimeRecord) (m : Map RuntimeRef RuntimeRecord)
    → find ref_order ref (put ref_order r.reference r m)
      ≡ later (of_reference ref (some r)) (find ref_order ref m)
find-put_record ref r m = elim (Bool-cases (ref_eq r.reference ref)) [
  | inl same ↦
      let is = eq_of_ref_eq r.reference ref same in
      rw same (
        ap (λ k. find ref_order k (put ref_order r.reference r m)) (sym is)
        ∙ find-put_self ref_order r.reference r m)
  | inr differs ↦ rw differs (
      find-put_other ref_order ref r.reference r m
        (λ e. ground (arith, differs, ap (λ k. ref_eq r.reference k) e, ref_eq_refl r.reference)))
]

add_mutation-find :
    (at : ℕ) (c : RuntimeChange) (m : RuntimeMutation) (ref : RuntimeRef) (l : Latest)
    → find ref_order ref (add_mutation at c m l).records
      ≡ later (of_reference ref (written at c m)) (find ref_order ref l.records)
unfolding add_mutation
add_mutation-find at c (claim x) ref l = refl
add_mutation-find at c schema ref l = refl
add_mutation-find at c vector ref l = refl
add_mutation-find at c series_sample ref l = refl
add_mutation-find at c geo ref l = refl
add_mutation-find at c object ref l = refl
add_mutation-find at c (relation r) ref l = elim (Bool-cases (leb r.valid_from at)) [
  | inl begun ↦ rw begun refl
  | inr ahead ↦ rw ahead refl
]
add_mutation-find at c (a_record r) ref l = elim (Bool-cases (leb r.valid_from at)) [
  | inl begun ↦ rw begun (find-put_record ref r l.records)
  | inr ahead ↦ rw ahead refl
]
add_mutation-find at c (event e) ref l = elim (Option-cases e.subject) [
  | inl none_there ↦ rw none_there (find-put_record ref (event_record c e) l.records)
  | inr (subject, there) ↦ rw there (find-put_record ref (event_record c e) l.records)
]

window_iff :
    (from : ℕ) (to : Option ℕ) (at : ℕ) → (valid_at_window from to at ≡ true) ↔ Within from to at
window_iff from none at = ground arith
window_iff from (some to) at = ground arith

module _ (scope : Bytes) (at cursor : ℕ) where
  added :
      (ref : RuntimeRef) (c : RuntimeChange) (l : Latest)
      → find ref_order ref
          (if is_visible scope cursor c then add_mutation at c c.mutation l else l).records
        ≡ later
            (if is_visible scope cursor c
              then of_reference ref (written at c c.mutation)
              else none_record)
            (find ref_order ref l.records)
  added ref c l = elim (Bool-cases (is_visible scope cursor c)) [
    | inl seen ↦ rw seen (add_mutation-find at c c.mutation ref l)
    | inr hidden ↦ rw hidden refl
  ]

  add_changes-find :
      (ref : RuntimeRef) (cs : List RuntimeChange) (l : Latest)
      → find ref_order ref (add_changes scope at cursor cs l).records
        ≡ later (last_record scope at cursor ref cs) (find ref_order ref l.records)
  unfolding add_changes
  add_changes-find ref [] l = refl
  add_changes-find ref (c ∷ cs) l =
      add_changes-find ref cs _
      ∙ ap (later (last_record scope at cursor ref cs)) (added ref c l)
      ∙ sym (later_assoc (last_record scope at cursor ref cs) _ _)

  -- The entries of the map: each under its own reference, and in order.
  record IsLatest (m : Map RuntimeRef RuntimeRecord) : Type 0 where
    keyed : All (λ (e : RuntimeRef × RuntimeRecord). e.0 ≡ e.1.reference) m
    ordered : IsAscending ref_order m

  put-IsLatest :
      (r : RuntimeRecord) (m : Map RuntimeRef RuntimeRecord)
      → IsLatest m
      → IsLatest (put ref_order r.reference r m)
  put-IsLatest r m v = record {
    keyed =
        put-All ref_order (λ (e : RuntimeRef × RuntimeRecord). e.0 ≡ e.1.reference) r.reference r m
          v.keyed refl;
    ordered = put-IsAscending ref_order r.reference r m v.ordered;
  }

  add_mutation-IsLatest :
      (c : RuntimeChange) (m : RuntimeMutation) (l : Latest)
      → IsLatest l.records
      → IsLatest (add_mutation at c m l).records
  unfolding add_mutation
  add_mutation-IsLatest c (claim x) l v = v
  add_mutation-IsLatest c schema l v = v
  add_mutation-IsLatest c vector l v = v
  add_mutation-IsLatest c series_sample l v = v
  add_mutation-IsLatest c geo l v = v
  add_mutation-IsLatest c object l v = v
  add_mutation-IsLatest c (relation r) l v =
      if-rule (λ (x : Latest). IsLatest x.records) (leb r.valid_from at) (put_relation r l) l
        (λ begun. v) (λ ahead. v)
  add_mutation-IsLatest c (a_record r) l v =
      if-rule (λ (x : Latest). IsLatest x.records) (leb r.valid_from at) (put_record r l) l
        (λ begun. put-IsLatest r l.records v) (λ ahead. v)
  add_mutation-IsLatest c (event e) l v =
      let more = put-IsLatest (event_record c e) l.records v in
      option-rule (λ (x : Latest). IsLatest x.records) e.subject _ _ (λ absent. more)
        (λ subject there. more)

  add_changes-IsLatest :
      (cs : List RuntimeChange) (l : Latest)
      → IsLatest l.records
      → IsLatest (add_changes scope at cursor cs l).records
  unfolding add_changes
  add_changes-IsLatest [] l v = v
  add_changes-IsLatest (c ∷ cs) l v = add_changes-IsLatest cs _ (
      if-rule (λ (x : Latest). IsLatest x.records) (is_visible scope cursor c)
        (add_mutation at c c.mutation l) l (λ seen. add_mutation-IsLatest c c.mutation l v)
        (λ hidden. v))

  live-In :
      (r : RuntimeRecord) (m : Map RuntimeRef RuntimeRecord)
      → In r (live_records at m)
      → ((k : RuntimeRef) × In (k, r) m) × (valid_at_window r.valid_from r.valid_to at ≡ true)
  unfolding live_records
  live-In r [] i = elim i [ ]
  live-In r ((k, q) ∷ m) i = elim (Bool-cases (valid_at_window q.valid_from q.valid_to at)) [
    | inl live ↦
        let here : In r (q ∷ live_records at m) =
          subst (λ b. In r (if b then q ∷ live_records at m else live_records at m)) live i in
        elim here [
          | inl e ↦ (
            (k, inl (λ t. (k, e t))),
            subst (λ (x : RuntimeRecord). valid_at_window x.valid_from x.valid_to at ≡ true) (sym e)
                live,
          )
          | inr rest ↦ let ((j, there), lives) = live-In r m rest in ((j, inr there), lives)
        ]
    | inr ended ↦
        let rest : In r (live_records at m) =
          subst (λ b. In r (if b then q ∷ live_records at m else live_records at m)) ended i in
        let ((j, there), lives) = live-In r m rest in ((j, inr there), lives)
  ]

  In-live :
      (k : RuntimeRef) (r : RuntimeRecord) (m : Map RuntimeRef RuntimeRecord)
      → In (k, r) m
      → valid_at_window r.valid_from r.valid_to at ≡ true
      → In r (live_records at m)
  unfolding live_records
  In-live k r [] i live = elim i [ ]
  In-live k r ((j, q) ∷ m) (inl e) live =
      let same = ap (λ (x : RuntimeRef × RuntimeRecord). x.1) e in
      let is : valid_at_window q.valid_from q.valid_to at ≡ true =
        subst (λ (x : RuntimeRecord). valid_at_window x.valid_from x.valid_to at ≡ true) same
          live in
      subst (λ b. In r (if b then q ∷ live_records at m else live_records at m)) (sym is) (inl same)
  In-live k r ((j, q) ∷ m) (inr i) live =
      let rest = In-live k r m i live in
      if-rule (λ l. In r l) (valid_at_window q.valid_from q.valid_to at) (q ∷ live_records at m)
        (live_records at m) (λ here. inr rest) (λ ended. rest)

  nothing_found : (ref : RuntimeRef) → find ref_order ref [] ≡ none_record
  unfolding find
  nothing_found ref = refl

  later-none : (a : Option RuntimeRecord) → later a none ≡ a
  later-none none = refl
  later-none (some a) = refl

  -- A snapshot holds a record exactly where that is the last record written for its reference by the
  -- changes of the scope up to the cursor, and its window holds the instant. A record's change counts
  -- as written only where the record starts at the instant or before it, an event's counts whatever
  -- its start.
  pub from_changes-last_record :
      (changes : List RuntimeChange) (r : RuntimeRecord)
      → In r (from_changes changes scope at cursor).records ↔ (
          (last_record scope at cursor r.reference changes ≡ some r)
          × Within r.valid_from r.valid_to at)
  unfolding from_changes
  from_changes-last_record changes r =
      let l : Latest = record { records = []; relations = [] } in
      let m = (add_changes scope at cursor changes l).records in
      let v = add_changes-IsLatest changes l (record { keyed = tt; ordered = tt }) in
      let found : find ref_order r.reference m ≡ last_record scope at cursor r.reference changes =
        add_changes-find r.reference changes l
        ∙ ap (later _) (nothing_found r.reference)
        ∙ later-none _ in
      (
        λ i.
            let ((k, there), lives) = live-In r m i in
            let key : k ≡ r.reference =
              All-In (λ (e : RuntimeRef × RuntimeRecord). e.0 ≡ e.1.reference) m v.keyed there in
            (
              sym found
                  ∙ ap (λ j. find ref_order j m) (sym key)
                  ∙ In-find ref_order k r m v.ordered there,
              (window_iff r.valid_from r.valid_to at).0 lives,
            ),
        λ (last, within).
            In-live r.reference r m (find-In ref_order r.reference r m (found ∙ last))
              ((window_iff r.valid_from r.valid_to at).1 within),
      )
