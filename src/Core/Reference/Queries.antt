-- ===== src/Core/Reference/Queries.antt =====
-- reference.rs: every query answers with the stored claims that it asks for, by their fields alone,
-- newest first; and what `as_of` returns is the claim in force among them.
use vyrm.Prelude.{
  ℕ, ◌≤◌, ◌≡◌, refl, ap, ap₂, ◌∙◌, Bool, ◌&&◌, List, [], ◌∷◌, bytes_eq, if◌then◌else◌, All, leb,
}
use vyrm.Core.Error.{Bytes}
use vyrm.Core.Ident.{Subject, Predicate, IsIdent}
use vyrm.Core.Claim.{Claim}
use vyrm.Core.Key.{u64_max, seek_key, version_prefix, subject_prefix, prefix_end}
use vyrm.Core.Key.Seek.{in_range, seek_range, prefix_range, subject_range}
use vyrm.Core.Reference.{
  Rows, MemoryClaims, range, scan, iter, key_of, versions_at_or_before, all_versions,
  subject_versions, as_of,
}
use vyrm.Core.Reference.Rows.{IsTyped, IsRow, IsStore}

-- The stored claims that a test on their fields accepts, in the order of the store.
abbrev pub select : (Claim → Bool) → List Claim → List Claim
select test [] = []
select test (c ∷ cs) = if test c then c ∷ select test cs else select test cs

abbrev pub about : Subject → Claim → Bool
about s c = bytes_eq s.text c.subject.text

abbrev pub on : Subject → Predicate → Claim → Bool
on s p c = bytes_eq s.text c.subject.text && bytes_eq p.text c.predicate.text

abbrev pub started : Subject → Predicate → ℕ → Claim → Bool
started s p as_of c =
    bytes_eq s.text c.subject.text && bytes_eq p.text c.predicate.text && leb c.valid_from as_of

-- A range whose bounds decide a test on the claims selects by that test.
range-select :
    (test : Claim → Bool) (from prefix : Bytes) (rows : Rows)
    → ((c : Claim) → IsTyped c → in_range from prefix (key_of c) ≡ test c)
    → All IsRow rows
    → range from (prefix_end prefix) rows ≡ select test (iter rows)
unfolding range iter
range-select test from prefix [] h a = refl
range-select test from prefix ((k, c) ∷ rows) h a =
    let decides : in_range from prefix k ≡ test c = ap (in_range from prefix) a.0.0 ∙ h c a.0.1 in
    ap₂ (λ b rest. if b then c ∷ rest else rest) decides (range-select test from prefix rows h a.1)

-- A store answers an as-of scan with its claims of that subject and predicate that start at or
-- before the instant, a history scan with those of any start, and a subject scan with the claims of
-- that subject: nothing else, nothing missing.
pub versions-select :
    (m : MemoryClaims) (s : Subject) (p : Predicate) (at : ℕ)
    → IsStore m
    → IsIdent s
    → IsIdent p
    → at ≤ u64_max
    → (versions_at_or_before m s p at ≡ select (started s p at) (iter m.rows))
      × (all_versions m s p ≡ select (on s p) (iter m.rows))
      × (subject_versions m s ≡ select (about s) (iter m.rows))
unfolding versions_at_or_before all_versions subject_versions scan
versions-select m s p at store hs hp ht = (
  range-select (started s p at) (seek_key s p at) (version_prefix s p) m.rows
      (λ c t.
        seek_range s c.subject p c.predicate at c.valid_from c.tx_time hs t.subject hp t.predicate
          ht t.from t.tx)
      store.sound,
  range-select (on s p) (version_prefix s p) (version_prefix s p) m.rows
      (λ c t. prefix_range hs t.subject hp t.predicate c.valid_from c.tx_time) store.sound,
  range-select (about s) (subject_prefix s) (subject_prefix s) m.rows
      (λ c t. subject_range s c.subject c.predicate c.valid_from c.tx_time hs t.subject t.predicate)
      store.sound,
)
