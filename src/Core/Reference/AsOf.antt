-- ===== src/Core/Reference/AsOf.antt =====
-- reference.rs: `as_of` of a store returns the claim in force among the stored claims.
use mathlib.Core.Path.{subst}
use vyrm.Prelude.{
  ℕ, ◌≤◌, ◌≡◌, sym, ap, ◌∙◌, true, ◌&&◌, ◌||◌, [], ◌∷◌, none, some, lex_lt, eq_of_bytes_eq, All,
  arith, Bool-cases, inl, inr, In, ltb, ◌==◌,
}
use vyrm.Core.Error.{Bytes}
use vyrm.Core.Ident.{Subject, Predicate, IsIdent}
use vyrm.Core.Claim.{Claim, valid_at}
use vyrm.Core.Key.{u64_max, claim_key}
use vyrm.Core.Key.Order.{lex_lt-claim_key}
use vyrm.Core.Temporal.{resolve_as_of}
use vyrm.Core.Temporal.Resolution.{
  Newer, IsNewestFirst, InForce, Corrected, resolve_as_of-InForce, resolve_as_of-none,
}
use vyrm.Core.Reference.{Rows, MemoryClaims, iter, key_of, as_of}
use vyrm.Core.Reference.Rows.{IsTyped, IsRow, IsOrdered, IsStore}
use vyrm.Core.Reference.Queries.{select, started, on, versions-select}

module _ (s : Subject) (p : Predicate) where
  key_of-on : (c : Claim) → on s p c ≡ true → key_of c ≡ claim_key s p c.valid_from c.tx_time
  key_of-on c h =
      let same_subject : s.text ≡ c.subject.text =
        eq_of_bytes_eq s.text c.subject.text (ground arith) in
      let same_predicate : p.text ≡ c.predicate.text =
        eq_of_bytes_eq p.text c.predicate.text (ground arith) in
      sym (
        ap (λ t. claim_key (record { text = t }) p c.valid_from c.tx_time) same_subject
        ∙ ap (λ t. claim_key c.subject (record { text = t }) c.valid_from c.tx_time) same_predicate)

  -- Keys in order put the claims newest first.
  Newer-lex_lt :
      (c d : Claim)
      → on s p c ≡ true
      → on s p d ≡ true
      → IsTyped c
      → IsTyped d
      → lex_lt (key_of c) (key_of d) ≡ true
      → Newer c d
  Newer-lex_lt c d hc hd tc td h =
      let order : (ltb d.valid_from c.valid_from
            || (d.valid_from == c.valid_from && ltb d.tx_time c.tx_time))
          ≡ true =
        sym (
          lex_lt-claim_key s p c.valid_from c.tx_time d.valid_from d.tx_time tc.from tc.tx td.from
            td.tx)
        ∙ sym (ap (λ k. lex_lt k (claim_key s p d.valid_from d.tx_time)) (key_of-on c hc))
        ∙ sym (ap (lex_lt (key_of c)) (key_of-on d hd))
        ∙ h in
      ground arith

  on_of_started : (at : ℕ) (c : Claim) → started s p at c ≡ true → on s p c ≡ true
  on_of_started at c h = ground arith

  select-Newer :
      (at : ℕ) (c : Claim) (rows : Rows)
      → on s p c ≡ true
      → IsTyped c
      → All (λ (q : Bytes × Claim). lex_lt (key_of c) q.0 ≡ true) rows
      → All IsRow rows
      → All (Newer c) (select (started s p at) (iter rows))
  unfolding iter
  select-Newer at c [] hc tc above a = tt
  select-Newer at c ((k, d) ∷ rows) hc tc above a = elim (Bool-cases (started s p at d)) [
    | inl hit ↦ rw hit (
      Newer-lex_lt c d hc (on_of_started at d hit) tc a.0.1
          (sym (ap (lex_lt (key_of c)) a.0.0) ∙ above.0),
      select-Newer at c rows hc tc above.1 a.1,
    )
    | inr miss ↦ rw miss (select-Newer at c rows hc tc above.1 a.1)
  ]

  select-IsNewestFirst :
      (at : ℕ) (rows : Rows)
      → IsOrdered rows
      → All IsRow rows
      → IsNewestFirst (select (started s p at) (iter rows))
  unfolding iter
  select-IsNewestFirst at [] o a = tt
  select-IsNewestFirst at ((k, d) ∷ rows) o a = elim (Bool-cases (started s p at d)) [
    | inl hit ↦ rw hit (
      select-Newer at d rows (on_of_started at d hit) a.0.1
          (subst (λ j. All (λ (q : Bytes × Claim). lex_lt j q.0 ≡ true) rows) a.0.0 o.0) a.1,
      select-IsNewestFirst at rows o.1 a.1,
    )
    | inr miss ↦ rw miss (select-IsNewestFirst at rows o.1 a.1)
  ]

-- What `as_of` returns from a store is the claim in force among the stored claims of that subject
-- and predicate that start at or before the instant. Where it returns nothing, each of those that
-- is valid at the instant has been corrected by another of them.
pub as_of-InForce :
    (m : MemoryClaims) (s : Subject) (p : Predicate) (at : ℕ)
    → IsStore m
    → IsIdent s
    → IsIdent p
    → at ≤ u64_max
    → ((c : Claim) → as_of m s p at ≡ some c → InForce (select (started s p at) (iter m.rows)) at c)
      × (as_of m s p at ≡ none
          → (d : Claim) → In d (select (started s p at) (iter m.rows))
          → valid_at d at ≡ true
          → Corrected (select (started s p at) (iter m.rows)) d)
unfolding as_of
as_of-InForce m s p at store hs hp ht =
    let found = (versions-select m s p at store hs hp ht).0 in
    let order : IsNewestFirst (select (started s p at) (iter m.rows)) =
      select-IsNewestFirst s p at m.rows store.ordered store.sound in
    (
      λ c e. resolve_as_of-InForce _ at c order (sym (ap (λ cs. resolve_as_of cs at) found) ∙ e),
      λ e. resolve_as_of-none _ at order (sym (ap (λ cs. resolve_as_of cs at) found) ∙ e),
    )
