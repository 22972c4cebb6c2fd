-- ===== src/Core/Recall/Budget.antt =====
-- recall.rs: what the fill of the budget keeps.
use vyrm.Prelude.{
  ℕ, zero, suc, ◌+◌, ◌≤◌, ◌≡◌, refl, ap, ◌∙◌, false, List, [], ◌∷◌, ◌++◌, Option, none, some, ok,
  err, ◌>>=◌, leb, length, arith, Bool-cases, Result-cases, inl, inr, ◌⊎◌,
}
use mathlib.Core.Path.{subst}
use vyrm.Core.Error.{Error, Outcome}
use vyrm.Core.Ident.{Subject}
use vyrm.Core.Claim.{Claim}
use vyrm.Core.Temporal.{resolve_as_of}
use vyrm.Core.Recall.{
  RecallQuery, RecallSet, Fill, estimate_claim_tokens, offer, offer_option, contains, wanted,
  behind_run, run, groups_loop, subjects_loop, recall, digest,
}

abbrev pub total_tokens : List Claim → ℕ
total_tokens [] = 0
total_tokens (c ∷ cs) = estimate_claim_tokens c + total_tokens cs

total_tokens-snoc :
    (cs : List Claim) (c : Claim)
    → total_tokens (cs ++ c ∷ []) ≡ total_tokens cs + estimate_claim_tokens c
total_tokens-snoc [] c = omega arith
total_tokens-snoc (d ∷ cs) c = omega (arith, total_tokens-snoc cs c)

-- The tokens spent are those of the claims, and stay within the budget from the second claim on.
abbrev pub IsFill : ℕ → Fill → Type 0
IsFill budget f =
    (f.spent ≡ total_tokens f.included) × ((length f.included ≤ 1) ⊎ (f.spent ≤ budget))

offer-IsFill :
    (budget : ℕ) (f : Fill) (c : Claim) → IsFill budget f → IsFill budget (offer budget f c)
unfolding offer
offer-IsFill budget f c h = go f.included refl
  where
    go : (cs : List Claim) → f.included ≡ cs → IsFill budget (offer budget f c)
    go [] e = rw e (omega (arith, h.0, ap total_tokens e), inl (omega arith))
    go (d ∷ ds) e = elim (Bool-cases (leb (f.spent + estimate_claim_tokens c) budget)) [
      | inl fits ↦
          rw (e, fits)
            (
              omega (arith, h.0, ap total_tokens e, total_tokens-snoc (d ∷ ds) c),
              inr (ground (arith, fits)),
            )
      | inr over ↦
          rw (e, over)
            (h.0 ∙ ap total_tokens e, subst (λ cs. (length cs ≤ 1) ⊎ (f.spent ≤ budget)) e h.1)
    ]

groups_loop-IsFill :
    (query : RecallQuery) (budget fuel : ℕ) (versions : List Claim) (f : Fill)
    → IsFill budget f
    → IsFill budget (groups_loop query budget fuel versions f)
unfolding groups_loop
groups_loop-IsFill query budget zero versions f h = h
groups_loop-IsFill query budget (suc fuel) [] f h = h
groups_loop-IsFill query budget (suc fuel) (c ∷ cs) f h =
    groups_loop-IsFill query budget fuel (behind_run c.predicate cs) _
      (elim (Bool-cases (wanted query.predicates c.predicate)) [
        | inl taken ↦
            rw taken (offer_option-IsFill (resolve_as_of (c ∷ run c.predicate cs) query.as_of))
        | inr left ↦ rw left h
      ])
  where
    offer_option-IsFill : (o : Option Claim) → IsFill budget (offer_option budget f o)
    offer_option-IsFill none = h
    offer_option-IsFill (some current) = offer-IsFill budget f current h

module _ (subject_versions : Subject → Outcome (List Claim)) (query : RecallQuery)
    (budget : ℕ) where
  subjects_loop-IsFill :
      (ss visited : List Subject) (f g : Fill)
      → IsFill budget f
      → subjects_loop subject_versions query budget visited ss f ≡ ok g
      → IsFill budget g
  unfolding subjects_loop
  subjects_loop-IsFill [] visited f g h e =
      let same : f ≡ g = ground arith in subst (IsFill budget) same h
  subjects_loop-IsFill (s ∷ ss) visited f g h e = elim (Bool-cases (contains s visited)) [
    | inl seen ↦ subjects_loop-IsFill ss visited f g h (rw seen at e)
    | inr fresh ↦ elim (Result-cases (subject_versions s)) [
      | inl (versions, q) ↦
          subjects_loop-IsFill ss (visited ++ s ∷ []) _ g
            (groups_loop-IsFill query budget (length versions) versions f h)
            (rw q at (rw fresh at e))
      | inr (x, q) ↦ absurd (refused x (rw q at (rw fresh at e)))
    ]
  ]
    where
      refused : (x : Error) → Path (Outcome Fill) (err x) (ok g) → ⊥
      refused x q = ground arith

  -- The token estimate of a recall set is the sum of the estimates of its claims, and it is within
  -- the budget unless the set has one claim at most. Its digest is that of its claims.
  pub recall-token_estimate :
      (set : RecallSet)
      → recall subject_versions query budget ≡ ok set
      → (set.token_estimate ≡ total_tokens set.claims)
        × ((length set.claims ≤ 1) ⊎ (set.token_estimate ≤ budget))
        × (set.digest ≡ digest set.claims)
  unfolding recall
  recall-token_estimate set e =
      go (subjects_loop subject_versions query budget [] query.subjects start) refl e
    where
      start : Fill
      start = record { included = []; spent = 0; truncated = false }

      go :
          (r : Outcome Fill)
          → subjects_loop subject_versions query budget [] query.subjects start ≡ r
          → (r >>= λ f. ok (record {
            digest = digest f.included;
            token_estimate = f.spent;
            truncated = f.truncated;
            claims = f.included;
          }))
            ≡ ok set
          → (set.token_estimate ≡ total_tokens set.claims)
            × ((length set.claims ≤ 1) ⊎ (set.token_estimate ≤ budget))
            × (set.digest ≡ digest set.claims)
      go (err x) q p = absurd (ground arith)
      go (ok f) q p =
          let fill = subjects_loop-IsFill query.subjects [] start f (refl, inl (omega arith)) q in
          let same : record {
            claims = f.included;
            digest = digest f.included;
            token_estimate = f.spent;
            truncated = f.truncated;
          }
              ≡ set =
            ground arith in
          subst
            (λ (t : RecallSet).
              (t.token_estimate ≡ total_tokens t.claims)
              × ((length t.claims ≤ 1) ⊎ (t.token_estimate ≤ budget))
              × (t.digest ≡ digest t.claims))
            same (fill.0, fill.1, refl)
