-- ===== src/Core/Claim/Window.antt =====
-- claim.rs: the valid-time window of a claim and its retirement.
use mathlib.Core.Path.{subst}
use vyrm.Prelude.{ℕ, ◌≤◌, ◌<◌, ◌≡◌, true, ◌&&◌, Option, none, some, ok, ltb, leb, arith, ◌↔◌}
use vyrm.Core.Claim.{Claim, retire, valid_at, validate}

-- The instants of a half-open interval that may have no end.
abbrev pub Within : ℕ → Option ℕ → ℕ → Type 0
Within from none t = from ≤ t
Within from (some to) t = (from ≤ t) × (t < to)

-- A claim is valid at exactly the instants of the half-open interval from its start to its end.
pub valid_at_iff : (c : Claim) (t : ℕ) → (valid_at c t ≡ true) ↔ Within c.valid_from c.valid_to t
unfolding valid_at
valid_at_iff c t = (there c.valid_to, back c.valid_to)
  where
    there :
        (end : Option ℕ)
        → valid_at (record c { valid_to = end }) t ≡ true
        → Within c.valid_from end t
    there none h = ground arith
    there (some to) h = ground arith

    back :
        (end : Option ℕ)
        → Within c.valid_from end t
        → valid_at (record c { valid_to = end }) t ≡ true
    back none h = ground arith
    back (some to) h = ground arith

-- A retirement that is accepted comes after the start. It returns a claim that `validate` accepts
-- and that is valid from the start on, and no longer from the retirement on.
pub retire-valid_at :
    (c : Claim) (at : ℕ) (d : Claim)
    → retire c at ≡ ok d
    → (c.valid_from < at)
      × (validate d ≡ ok tt)
      × ((t : ℕ) → valid_at d t ≡ (leb c.valid_from t && ltb t at))
unfolding retire validate valid_at
retire-valid_at c at d h =
    let after : c.valid_from < at = ground arith in
    let e : record c { valid_to = some at } ≡ d = ground arith in
    (
      after,
      subst (λ (k : Claim). validate k ≡ ok tt) e (ground (arith, after)),
      λ t. subst (λ (k : Claim). valid_at k t ≡ (leb c.valid_from t && ltb t at)) e (ground arith),
    )
