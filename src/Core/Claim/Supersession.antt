-- ===== src/Core/Claim/Supersession.antt =====
-- claim.rs: what `supersede` accepts, and how the pair that it returns divides time.
use mathlib.Core.Path.{subst}
use vyrm.Prelude.{
  ℕ, ◌<◌, ◌≡◌, refl, true, false, ◌&&◌, [], ◌∷◌, Option, none, some, ok, ltb, leb, if◌then◌else◌,
  arith, ◌↔◌, ap, ◌==◌,
}
use vyrm.Core.Claim.{Claim, supersede, valid_at, validate, digest, same_ident}
use vyrm.Core.Temporal.{resolve_as_of, resolve_loop, skip_version}

-- The correction that closes the window of `previous` where that of `successor` opens.
abbrev pub retirement : Claim → Claim → Claim
retirement previous successor = record previous {
  valid_to = some successor.valid_from;
  tx_time = successor.tx_time;
  supersedes = some (digest previous);
}

abbrev pub succession : Claim → Claim → Claim
succession previous successor = record successor { supersedes = some (digest previous) }

-- Same subject and predicate, a later start, recorded later, and a window of its own that is valid.
pub record CanSupersede (previous successor : Claim) : Type 0 where
  pub subject : same_ident previous.subject successor.subject ≡ true
  pub predicate : same_ident previous.predicate successor.predicate ≡ true
  pub starts_later : previous.valid_from < successor.valid_from
  pub recorded_later : previous.tx_time < successor.tx_time
  pub window : validate successor ≡ ok tt

-- `supersede` succeeds for exactly the successors that name the same pair, begin later, are recorded
-- later and have a valid window; the pair that it returns is the retirement correction and the
-- successor, each citing the digest of the claim that is superseded.
pub supersede_iff :
    (p s r n : Claim)
    → (supersede p s ≡ ok (r, n)) ↔ (CanSupersede p s × (retirement p s ≡ r) × (succession p s ≡ n))
unfolding supersede validate
supersede_iff p s r n = (there s.valid_to, back)
  where
    there :
        (end : Option ℕ)
        → supersede p (record s { valid_to = end }) ≡ ok (r, n)
        → CanSupersede p (record s { valid_to = end })
          × (retirement p (record s { valid_to = end }) ≡ r)
          × (succession p (record s { valid_to = end }) ≡ n)
    there none h = ground arith
    there (some to) h = ground arith

    back :
        CanSupersede p s × (retirement p s ≡ r) × (succession p s ≡ n) → supersede p s ≡ ok (r, n)
    back (can, e, f) = ground (arith, can.window)

-- The retirement correction is valid from the old start up to the new one.
valid_at-retirement :
    (p s r n : Claim) (t : ℕ)
    → supersede p s ≡ ok (r, n)
    → valid_at r t ≡ (leb p.valid_from t && ltb t n.valid_from)
unfolding valid_at
valid_at-retirement p s r n t h =
    let (can, e, f) = (supersede_iff p s r n).0 h in
    let from_n : s.valid_from ≡ n.valid_from = ap (λ (k : Claim). k.valid_from) f in
    subst (λ (k : Claim). valid_at k t ≡ (leb p.valid_from t && ltb t n.valid_from)) e
      (ground arith)

-- After a supersession the three versions, newest first, resolve to the successor where it is valid,
-- to the retirement from the old start up to the new one, and to nothing elsewhere: the open
-- original is never in force again.
pub resolve-supersede :
    (p s r n : Claim) (t : ℕ)
    → supersede p s ≡ ok (r, n)
    → resolve_as_of (n ∷ r ∷ p ∷ []) t ≡ (
        if valid_at n t
        then some n
        else if leb p.valid_from t && ltb t n.valid_from
        then some r
        else none)
unfolding resolve_as_of resolve_loop skip_version
resolve-supersede p s r n t h =
    let (can, e, f) = (supersede_iff p s r n).0 h in
    let from_r : p.valid_from ≡ r.valid_from = ap (λ (k : Claim). k.valid_from) e in
    let from_n : s.valid_from ≡ n.valid_from = ap (λ (k : Claim). k.valid_from) f in
    let apart : (r.valid_from == n.valid_from) ≡ false = ground (arith, can.starts_later) in
    let together : (p.valid_from == r.valid_from) ≡ true = ground arith in
    rw apart (rw together (rw (valid_at-retirement p s r n t h) refl))
