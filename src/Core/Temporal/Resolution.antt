-- ===== src/Core/Temporal/Resolution.antt =====
-- temporal.rs: what `resolve_as_of` returns, against a description that names no order of search.
use mathlib.Core.Path.{subst}
use vyrm.Prelude.{
  ℕ, zero, suc, ◌≤◌, ◌<◌, ◌≡◌, ◌≢◌, refl, sym, ap, ◌∙◌, true, false, List, [], ◌∷◌, none, some,
  ◌==◌, length, All, In, All-In, ◌⊎◌, inl, inr, arith, Bool-cases,
}
use vyrm.Core.Claim.{Claim, valid_at}
use vyrm.Core.Temporal.{skip_version, resolve_loop, resolve_as_of}

-- `c` stands before `d` newest first: by valid time, then by transaction time.
abbrev pub Newer : Claim → Claim → Type 0
Newer c d = (d.valid_from < c.valid_from) ⊎ (d.valid_from ≡ c.valid_from) × (d.tx_time < c.tx_time)

abbrev pub IsNewestFirst : List Claim → Type 0
IsNewestFirst [] = Unit
IsNewestFirst (c ∷ cs) = All (Newer c) cs × IsNewestFirst cs

-- A later correction of `d` is among the candidates.
abbrev pub Corrected : List Claim → Claim → Type 0
Corrected cs d = (e : Claim) × In e cs × (e.valid_from ≡ d.valid_from) × (d.tx_time < e.tx_time)

-- The claim in force: a candidate that is valid, that no correction replaces, and that no claim of a
-- later start takes the place of, unless that one has been corrected.
pub record InForce (cs : List Claim) (as_of : ℕ) (c : Claim) : Type 0 where
  pub stored : In c cs
  pub valid : valid_at c as_of ≡ true
  pub latest : (d : Claim) → In d cs → d.valid_from ≡ c.valid_from → d.tx_time ≤ c.tx_time
  pub newest :
      (d : Claim) → In d cs → c.valid_from < d.valid_from → valid_at d as_of ≡ true → Corrected cs d

skip_version-In : (v : ℕ) (cs : List Claim) (d : Claim) → In d (skip_version v cs) → In d cs
unfolding skip_version
skip_version-In v [] d m = m
skip_version-In v (c ∷ cs) d m = elim (Bool-cases (c.valid_from == v)) [
  | inl same ↦ inr (skip_version-In v cs d (rw same at m))
  | inr other ↦ rw other at m
]

In-skip_version :
    (v : ℕ) (cs : List Claim) (d : Claim) → In d cs → d.valid_from ≢ v → In d (skip_version v cs)
unfolding skip_version
In-skip_version v [] d m h = m
In-skip_version v (c ∷ cs) d (inl e) h =
    let differ : c.valid_from ≢ v = λ q. h (ap (λ (k : Claim). k.valid_from) e ∙ q) in
    let keep : (c.valid_from == v) ≡ false = ground arith in rw keep (inl e)
In-skip_version v (c ∷ cs) d (inr m) h = elim (Bool-cases (c.valid_from == v)) [
  | inl same ↦ rw same (In-skip_version v cs d m h)
  | inr other ↦ rw other (inr m)
]

length-skip_version : (v : ℕ) (cs : List Claim) → length (skip_version v cs) ≤ length cs
unfolding skip_version
length-skip_version v [] = omega arith
length-skip_version v (c ∷ cs) = ground (arith, length-skip_version v cs)

skip_version-IsNewestFirst :
    (v : ℕ) (cs : List Claim) → IsNewestFirst cs → IsNewestFirst (skip_version v cs)
unfolding skip_version
skip_version-IsNewestFirst v [] h = h
skip_version-IsNewestFirst v (c ∷ cs) h = elim (Bool-cases (c.valid_from == v)) [
  | inl same ↦ rw same (skip_version-IsNewestFirst v cs h.1)
  | inr other ↦ rw other h
]

-- What is left behind the versions of the newest start begins earlier.
skip_version-lt :
    (x : Claim) (cs : List Claim) (d : Claim)
    → All (Newer x) cs
    → IsNewestFirst cs
    → In d (skip_version x.valid_from cs)
    → d.valid_from < x.valid_from
unfolding skip_version
skip_version-lt x [] d a h m = absurd m
skip_version-lt x (c ∷ cs) d a h m = elim (Bool-cases (c.valid_from == x.valid_from)) [
  | inl same ↦ skip_version-lt x cs d a.1 h.1 (rw same at m)
  | inr other ↦
      let first : c.valid_from < x.valid_from = ground (arith, a.0) in behind first (rw other at m)
]
  where
    behind : c.valid_from < x.valid_from → In d (c ∷ cs) → d.valid_from < x.valid_from
    behind first (inl e) = rw e first
    behind first (inr m) = ground (arith, first, All-In (Newer c) cs h.0 m)

-- A version of the start that a newer one replaces.
replaced :
    (x : Claim) (cs : List Claim) (d : Claim)
    → All (Newer x) cs
    → In d cs
    → d.valid_from ≡ x.valid_from
    → Corrected (x ∷ cs) d
replaced x cs d a m e = (x, inl refl, sym e, ground (arith, All-In (Newer x) cs a m, e))

lift-Corrected :
    (x : Claim) (cs : List Claim) (d : Claim)
    → Corrected (skip_version x.valid_from cs) d
    → Corrected (x ∷ cs) d
lift-Corrected x cs d (e, m, from, tx) = (e, inr (skip_version-In x.valid_from cs e m), from, tx)

-- The newest candidate does not hold: what holds among the later ones carries over.
module _ (x : Claim) (cs : List Claim) (as_of : ℕ) (h : IsNewestFirst (x ∷ cs))
    (lapsed : valid_at x as_of ≡ false) where
  abbrev others : List Claim
  others = skip_version x.valid_from cs

  carry-Corrected :
      (bound : ℕ)
      → ((d : Claim)
          → In d others
          → bound ≤ d.valid_from
          → valid_at d as_of ≡ true
          → Corrected others d)
      → (d : Claim) → In d (x ∷ cs)
      → bound ≤ d.valid_from
      → valid_at d as_of ≡ true
      → Corrected (x ∷ cs) d
  carry-Corrected bound ih d (inl e) le v =
      absurd (ground (arith, ap (λ (k : Claim). valid_at k as_of) e))
  carry-Corrected bound ih d (inr m) le v = elim (Bool-cases (d.valid_from == x.valid_from)) [
    | inl same ↦ replaced x cs d h.0 m (ground arith)
    | inr other ↦
        lift-Corrected x cs d (ih d (In-skip_version x.valid_from cs d m (ground arith)) le v)
  ]

  carry-InForce : (c : Claim) → InForce others as_of c → InForce (x ∷ cs) as_of c
  carry-InForce c f =
      let earlier = skip_version-lt x cs c h.0 h.1 f.stored in
      record {
        stored = inr (skip_version-In x.valid_from cs c f.stored);
        valid = f.valid;
        latest = λ d m e. among d m e earlier;
        newest = carry-Corrected (suc c.valid_from) f.newest;
      }
    where
      among :
          (d : Claim)
          → In d (x ∷ cs)
          → d.valid_from ≡ c.valid_from
          → c.valid_from < x.valid_from
          → d.tx_time ≤ c.tx_time
      among d (inl p) e earlier = absurd (ground (arith, ap (λ (k : Claim). k.valid_from) p))
      among d (inr m) e earlier = f.latest d (In-skip_version x.valid_from cs d m (ground arith)) e

-- The newest candidate holds.
head-InForce :
    (x : Claim) (cs : List Claim) (as_of : ℕ)
    → IsNewestFirst (x ∷ cs)
    → valid_at x as_of ≡ true
    → InForce (x ∷ cs) as_of x
head-InForce x cs as_of h v = record {
  stored = inl refl;
  valid = v;
  latest = latest;
  newest = newest;
}
  where
    latest : (d : Claim) → In d (x ∷ cs) → d.valid_from ≡ x.valid_from → d.tx_time ≤ x.tx_time
    latest d (inl p) e = rw p (omega arith)
    latest d (inr m) e = ground (arith, All-In (Newer x) cs h.0 m)

    newest :
        (d : Claim)
        → In d (x ∷ cs)
        → x.valid_from < d.valid_from
        → valid_at d as_of ≡ true
        → Corrected (x ∷ cs) d
    newest d (inl p) lt vd = absurd (ground (arith, ap (λ (k : Claim). k.valid_from) p))
    newest d (inr m) lt vd = absurd (ground (arith, All-In (Newer x) cs h.0 m))

resolve_loop-InForce :
    (fuel : ℕ) (cs : List Claim) (as_of : ℕ) (c : Claim)
    → IsNewestFirst cs
    → resolve_loop fuel cs as_of ≡ some c
    → InForce cs as_of c
unfolding resolve_loop
resolve_loop-InForce zero cs as_of c h e = absurd (ground arith)
resolve_loop-InForce (suc fuel) [] as_of c h e = absurd (ground arith)
resolve_loop-InForce (suc fuel) (x ∷ cs) as_of c h e = elim (Bool-cases (valid_at x as_of)) [
  | inl holds ↦
      let p : x ≡ c = ground arith in
      subst (InForce (x ∷ cs) as_of) p (head-InForce x cs as_of h holds)
  | inr lapsed ↦ carry-InForce x cs as_of h lapsed c (
      resolve_loop-InForce fuel (skip_version x.valid_from cs) as_of c
        (skip_version-IsNewestFirst x.valid_from cs h.1) (ground arith))
]

resolve_loop-none :
    (fuel : ℕ) (cs : List Claim) (as_of : ℕ)
    → length cs ≤ fuel
    → IsNewestFirst cs
    → resolve_loop fuel cs as_of ≡ none
    → (d : Claim) → In d cs
    → 0 ≤ d.valid_from
    → valid_at d as_of ≡ true
    → Corrected cs d
unfolding resolve_loop
resolve_loop-none fuel [] as_of f h e d m le v = absurd m
resolve_loop-none zero (x ∷ cs) as_of f h e d m le v = absurd (omega arith)
resolve_loop-none (suc fuel) (x ∷ cs) as_of f h e d m le v =
    let lapsed : valid_at x as_of ≡ false = ground arith in
    carry-Corrected x cs as_of h lapsed 0
      (resolve_loop-none fuel (skip_version x.valid_from cs) as_of
        (omega (arith, length-skip_version x.valid_from cs))
        (skip_version-IsNewestFirst x.valid_from cs h.1) (ground arith))
      d m le v

-- Of candidates newest first, what `resolve_as_of` returns is the claim in force: it is a candidate,
-- it is valid at the instant, no correction of it is a candidate, and every valid candidate of a
-- later start has been corrected.
pub resolve_as_of-InForce :
    (cs : List Claim) (as_of : ℕ) (c : Claim)
    → IsNewestFirst cs
    → resolve_as_of cs as_of ≡ some c
    → InForce cs as_of c
unfolding resolve_as_of
resolve_as_of-InForce cs as_of c = resolve_loop-InForce (length cs) cs as_of c

-- Where it returns nothing, every candidate that is valid at the instant has been corrected.
pub resolve_as_of-none :
    (cs : List Claim) (as_of : ℕ)
    → IsNewestFirst cs
    → resolve_as_of cs as_of ≡ none
    → (d : Claim) → In d cs
    → valid_at d as_of ≡ true
    → Corrected cs d
unfolding resolve_as_of
resolve_as_of-none cs as_of h e d m v =
    resolve_loop-none (length cs) cs as_of (omega arith) h e d m (omega arith) v
