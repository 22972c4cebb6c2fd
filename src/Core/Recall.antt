-- ===== src/Core/Recall.antt =====
-- crates/vyrm-core/src/recall.rs: the claims in force for a set of subjects, within a token budget.
-- The source of claims, a `ClaimSource`, is a function of the subject.
pub mod Budget
use vyrm.Prelude.{
  ℕ, zero, suc, ◌+◌, ◌/◌, ◌≡◌, Bool, true, false, not, ◌||◌, ◌&&◌, List, [], ◌∷◌, ◌++◌, Option,
  none, some, Result, ok, err, ◌>>=◌, ◌>>◌, if◌then◌else◌, leb, ltb, bytes_eq, length, codes,
}
use vyrm.Core.Error.{Bytes, Outcome}
use vyrm.Core.Ident.{Ident, Subject, Predicate}
use vyrm.Core.Digest.{sha256_hex}
use vyrm.Core.Encoding.{u64_bytes}
use vyrm.Core.Claim.{Claim, canonical_bytes}
use vyrm.Core.Temporal.{resolve_as_of}

pub record RecallQuery : Type 0 where
  pub subjects : List Subject
  pub predicates : Option (List Predicate)
  pub as_of : ℕ

pub record RecallSet : Type 0 where
  pub claims : List Claim
  pub digest : Bytes
  pub token_estimate : ℕ
  pub truncated : Bool

abbrev pub estimated_bytes_per_token : ℕ
estimated_bytes_per_token = 4

-- The four lengths, divided rounding up.
unfoldable pub estimate_claim_tokens : Claim → ℕ
estimate_claim_tokens c =
    (length c.subject.text
      + length c.predicate.text
      + length c.object
      + length c.producer.actor
      + 3)
    / estimated_bytes_per_token

unfoldable pub digest_claims : List Claim → Bytes
digest_claims [] = []
digest_claims (c ∷ cs) =
    u64_bytes (length (canonical_bytes c)) ++ (canonical_bytes c ++ digest_claims cs)

unfoldable pub digest : List Claim → Bytes
digest claims =
    sha256_hex
      (codes "vyrm-recall-v1" ++ (0 ∷ []) ++ (u64_bytes (length claims) ++ digest_claims claims))

-- `included`, `spent` and `truncated` of the loop.
pub record Fill : Type 0 where
  pub included : List Claim
  pub spent : ℕ
  pub truncated : Bool

abbrev is_nil : List Claim → Bool
is_nil [] = true
is_nil (c ∷ cs) = false

-- The budget test of one resolved claim.
unfoldable pub offer : ℕ → Fill → Claim → Fill
offer token_budget f current =
    if is_nil f.included || leb (f.spent + estimate_claim_tokens current) token_budget
    then record {
      included = f.included ++ current ∷ [];
      spent = f.spent + estimate_claim_tokens current;
      truncated = f.truncated;
    }
    else record f { truncated = true }

unfoldable pub contains : Ident → List Ident → Bool
contains i [] = false
contains i (j ∷ js) = bytes_eq i.text j.text || contains i js

abbrev pub wanted : Option (List Predicate) → Predicate → Bool
wanted none p = true
wanted (some ps) p = contains p ps

-- The versions from the front with one predicate, and those behind them.
unfoldable pub run : Predicate → List Claim → List Claim
run p [] = []
run p (c ∷ cs) = if bytes_eq c.predicate.text p.text then c ∷ run p cs else []

unfoldable pub behind_run : Predicate → List Claim → List Claim
behind_run p [] = []
behind_run p (c ∷ cs) =
    let rest = behind_run p cs in if bytes_eq c.predicate.text p.text then rest else c ∷ cs

abbrev pub offer_option : ℕ → Fill → Option Claim → Fill
offer_option token_budget f none = f
offer_option token_budget f (some current) = offer token_budget f current

-- The loop over the groups of one subject. Each group has a version at least, so the number of
-- versions is enough fuel.
unfoldable pub groups_loop : RecallQuery → ℕ → ℕ → List Claim → Fill → Fill
groups_loop query token_budget zero versions f = f
groups_loop query token_budget (suc fuel) [] f = f
groups_loop query token_budget (suc fuel) (c ∷ cs) f =
    groups_loop query token_budget fuel (behind_run c.predicate cs) (
      if wanted query.predicates c.predicate
      then offer_option token_budget f (resolve_as_of (c ∷ run c.predicate cs) query.as_of)
      else f)

unfoldable pub subjects_loop :
    (Subject → Outcome (List Claim))
    → RecallQuery
    → ℕ
    → List Subject
    → List Subject
    → Fill
    → Outcome Fill
subjects_loop subject_versions query token_budget visited [] f = ok f
subjects_loop subject_versions query token_budget visited (s ∷ ss) f =
    let skipped = subjects_loop subject_versions query token_budget visited ss f in
    if contains s visited then skipped else (do
      versions ← subject_versions s
      subjects_loop subject_versions query token_budget (visited ++ s ∷ []) ss
          (groups_loop query token_budget (length versions) versions f))

unfoldable pub recall : (Subject → Outcome (List Claim)) → RecallQuery → ℕ → Outcome RecallSet
recall subject_versions query token_budget = do
  f ←
      subjects_loop subject_versions query token_budget [] query.subjects
        (record { included = []; spent = 0; truncated = false })
  ok (record {
    digest = digest f.included;
    token_estimate = f.spent;
    truncated = f.truncated;
    claims = f.included;
  })
