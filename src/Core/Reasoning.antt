-- ===== src/Core/Reasoning.antt =====
-- crates/vyrm-core/src/reasoning.rs: the contract of a reasoning run, an append-only chain of events.
-- `str::trim().is_empty()` is the parameter `is_blank`. An error is its text, as far as it is fixed.
pub mod Run
pub mod Chain
pub mod Replay
pub mod Tests
use vyrm.Prelude.{
  ℕ, suc, ◌+◌, ◌≡◌, Bool, true, false, not, ◌&&◌, ◌||◌, List, [], ◌∷◌, ◌++◌, Option, none, some,
  Result, ok, err, ◌>>=◌, ◌>>◌, fail_if, if◌then◌else◌, ltb, leb, ◌==◌, all, length, last?, codes,
  String,
}
use vyrm.Core.Error.{Bytes}
use vyrm.Core.Digest.{sha256_hex}
use vyrm.Core.Encoding.{u64_bytes, text}

pub record Evidence : Type 0 where
  pub source : Bytes
  pub digest : Bytes
  pub summary : Bytes

pub data CheckStatus : Type 0 where
  passed failed : CheckStatus

pub record Check : Type 0 where
  pub name : Bytes
  pub status : CheckStatus
  pub evidence : List Evidence

pub data DecisionKind : Type 0 where
  continue verify stop : DecisionKind

-- `unsuccessful` is `RunOutcome::Failed`.
pub data RunOutcome : Type 0 where
  succeeded unsuccessful blocked : RunOutcome

pub data ReasoningPayload : Type 0 where
  goal : Bytes → List Bytes → ReasoningPayload
  plan : Bytes → List Bytes → ReasoningPayload
  attempt : Bytes → List Bytes → ReasoningPayload
  observation : Bytes → List Evidence → ReasoningPayload
  decision : DecisionKind → Bytes → ReasoningPayload
  verification : List Check → ReasoningPayload
  outcome : RunOutcome → Bytes → ReasoningPayload

pub record ReasoningEvent : Type 0 where
  pub run_id : Bytes
  pub ordinal : ℕ
  pub at : ℕ
  pub actor : Bytes
  pub payload : ReasoningPayload
  pub previous_digest : Option Bytes
  pub digest : Bytes

pub data ReasoningState : Type 0 where
  empty needs_plan needs_attempt needs_observation needs_decision needs_verification
        needs_post_verification_decision needs_outcome complete :
      ReasoningState

pub record ReasoningRun : Type 0 where
  pub id : Bytes
  pub events : List ReasoningEvent
  pub state : ReasoningState
  pub last_verification_passed : Option Bool

-- `Result<T, ContractError>`
abbrev pub Contract {ℓ} : Type ℓ → Type ℓ
Contract A = Result A String

abbrev pub is_passed : Check → Bool
is_passed c = elim c.status [ passed ↦ true | failed ↦ false ]

abbrev pub all_passed : List Check → Bool
all_passed checks = all is_passed checks

abbrev after_outcome : Option Bool → RunOutcome → Contract ReasoningState
after_outcome (some true) o = ok complete
after_outcome (some false) unsuccessful = ok complete
after_outcome (some false) blocked = ok complete
after_outcome (some false) succeeded = err "outcome contradicts verification evidence"
after_outcome none o = err "outcome contradicts verification evidence"

unfoldable pub transition :
    ReasoningState → Option Bool → ReasoningPayload → Contract ReasoningState
transition empty v (goal s a) = ok needs_plan
transition needs_plan v (plan h s) = ok needs_attempt
transition needs_attempt v (attempt s a) = ok needs_observation
transition needs_observation v (observation s e) = ok needs_decision
transition needs_decision v (decision continue r) = ok needs_attempt
transition needs_decision v (decision verify r) = ok needs_verification
transition needs_decision v (decision stop r) = ok needs_verification
transition needs_verification v (verification checks) =
    if all_passed checks then ok needs_outcome else ok needs_post_verification_decision
transition needs_post_verification_decision v (decision continue r) = ok needs_attempt
transition needs_post_verification_decision v (decision stop r) = ok needs_outcome
transition needs_outcome v (outcome o s) = after_outcome v o
transition _ v _ = err "payload is invalid in this state"

-- `u8::is_ascii_hexdigit`
abbrev is_hex : ℕ → Bool
is_hex b = leb 48 b && leb b 57 || leb 65 b && leb b 70 || leb 97 b && leb b 102

module _ (is_blank : Bytes → Bool) where
  unfoldable pub validate_text : String → Bytes → Contract (Unit {0})
  validate_text field value = fail_if (is_blank value) field

  unfoldable pub validate_texts : String → List Bytes → Contract (Unit {0})
  validate_texts field [] = ok tt
  validate_texts field (value ∷ values) = do validate_text field value; validate_texts field values

  unfoldable pub validate_evidence : Evidence → Contract (Unit {0})
  validate_evidence e = do
    validate_text "evidence.source" e.source
    validate_text "evidence.summary" e.summary
    fail_if (not (length e.digest == 64) || not (all is_hex e.digest))
        "evidence.digest must be a SHA-256 hex digest"

  unfoldable pub validate_all_evidence : List Evidence → Contract (Unit {0})
  validate_all_evidence [] = ok tt
  validate_all_evidence (e ∷ es) = do validate_evidence e; validate_all_evidence es

  unfoldable pub validate_checks : List Check → Contract (Unit {0})
  validate_checks [] = ok tt
  validate_checks (c ∷ cs) = do
    validate_text "verification.check.name" c.name
    fail_if (length c.evidence == 0) "every verification check must cite content-addressed evidence"
    validate_all_evidence c.evidence
    validate_checks cs

  unfoldable pub validate_payload : ReasoningPayload → Contract (Unit {0})
  validate_payload (goal statement acceptance) = do
    validate_text "goal.statement" statement
    fail_if (length acceptance == 0) "goal.acceptance must not be empty"
    validate_texts "goal.acceptance" acceptance
  validate_payload (plan hypothesis steps) = do
    validate_text "plan.hypothesis" hypothesis
    fail_if (length steps == 0) "plan.steps must not be empty"
    validate_texts "plan.steps" steps
  validate_payload (attempt summary actions) = do
    validate_text "attempt.summary" summary
    validate_texts "attempt.actions" actions
  validate_payload (observation summary evidence) = do
    validate_text "observation.summary" summary
    fail_if (length evidence == 0) "observation.evidence must not be empty"
    validate_all_evidence evidence
  validate_payload (decision d rationale) = validate_text "decision.rationale" rationale
  validate_payload (verification checks) = do
    fail_if (length checks == 0) "verification.checks must not be empty"
    validate_checks checks
  validate_payload (outcome o summary) = validate_text "outcome.summary" summary

abbrev pub strings_loop : List Bytes → Bytes
strings_loop [] = []
strings_loop (value ∷ values) = text value ++ strings_loop values

unfoldable pub strings : List Bytes → Bytes
strings values = u64_bytes (length values) ++ strings_loop values

abbrev pub evidence_loop : List Evidence → Bytes
evidence_loop [] = []
evidence_loop (e ∷ es) = text e.source ++ (text e.digest ++ (text e.summary ++ evidence_loop es))

unfoldable pub evidence_bytes : List Evidence → Bytes
evidence_bytes values = u64_bytes (length values) ++ evidence_loop values

abbrev pub checks_loop : List Check → Bytes
checks_loop [] = []
checks_loop (c ∷ cs) =
    text c.name
    ++ (elim c.status [ passed ↦ 0 | failed ↦ 1 ] ∷ (evidence_bytes c.evidence ++ checks_loop cs))

abbrev decision_code : DecisionKind → ℕ
decision_code continue = 0
decision_code verify = 1
decision_code stop = 2

abbrev outcome_code : RunOutcome → ℕ
outcome_code succeeded = 0
outcome_code unsuccessful = 1
outcome_code blocked = 2

unfoldable pub payload_bytes : ReasoningPayload → Bytes
payload_bytes (goal statement acceptance) = 0 ∷ (text statement ++ strings acceptance)
payload_bytes (plan hypothesis steps) = 1 ∷ (text hypothesis ++ strings steps)
payload_bytes (attempt summary actions) = 2 ∷ (text summary ++ strings actions)
payload_bytes (observation summary values) = 3 ∷ (text summary ++ evidence_bytes values)
payload_bytes (decision d rationale) = 4 ∷ decision_code d ∷ text rationale
payload_bytes (verification checks) = 5 ∷ (u64_bytes (length checks) ++ checks_loop checks)
payload_bytes (outcome o summary) = 6 ∷ outcome_code o ∷ text summary

abbrev previous_bytes : Option Bytes → Bytes
previous_bytes none = 0 ∷ []
previous_bytes (some previous) = 1 ∷ text previous

unfoldable pub event_digest : Bytes → ℕ → ℕ → Bytes → ReasoningPayload → Option Bytes → Bytes
event_digest run_id ordinal at actor payload previous = sha256_hex (
    codes "vyrm-reasoning-event-v1"
    ++ (0 ∷ [])
    ++ (text run_id
        ++ (u64_bytes ordinal
            ++ (u64_bytes at
                ++ (text actor ++ (payload_bytes payload ++ previous_bytes previous))))))
