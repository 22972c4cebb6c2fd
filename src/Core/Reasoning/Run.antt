-- ===== src/Core/Reasoning/Run.antt =====
-- reasoning.rs: a run, from its creation through its appends.
use vyrm.Prelude.{
  ℕ, ◌+◌, Bool, false, ◌||◌, [], ◌∷◌, ◌++◌, Option, none, some, ok, ◌>>=◌, ◌>>◌, fail_if, ltb, ◌==◌,
  length, last?,
}
use vyrm.Core.Error.{Bytes}
use vyrm.Core.Reasoning.{
  Contract, ReasoningPayload, goal, plan, attempt, observation, decision, verification, outcome,
  ReasoningEvent, ReasoningRun, empty, all_passed, transition, validate_text, validate_payload,
  event_digest,
}

abbrev pub has_nul : Bytes → Bool
has_nul [] = false
has_nul (b ∷ bs) = b == 0 || has_nul bs

abbrev pub digest_of_last : Option ReasoningEvent → Option Bytes
digest_of_last none = none
digest_of_last (some e) = some e.digest

abbrev is_before : ℕ → Option ReasoningEvent → Bool
is_before at none = false
is_before at (some e) = ltb at e.at

-- The verdict that a payload leaves behind.
abbrev pub verdict : Option Bool → ReasoningPayload → Option Bool
verdict v (verification checks) = some (all_passed checks)
verdict v (goal a b) = v
verdict v (plan a b) = v
verdict v (attempt a b) = v
verdict v (observation a b) = v
verdict v (decision a b) = v
verdict v (outcome a b) = v

-- The event that `append` makes.
abbrev pub event_of : ReasoningRun → ℕ → Bytes → ReasoningPayload → ReasoningEvent
event_of run at actor payload = record {
  run_id = run.id;
  ordinal = length run.events + 1;
  at = at;
  actor = actor;
  payload = payload;
  previous_digest = digest_of_last (last? run.events);
  digest =
      event_digest run.id (length run.events + 1) at actor payload
        (digest_of_last (last? run.events));
}

module _ (is_blank : Bytes → Bool) where
  -- `ReasoningRun::empty`
  unfoldable pub empty_run : Bytes → Contract ReasoningRun
  empty_run id = do
    validate_text is_blank "run_id" id
    fail_if (has_nul id) "run_id must not contain NUL"
    ok (record { id = id; events = []; state = empty; last_verification_passed = none })

  -- The run after the append, and the event that it returns.
  unfoldable pub append :
      ReasoningRun → ℕ → Bytes → ReasoningPayload → Contract (ReasoningRun × ReasoningEvent)
  append run at actor payload = do
    validate_text is_blank "actor" actor
    fail_if (is_before at (last? run.events)) "reasoning event time must be monotonic"
    validate_payload is_blank payload
    next ← transition run.state run.last_verification_passed payload
    ok (
      record {
        id = run.id;
        events = run.events ++ event_of run at actor payload ∷ [];
        state = next;
        last_verification_passed = verdict run.last_verification_passed payload;
      },
      event_of run at actor payload,
    )
