-- ===== src/Core/Reasoning/Tests.antt =====
-- reasoning.rs: the theorems at the first event of a run.
use vyrm.Prelude.{◌≡◌, ◌≢◌, arith, refl, Bool, true, false, [], ◌∷◌, ◌++◌, none, some, ok}
use vyrm.Core.Error.{Bytes}
use vyrm.Core.Reasoning.{
  Evidence, Check, passed, succeeded, verification, outcome, ReasoningPayload, goal, ReasoningEvent,
  ReasoningRun, empty, needs_plan, needs_outcome, complete, transition, validate_text,
  validate_texts, validate_payload,
}
use vyrm.Core.Reasoning.Run.{event_of, empty_run, append}
use vyrm.Core.Reasoning.Chain.{IsRun, Completes, last_checks, append-IsRun}
use vyrm.Core.Reasoning.Replay.{Built, begun, appended, replay, replay-Built, replay-IsRun}

abbrev is_nil : Bytes → Bool
is_nil [] = true
is_nil (b ∷ bs) = false

abbrev before : ReasoningRun
before = record { id = 1 ∷ []; events = []; state = empty; last_verification_passed = none }

abbrev first_goal : ReasoningPayload
first_goal = goal (2 ∷ []) ((3 ∷ []) ∷ [])

abbrev first_event : ReasoningEvent
first_event = event_of before 5 (4 ∷ []) first_goal

abbrev after : ReasoningRun
after = record {
  id = 1 ∷ [];
  events = first_event ∷ [];
  state = needs_plan;
  last_verification_passed = none;
}

append-first : append is_nil before 5 (4 ∷ []) first_goal ≡ ok (after, first_event)
unfolding append transition validate_payload validate_text validate_texts
append-first = refl

-- A run whose one check passed, and its outcome.
abbrev evidence : Evidence
evidence = record { source = 5 ∷ []; digest = 6 ∷ []; summary = 7 ∷ [] }

abbrev check : Check
check = record { name = 8 ∷ []; status = passed; evidence = evidence ∷ [] }

abbrev checked : ReasoningEvent
checked = event_of before 5 (4 ∷ []) (verification (check ∷ []))

abbrev verified_run : ReasoningRun
verified_run = record {
  id = 1 ∷ [];
  events = checked ∷ [];
  state = needs_outcome;
  last_verification_passed = some true;
}

abbrev success : ReasoningPayload
success = outcome succeeded (9 ∷ [])

abbrev ended_run : ReasoningRun
ended_run = record {
  id = 1 ∷ [];
  events = checked ∷ event_of verified_run 6 (4 ∷ []) success ∷ [];
  state = complete;
  last_verification_passed = some true;
}

verified_run-IsRun : IsRun verified_run
verified_run-IsRun = record {
  chain = (
    record {
      run_id = refl;
      ordinal = refl;
      previous = refl;
      later = λ b e. absurd (ground (arith, e));
      digest = refl;
    },
    tt,
  );
  verified = (refl, tt);
}

append-success :
    append is_nil verified_run 6 (4 ∷ []) success
    ≡ ok (ended_run, event_of verified_run 6 (4 ∷ []) success)
unfolding append transition validate_payload validate_text validate_texts
append-success = refl

append-IsRun_example :
    IsRun ended_run
    × (ended_run.events ≡ (checked ∷ []) ++ event_of verified_run 6 (4 ∷ []) success ∷ [])
    × (ended_run.state ≡ complete
        → (verified_run.state ≡ needs_outcome) × Completes (last_checks (checked ∷ [])) success)
append-IsRun_example =
    append-IsRun is_nil verified_run ended_run 6 (4 ∷ []) success
      (event_of verified_run 6 (4 ∷ []) success) verified_run-IsRun append-success

before_empty : empty_run is_nil (1 ∷ []) ≡ ok before
unfolding empty_run validate_text
before_empty = refl

after-Built : Built is_nil after
after-Built =
    appended before after 5 (4 ∷ []) first_goal first_event (begun (1 ∷ []) before before_empty)
      append-first

after_events : after.events ≢ []
after_events e = ground (arith, e)

replay-Built_example : replay is_nil (first_event ∷ []) ≡ ok after
replay-Built_example = replay-Built is_nil after after-Built after_events

replay-IsRun_example : IsRun after × (after.events ≡ first_event ∷ [])
replay-IsRun_example = replay-IsRun is_nil (first_event ∷ []) after replay-Built_example
