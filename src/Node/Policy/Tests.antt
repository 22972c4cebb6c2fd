-- ===== src/Node/Policy/Tests.antt =====
-- policy.rs: the rule for tools at a run that has recorded an attempt.
use vyrm.Prelude.{
  ◌≡◌, refl, Bool, true, false, ◌&&◌, ◌||◌, [], ◌∷◌, ◌++◌, none, some, ok, codes, String, bytes_eq,
}
use vyrm.Core.Error.{Bytes}
use vyrm.Core.Reasoning.{
  ReasoningState, ReasoningPayload, goal, plan, attempt, ReasoningRun, empty, needs_plan,
  needs_attempt, needs_observation, transition, validate_text, validate_texts, validate_payload,
}
use vyrm.Core.Reasoning.Run.{event_of, empty_run, append}
use vyrm.Core.Reasoning.Replay.{Built, begun, appended}
use vyrm.Node.Policy.{
  ToolCall, tool_of, is_bash, is_governed, read_only, evaluate_tool, is_control_command, split,
  split_whitespace, after_slash, first_line,
}
use vyrm.Node.Policy.Workflow.{is_allowed, is_attempted, is_unverified, is_allowed-evaluate_tool}

abbrev is_nil : Bytes → Bool
is_nil [] = true
is_nil (b ∷ bs) = false

abbrev bash : String → ToolCall
bash command = record { tool_name = some (codes "Bash"); command = some (codes command) }

direct : is_control_command (codes "/usr/bin/vyrm  reasoning record --run r") ≡ true
unfolding is_control_command split_whitespace split after_slash bytes_eq
direct = refl

smuggled : is_control_command (codes "vyrm reasoning show && rm -f important") ≡ false
unfolding is_control_command
smuggled = refl

elsewhere : is_control_command (codes "vyrm query") ≡ false
unfolding is_control_command split_whitespace split after_slash bytes_eq
elsewhere = refl

two_lines : first_line (codes "cargo test\nrm") ≡ codes "cargo test"
unfolding first_line
two_lines = refl

reads : evaluate_tool none (record { tool_name = none; command = none }) ≡ read_only
unfolding evaluate_tool bytes_eq
reads = refl

abbrev run_of : ReasoningRun → ReasoningPayload → ReasoningState → ReasoningRun
run_of run payload state = record {
  id = run.id;
  events = run.events ++ event_of run 5 (codes "agent") payload ∷ [];
  state = state;
  last_verification_passed = none;
}

abbrev new_run : ReasoningRun
new_run = record { id = codes "r"; events = []; state = empty; last_verification_passed = none }

abbrev a_goal : ReasoningPayload
a_goal = goal (codes "change") (codes "green" ∷ [])

abbrev a_plan : ReasoningPayload
a_plan = plan (codes "x") (codes "edit" ∷ [])

abbrev an_attempt : ReasoningPayload
an_attempt = attempt (codes "edit") []

abbrev with_goal : ReasoningRun
with_goal = run_of new_run a_goal needs_plan

abbrev with_plan : ReasoningRun
with_plan = run_of with_goal a_plan needs_attempt

abbrev with_attempt : ReasoningRun
with_attempt = run_of with_plan an_attempt needs_observation

begins : empty_run is_nil (codes "r") ≡ ok new_run
unfolding empty_run validate_text
begins = refl

append-goal :
    append is_nil new_run 5 (codes "agent") a_goal
    ≡ ok (with_goal, event_of new_run 5 (codes "agent") a_goal)
unfolding append transition validate_payload validate_text validate_texts
append-goal = refl

append-plan :
    append is_nil with_goal 5 (codes "agent") a_plan
    ≡ ok (with_plan, event_of with_goal 5 (codes "agent") a_plan)
unfolding append transition validate_payload validate_text validate_texts
append-plan = refl

append-attempt :
    append is_nil with_plan 5 (codes "agent") an_attempt
    ≡ ok (with_attempt, event_of with_plan 5 (codes "agent") an_attempt)
unfolding append transition validate_payload validate_text validate_texts
append-attempt = refl

with_attempt-Built : Built is_nil with_attempt
with_attempt-Built =
    appended with_plan with_attempt 5 (codes "agent") an_attempt _
      (appended with_goal with_plan 5 (codes "agent") a_plan _
        (appended new_run with_goal 5 (codes "agent") a_goal _ (begun (codes "r") new_run begins)
          append-goal)
        append-plan)
      append-attempt

abbrev edit : ToolCall
edit = record { tool_name = some (codes "Edit"); command = none }

edit_governed : is_governed (tool_of edit) ≡ true
unfolding bytes_eq
edit_governed = refl

is_allowed-evaluate_tool_example : is_allowed (evaluate_tool (some with_attempt) edit) ≡ (
    is_attempted with_attempt.events
    || (is_bash (tool_of edit) && is_unverified with_attempt.events))
is_allowed-evaluate_tool_example =
    is_allowed-evaluate_tool is_nil with_attempt edit with_attempt-Built edit_governed refl
