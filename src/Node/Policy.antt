-- ===== src/Node/Policy.antt =====
-- crates/vyrm-node/src/policy.rs: whether a tool call may run, by the state of the reasoning run. A text is
-- the list of its characters. What the JSON accessors find in the call is its record.
pub mod Workflow
pub mod Tests
use vyrm.Prelude.{
  ℕ, Bool, true, false, not, ◌&&◌, ◌||◌, ◌==◌, List, [], ◌∷◌, ◌++◌, Option, none, some,
  if◌then◌else◌, leb, bytes_eq, codes,
}
use vyrm.Core.Error.{Bytes}
use vyrm.Core.Reasoning.{
  ReasoningState, empty, needs_plan, needs_attempt, needs_observation, needs_decision,
  needs_verification, needs_post_verification_decision, needs_outcome, complete, ReasoningRun,
}

-- `/tool_name` and `/tool_input/command`, where each is there and a string.
pub record ToolCall : Type 0 where
  pub tool_name : Option Bytes
  pub command : Option Bytes

pub record ContractDifferential : Type 0 where
  pub run_id : Option Bytes
  pub state : Option ReasoningState
  pub actual : Bytes
  pub expected : List Bytes
  pub differences : List Bytes

pub data ToolPolicy : Type 0 where
  read_only control_plane : ToolPolicy
  allow deny : ContractDifferential → ToolPolicy

abbrev one_of : List Bytes → Bytes → Bool
one_of [] s = false
one_of (t ∷ ts) s = bytes_eq s t || one_of ts s

abbrev any : (ℕ → Bool) → Bytes → Bool
any p [] = false
any p (c ∷ cs) = p c || any p cs

-- `\n \r ; | & > < ` $ ( )`
abbrev is_shell : ℕ → Bool
is_shell c =
    c == 10
    || c == 13
    || c == 59
    || c == 124
    || c == 38
    || c == 62
    || c == 60
    || c == 96
    || c == 36
    || c == 40
    || c == 41

-- Unicode's White_Space, by which `split_whitespace` splits.
abbrev is_whitespace : ℕ → Bool
is_whitespace c =
    (leb 9 c && leb c 13)
    || c == 32
    || c == 133
    || c == 160
    || c == 5760
    || (leb 8192 c && leb c 8202)
    || c == 8232
    || c == 8233
    || c == 8239
    || c == 8287
    || c == 12288

abbrev push_word : Bytes → List Bytes → List Bytes
push_word [] ws = ws
push_word (c ∷ w) ws = (c ∷ w) ∷ ws

-- The characters in front of the first white space, and the words behind it.
unfoldable pub split : Bytes → Bytes × List Bytes
split [] = ([], [])
split (c ∷ cs) =
    let (w, ws) = split cs in if is_whitespace c then ([], push_word w ws) else (c ∷ w, ws)

unfoldable pub split_whitespace : Bytes → List Bytes
split_whitespace s = let (w, ws) = split s in push_word w ws

-- `rsplit('/').next()`
unfoldable pub after_slash : Bytes → Bytes
after_slash [] = []
after_slash (c ∷ cs) =
    let rest = after_slash cs in
    if any (λ x. x == 47) cs then rest else (if c == 47 then cs else c ∷ cs)

abbrev is_control : List Bytes → Bool
is_control [] = false
is_control (executable ∷ []) = false
is_control (executable ∷ subcommand ∷ ws) =
    bytes_eq (after_slash executable) (codes "vyrm")
    && one_of
        (codes "reasoning" ∷ codes "reset-projection" ∷ codes "reset-routing" ∷ codes "ground" ∷ [])
        subcommand

unfoldable pub is_control_command : Bytes → Bool
is_control_command command =
    if any is_shell command then false else is_control (split_whitespace command)

abbrev starts_line : Bytes → Bool
starts_line [] = false
starts_line (c ∷ cs) = c == 10

-- `lines().next().unwrap_or_default()`
unfoldable pub first_line : Bytes → Bytes
first_line [] = []
first_line (c ∷ cs) =
    let rest = first_line cs in if c == 10 || (c == 13 && starts_line cs) then [] else c ∷ rest

abbrev pub tool_of : ToolCall → Bytes
tool_of call = elim call.tool_name [ none ↦ codes "unknown" | some tool ↦ tool ]

abbrev pub is_bash : Bytes → Bool
is_bash tool = bytes_eq tool (codes "Bash")

abbrev pub is_governed : Bytes → Bool
is_governed tool =
    one_of (codes "Edit" ∷ codes "Write" ∷ codes "NotebookEdit" ∷ codes "Bash" ∷ []) tool

abbrev pub is_control_call : ToolCall → Bool
is_control_call call = elim call.command [
  | none ↦ false
  | some command ↦ is_bash (tool_of call) && is_control_command command
]

abbrev shell_line : Option Bytes → Bytes
shell_line none = first_line (codes "unknown command")
shell_line (some command) = first_line command

abbrev actual_of : ToolCall → Bytes
actual_of call =
    if is_bash (tool_of call)
    then codes "Bash(" ++ (shell_line call.command ++ codes ")")
    else tool_of call

-- `{state:?}`
abbrev state_name : ReasoningState → Bytes
state_name empty = codes "Empty"
state_name needs_plan = codes "NeedsPlan"
state_name needs_attempt = codes "NeedsAttempt"
state_name needs_observation = codes "NeedsObservation"
state_name needs_decision = codes "NeedsDecision"
state_name needs_verification = codes "NeedsVerification"
state_name needs_post_verification_decision = codes "NeedsPostVerificationDecision"
state_name needs_outcome = codes "NeedsOutcome"
state_name complete = codes "Complete"

abbrev expected_step : ReasoningState → Bytes
expected_step empty = codes "record a goal"
expected_step needs_plan = codes "record the hypothesis and plan"
expected_step needs_attempt = codes "record an attempt before invoking a tool"
expected_step needs_observation = codes "record an observation after the attempt"
expected_step needs_decision = codes "record a continue/verify/stop decision"
expected_step needs_verification = codes "run verification through Bash"
expected_step needs_post_verification_decision =
    codes "decide whether failed verification requires another attempt or stopping"
expected_step needs_outcome = codes "record the outcome"
expected_step complete = codes "start a new reasoning run"

abbrev refuse : ReasoningState → ContractDifferential → ToolPolicy
refuse s d = deny (record d {
  expected = expected_step s ∷ [];
  differences = (codes "project mutation is not valid while the run is " ++ state_name s) ∷ [];
})

abbrev permit : Bytes → ContractDifferential → ToolPolicy
permit expected d = allow (record d { expected = expected ∷ [] })

unfoldable pub judge : Option ReasoningState → Bool → ContractDifferential → ToolPolicy
judge none bash d = deny (record d {
  expected = codes "an active reasoning run with goal and plan" ∷ [];
  differences = codes "no active run; record goal → plan → attempt before project mutation" ∷ [];
})
judge (some needs_observation) bash d =
    permit
      (codes "tool execution for the recorded attempt, followed by an observation with evidence") d
judge (some needs_verification) bash d =
    if bash
    then permit (codes "a verification command followed by typed verification checks") d
    else refuse needs_verification d
judge (some empty) bash d = refuse empty d
judge (some needs_plan) bash d = refuse needs_plan d
judge (some needs_attempt) bash d = refuse needs_attempt d
judge (some needs_decision) bash d = refuse needs_decision d
judge (some needs_post_verification_decision) bash d = refuse needs_post_verification_decision d
judge (some needs_outcome) bash d = refuse needs_outcome d
judge (some complete) bash d = refuse complete d

abbrev id_of : Option ReasoningRun → Option Bytes
id_of none = none
id_of (some run) = some run.id

abbrev state_of : Option ReasoningRun → Option ReasoningState
state_of none = none
state_of (some run) = some run.state

unfoldable pub evaluate_tool : Option ReasoningRun → ToolCall → ToolPolicy
evaluate_tool run call =
    if not (is_governed (tool_of call))
    then read_only
    else if is_control_call call
    then control_plane
    else judge (state_of run) (is_bash (tool_of call)) (record {
      run_id = id_of run;
      state = state_of run;
      actual = actual_of call;
      expected = [];
      differences = [];
    })
