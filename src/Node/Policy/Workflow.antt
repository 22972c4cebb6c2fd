-- ===== src/Node/Policy/Workflow.antt =====
-- policy.rs: the rule for tools, read off the events of a run.
use vyrm.Prelude.{
  ◌≡◌, refl, sym, ap, ap₂, ◌∙◌, Bool, true, false, ◌&&◌, ◌||◌, List, [], ◌∷◌, ◌++◌, Option, none,
  some, ok, last?, arith,
}
use vyrm.Core.Error.{Bytes}
use vyrm.Core.Reasoning.{
  ReasoningState, needs_observation, needs_decision, needs_verification, ReasoningRun,
  ReasoningEvent, ReasoningPayload, attempt, observation, decision, verify, stop, transition,
}
use vyrm.Core.Reasoning.Run.{event_of}
use vyrm.Core.Reasoning.Chain.{append-result}
use vyrm.Core.Reasoning.Replay.{Built, begun, appended, empty_run-id}
use vyrm.Node.Policy.{
  ToolCall, ContractDifferential, ToolPolicy, allow, tool_of, is_bash, is_governed, is_control_call,
  judge, evaluate_tool,
}

abbrev pub is_allowed : ToolPolicy → Bool
is_allowed (allow d) = true
is_allowed _ = false

abbrev is_attempt : ReasoningPayload → Bool
is_attempt (attempt s a) = true
is_attempt _ = false

abbrev is_observation : ReasoningPayload → Bool
is_observation (observation s e) = true
is_observation _ = false

-- A decision against another attempt.
abbrev ends_attempts : ReasoningPayload → Bool
ends_attempts (decision verify r) = true
ends_attempts (decision stop r) = true
ends_attempts _ = false

abbrev holds : (ReasoningPayload → Bool) → Option ReasoningEvent → Bool
holds p none = false
holds p (some e) = p e.payload

-- The run ends in an attempt.
abbrev pub is_attempted : List ReasoningEvent → Bool
is_attempted es = holds is_attempt (last? es)

-- The run ends in an observation and a decision against another attempt.
abbrev pub is_unverified : List ReasoningEvent → Bool
is_unverified [] = false
is_unverified (e ∷ []) = false
is_unverified (d ∷ e ∷ []) = is_observation d.payload && ends_attempts e.payload
is_unverified (c ∷ d ∷ e ∷ es) = is_unverified (d ∷ e ∷ es)

last?-snoc : (es : List ReasoningEvent) (e : ReasoningEvent) → last? (es ++ e ∷ []) ≡ some e
last?-snoc [] e = refl
last?-snoc (d ∷ []) e = refl
last?-snoc (c ∷ d ∷ es) e = last?-snoc (d ∷ es) e

is_unverified-snoc :
    (es : List ReasoningEvent) (e : ReasoningEvent)
    → is_unverified (es ++ e ∷ []) ≡ (holds is_observation (last? es) && ends_attempts e.payload)
is_unverified-snoc [] e = refl
is_unverified-snoc (d ∷ []) e = refl
is_unverified-snoc (c ∷ d ∷ []) e = refl
is_unverified-snoc (b ∷ c ∷ d ∷ es) e = is_unverified-snoc (c ∷ d ∷ es) e

abbrev awaits_observation : ReasoningState → Bool
awaits_observation needs_observation = true
awaits_observation _ = false

abbrev awaits_decision : ReasoningState → Bool
awaits_decision needs_decision = true
awaits_decision _ = false

abbrev awaits_checks : ReasoningState → Bool
awaits_checks needs_verification = true
awaits_checks _ = false

-- Each of the three states by the payload that leads to it.
transition_enters :
    (s next : ReasoningState) (v : Option Bool) (p : ReasoningPayload)
    → transition s v p ≡ ok next
    → (awaits_observation next ≡ is_attempt p)
      × (awaits_decision next ≡ is_observation p)
      × (awaits_checks next ≡ (awaits_decision s && ends_attempts p))
unfolding transition
transition_enters s next v p h = (ground (arith, h), ground (arith, h), ground (arith, h))

record IsInStep (run : ReasoningRun) : Type 0 where
  attempted : awaits_observation run.state ≡ is_attempted run.events
  observed : awaits_decision run.state ≡ holds is_observation (last? run.events)
  unverified : awaits_checks run.state ≡ is_unverified run.events

module _ (is_blank : Bytes → Bool) where
  Built-IsInStep : (run : ReasoningRun) → Built is_blank run → IsInStep run
  Built-IsInStep run (begun id _ h) =
      let (_, events, state, _) = empty_run-id is_blank id run h in
      record {
        attempted = rw events (ap awaits_observation state);
        observed = rw events (ap awaits_decision state);
        unverified = rw events (ap awaits_checks state);
      }
  Built-IsInStep run' (appended run _ at actor payload e b h) =
      let before = Built-IsInStep run b in
      let (_, _, events, _, moved) = append-result is_blank run run' at actor payload e h in
      let (one, two, three) =
        transition_enters run.state run'.state run.last_verification_passed payload moved in
      let last =
        ap (λ es. last? es) events ∙ last?-snoc run.events (event_of run at actor payload) in
      record {
        attempted = one ∙ sym (ap (holds is_attempt) last);
        observed = two ∙ sym (ap (holds is_observation) last);
        unverified =
            three
            ∙ ap (λ x. x && ends_attempts payload) before.observed
            ∙ sym (
                ap is_unverified events
                ∙ is_unverified-snoc run.events (event_of run at actor payload));
      }

judge_allows :
    (s : ReasoningState) (bash : Bool) (d : ContractDifferential)
    → is_allowed (judge (some s) bash d) ≡ (awaits_observation s || (bash && awaits_checks s))
unfolding judge
judge_allows s true d = ground arith
judge_allows s false d = ground arith

module _ (is_blank : Bytes → Bool) where
  -- For a run that its creation and its appends have made, and a call of one of the governed tools that is no call of the control plane, the call is allowed exactly where the run's last event is an attempt, or where the tool is Bash and the run's last two events are an observation and a decision to verify or to stop.
  pub is_allowed-evaluate_tool :
      (run : ReasoningRun) (call : ToolCall)
      → Built is_blank run
      → is_governed (tool_of call) ≡ true
      → is_control_call call ≡ false
      → is_allowed (evaluate_tool (some run) call)
        ≡ (is_attempted run.events || (is_bash (tool_of call) && is_unverified run.events))
  unfolding evaluate_tool
  is_allowed-evaluate_tool run call built governed other =
      let step = Built-IsInStep is_blank run built in
      let verdict = judge_allows run.state (is_bash (tool_of call)) in
      rw governed (
        rw other (
          verdict _
          ∙ ap₂ (λ a b. a || (is_bash (tool_of call) && b)) step.attempted step.unverified))
