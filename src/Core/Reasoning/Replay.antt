-- ===== src/Core/Reasoning/Replay.antt =====
-- reasoning.rs, `ReasoningRun::replay`: a run from its stored events.
use mathlib.Core.Path.{subst}
use mathlib.Core.List.{append_assoc}
use native.Mathlib.Decide.{ℕ_discrete}
use vyrm.Prelude.{
  ℕ, ◌≡◌, ◌≢◌, refl, sym, ap, ◌∙◌, Bool, true, false, not, List, [], ◌∷◌, ◌++◌, none, ok, err,
  ◌>>=◌, ◌>>◌, fail_if, arith, Bool-cases, Result-cases, inl, inr,
}
use vyrm.Core.Error.{Bytes}
use vyrm.Core.Reasoning.{
  Contract, Evidence, Check, CheckStatus, DecisionKind, RunOutcome, ReasoningPayload,
  ReasoningEvent, ReasoningRun, validate_text, empty,
}
use vyrm.Core.Reasoning.Run.{has_nul, event_of, empty_run, append}
use vyrm.Core.Reasoning.Chain.{IsRun, IsChain, append-result, append-IsRun}

-- The derived `PartialEq` of an event.
CheckStatus-discrete : Discrete CheckStatus
CheckStatus-discrete = hlevel

DecisionKind-discrete : Discrete DecisionKind
DecisionKind-discrete = hlevel

RunOutcome-discrete : Discrete RunOutcome
RunOutcome-discrete = hlevel

Evidence-discrete : Discrete Evidence
Evidence-discrete = hlevel ℕ_discrete

Check-discrete : Discrete Check
Check-discrete = hlevel (ℕ_discrete, Evidence-discrete, CheckStatus-discrete)

ReasoningPayload-discrete : Discrete ReasoningPayload
ReasoningPayload-discrete =
    hlevel
      (ℕ_discrete, Evidence-discrete, Check-discrete, DecisionKind-discrete, RunOutcome-discrete)

pub ReasoningEvent-discrete : Discrete ReasoningEvent
ReasoningEvent-discrete = hlevel (ℕ_discrete, ReasoningPayload-discrete)

unfoldable pub event_eq : ReasoningEvent → ReasoningEvent → Bool
event_eq a b = elim (ReasoningEvent-discrete a b) [ yes p ↦ true | no q ↦ false ]

event_eq_refl : (e : ReasoningEvent) → event_eq e e ≡ true
unfolding event_eq
event_eq_refl e =
    elim (ReasoningEvent-discrete e e) as (λ d. (elim d [ yes p ↦ true | no q ↦ false ]) ≡ true) [
      | yes p ↦ refl
      | no q ↦ absurd (q refl)
    ]

event_eq_sound : (a b : ReasoningEvent) → event_eq a b ≡ true → a ≡ b
unfolding event_eq
event_eq_sound a b e =
    elim (ReasoningEvent-discrete a b)
        as (λ d. (elim d [ yes p ↦ true | no q ↦ false ]) ≡ true → a ≡ b) [
          | yes p ↦ λ t. p
          | no q ↦ λ t. absurd (ground (arith, t))
        ]
      e

append-empty : (es : List ReasoningEvent) → es ++ [] ≡ es
append-empty [] = refl
append-empty (e ∷ es) = ap (λ l. e ∷ l) (append-empty es)

module _ (is_blank : Bytes → Bool) where
  -- The loop of `replay`.
  unfoldable pub replay_loop : ReasoningRun → List ReasoningEvent → Contract ReasoningRun
  replay_loop run [] = ok run
  replay_loop run (stored ∷ events) = do
    (next, expected) ← append is_blank run stored.at stored.actor stored.payload
    fail_if (not (event_eq expected stored))
        "reasoning event failed hash-chain or ordinal verification"
    replay_loop next events

  unfoldable pub replay : List ReasoningEvent → Contract ReasoningRun
  replay [] = err "cannot replay an empty reasoning run"
  replay (first ∷ events) = do
    run ← empty_run is_blank first.run_id
    replay_loop run (first ∷ events)

  -- The runs that `empty` and `append` make.
  pub data Built : ReasoningRun → Type 0 where
    begun : (id : Bytes) (run : ReasoningRun) → empty_run is_blank id ≡ ok run → Built run
    appended :
        (run run' : ReasoningRun) (at : ℕ) (actor : Bytes) (payload : ReasoningPayload)
        (e : ReasoningEvent)
        → Built run
        → append is_blank run at actor payload ≡ ok (run', e)
        → Built run'

  replay_loop-one :
      (run run' : ReasoningRun) (at : ℕ) (actor : Bytes) (payload : ReasoningPayload)
      (e : ReasoningEvent)
      → append is_blank run at actor payload ≡ ok (run', e)
      → replay_loop run (event_of run at actor payload ∷ []) ≡ ok run'
  unfolding replay_loop
  replay_loop-one run run' at actor payload e h =
      let made = (append-result is_blank run run' at actor payload e h).0 in
      let fits : event_eq e (event_of run at actor payload) ≡ true =
        ap (λ (x : ReasoningEvent). event_eq x (event_of run at actor payload)) made
        ∙ event_eq_refl _ in
      ground (arith, h, fits)

  replay_loop-append :
      (run middle : ReasoningRun) (xs ys : List ReasoningEvent)
      → replay_loop run xs ≡ ok middle
      → replay_loop run (xs ++ ys) ≡ replay_loop middle ys
  unfolding replay_loop
  replay_loop-append run middle [] ys h =
      let is : run ≡ middle = ground (arith, h) in ap (λ r. replay_loop r ys) is
  replay_loop-append run middle (x ∷ xs) ys h =
      elim (Result-cases (append is_blank run x.at x.actor x.payload)) [
        | inl ((next, expected), done) ↦ elim (Bool-cases (event_eq expected x)) [
          | inl fits ↦
              let rest : replay_loop next xs ≡ ok middle = ground (arith, h, done, fits) in
              rw (done, fits) (replay_loop-append next middle xs ys rest)
          | inr differs ↦ absurd (ground (arith, h, done, differs))
        ]
        | inr (e, fails) ↦ absurd (ground (arith, h, fails))
      ]

  pub empty_run-id :
      (id : Bytes) (run : ReasoningRun)
      → empty_run is_blank id ≡ ok run
      → (run.id ≡ id)
        × (run.events ≡ [])
        × (run.state ≡ empty)
        × (run.last_verification_passed ≡ none)
  unfolding empty_run
  empty_run-id id run h = elim (Result-cases (validate_text is_blank "run_id" id)) [
    | inl (u, fine) ↦ elim (Bool-cases (has_nul id)) [
      | inl nul ↦ absurd (ground (arith, h, fine, nul))
      | inr clean ↦
          let is : record { id = id; events = []; state = empty; last_verification_passed = none }
              ≡ run =
            ground (arith, h, fine, clean) in
          (
            ap (λ (r : ReasoningRun). r.id) (sym is),
            ap (λ (r : ReasoningRun). r.events) (sym is),
            ap (λ (r : ReasoningRun). r.state) (sym is),
            ap (λ (r : ReasoningRun). r.last_verification_passed) (sym is),
          )
    ]
    | inr (e, fails) ↦ absurd (ground (arith, h, fails))
  ]

  empty_run-IsRun : (id : Bytes) (run : ReasoningRun) → empty_run is_blank id ≡ ok run → IsRun run
  empty_run-IsRun id run h =
      let (_, none_yet, _, unverified) = empty_run-id id run h in
      record {
        chain = subst (IsChain run.id 1 none) (sym none_yet) tt;
        verified = rw (unverified, none_yet) tt;
      }

  no_events : (run : ReasoningRun) → replay_loop run [] ≡ ok run
  unfolding replay_loop
  no_events run = refl

  -- A run from its beginning.
  record Replays (run : ReasoningRun) : Type 0 where
    start : ReasoningRun
    begins : empty_run is_blank run.id ≡ ok start
    replays : replay_loop start run.events ≡ ok run
    chain : IsRun run

  Built-Replays : (run : ReasoningRun) → Built run → Replays run
  Built-Replays run (begun id _ h) =
      let (same_id, none_yet, _, _) = empty_run-id id run h in
      record {
        start = run;
        begins = ap (empty_run is_blank) same_id ∙ h;
        replays = ap (replay_loop run) none_yet ∙ no_events run;
        chain = empty_run-IsRun id run h;
      }
  Built-Replays run' (appended run _ at actor payload e b h) =
      let before = Built-Replays run b in
      let (made, same_id, events, later, moved) =
        append-result is_blank run run' at actor payload e h in
      record {
        start = before.start;
        begins = ap (empty_run is_blank) same_id ∙ before.begins;
        replays =
            ap (replay_loop before.start) events
            ∙ replay_loop-append before.start run run.events (event_of run at actor payload ∷ [])
                before.replays
            ∙ replay_loop-one run run' at actor payload e h;
        chain = (append-IsRun is_blank run run' at actor payload e before.chain h).0;
      }

  replay-first :
      (run start : ReasoningRun) (es : List ReasoningEvent)
      → empty_run is_blank run.id ≡ ok start
      → IsChain run.id 1 none es
      → es ≢ []
      → replay_loop start es ≡ ok run
      → replay es ≡ ok run
  unfolding replay
  replay-first run start [] begins chain some_event replays = absurd (some_event refl)
  replay-first run start (first ∷ rest) begins chain some_event replays =
      let begun_too : empty_run is_blank first.run_id ≡ ok start =
        ap (empty_run is_blank) chain.0.run_id ∙ begins in
      rw begun_too replays

  -- The replay of the events of a run that `empty` and `append` have made is that run, with its state
  -- and its last verdict, unless it has no events.
  pub replay-Built : (run : ReasoningRun) → Built run → run.events ≢ [] → replay run.events ≡ ok run
  replay-Built run b some_event =
      let r = Built-Replays run b in
      replay-first run r.start run.events r.begins r.chain.chain some_event r.replays

  replay_loop-IsRun :
      (run run' : ReasoningRun) (es : List ReasoningEvent)
      → IsRun run
      → replay_loop run es ≡ ok run'
      → IsRun run' × (run'.events ≡ run.events ++ es)
  unfolding replay_loop
  replay_loop-IsRun run run' [] chain h =
      let is : run ≡ run' = ground (arith, h) in
      (
        subst IsRun is chain,
        ap (λ (r : ReasoningRun). r.events) (sym is) ∙ sym (append-empty run.events),
      )
  replay_loop-IsRun run run' (x ∷ xs) chain h =
      elim (Result-cases (append is_blank run x.at x.actor x.payload)) [
        | inl ((next, expected), done) ↦ elim (Bool-cases (event_eq expected x)) [
          | inl fits ↦
              let is = event_eq_sound expected x fits in
              let (longer, events, ends) =
                append-IsRun is_blank run next x.at x.actor x.payload expected chain done in
              let (all_chain, all_events) =
                replay_loop-IsRun next run' xs longer (ground (arith, h, done, fits)) in
              (
                all_chain,
                all_events
                    ∙ ap (λ l. l ++ xs) events
                    ∙ append_assoc run.events (expected ∷ []) xs
                    ∙ ap (λ (e : ReasoningEvent). run.events ++ e ∷ xs) is,
              )
          | inr differs ↦ absurd (ground (arith, h, done, differs))
        ]
        | inr (e, fails) ↦ absurd (ground (arith, h, fails))
      ]

  -- A replay that succeeds returns a run with the events that it was given, and they are a chain: it
  -- accepts no event out of its place, with a broken link, or with another digest than its own. The
  -- run's verdict is that of the last verification among them.
  pub replay-IsRun :
      (events : List ReasoningEvent) (run : ReasoningRun)
      → replay events ≡ ok run
      → IsRun run × (run.events ≡ events)
  unfolding replay
  replay-IsRun [] run h = absurd (ground (arith, h))
  replay-IsRun (first ∷ rest) run h = elim (Result-cases (empty_run is_blank first.run_id)) [
    | inl (start, begins) ↦
        let (same_id, none_yet, _, _) = empty_run-id first.run_id start begins in
        let (chain, events) =
          replay_loop-IsRun start run (first ∷ rest) (empty_run-IsRun first.run_id start begins)
            (ground (arith, h, begins)) in
        (chain, events ∙ ap (λ es. es ++ first ∷ rest) none_yet)
    | inr (e, fails) ↦ absurd (ground (arith, h, fails))
  ]
