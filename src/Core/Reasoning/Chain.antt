-- ===== src/Core/Reasoning/Chain.antt =====
-- reasoning.rs: what every run that is built by appends satisfies.
use mathlib.Core.Path.{subst}
use vyrm.Prelude.{
  ℕ, suc, ◌+◌, ◌≤◌, ◌≡◌, refl, sym, ap, ◌∙◌, Bool, true, false, List, [], ◌∷◌, ◌++◌, Option, none,
  some, ok, length, last?, arith, Result-cases, inl, inr, ◌≢◌, All, In, ◌⊎◌,
}
use vyrm.Core.Error.{Bytes}
use vyrm.Core.Reasoning.{
  Check, CheckStatus, passed, failed, all_passed, ReasoningPayload, goal, plan, attempt,
  observation, decision, verification, outcome, succeeded, ReasoningEvent, ReasoningRun,
  ReasoningState, needs_outcome, complete, transition, event_digest,
}
use vyrm.Core.Reasoning.Run.{digest_of_last, verdict, event_of, append}

-- An event in its place: its number, its link to the event before, a time no earlier than that one's,
-- and a digest that covers all of it.
pub record IsLinked (id : Bytes) (place : ℕ) (before : Option ReasoningEvent) (e : ReasoningEvent)
    : Type 0 where
  pub run_id : e.run_id ≡ id
  pub ordinal : e.ordinal ≡ place
  pub previous : e.previous_digest ≡ digest_of_last before
  pub later : (b : ReasoningEvent) → before ≡ some b → b.at ≤ e.at
  pub digest : e.digest ≡ event_digest id place e.at e.actor e.payload (digest_of_last before)

-- The events behind some event, or the first ones, numbered from `ordinal`.
abbrev pub IsChain : Bytes → ℕ → Option ReasoningEvent → List ReasoningEvent → Type 0
IsChain id ordinal before [] = Unit
IsChain id ordinal before (e ∷ es) =
    IsLinked id ordinal before e × IsChain id (ordinal + 1) (some e) es

abbrev last_from : Option ReasoningEvent → List ReasoningEvent → Option ReasoningEvent
last_from before [] = before
last_from before (e ∷ es) = last_from (some e) es

last_from-last? :
    (e : ReasoningEvent) (es : List ReasoningEvent) → last_from (some e) es ≡ last? (e ∷ es)
last_from-last? e [] = refl
last_from-last? e (d ∷ es) = last_from-last? d es

last_from-none : (es : List ReasoningEvent) → last_from none es ≡ last? es
last_from-none [] = refl
last_from-none (e ∷ es) = last_from-last? e es

IsChain-snoc :
    (id : Bytes) (n : ℕ) (before : Option ReasoningEvent) (es : List ReasoningEvent)
    (e : ReasoningEvent)
    → IsChain id n before es
    → IsLinked id (length es + n) (last_from before es) e
    → IsChain id n before (es ++ e ∷ [])
IsChain-snoc id n before [] e h l =
    let same : 0 + n ≡ n = omega arith in (subst (λ m. IsLinked id m before e) same l, tt)
IsChain-snoc id n before (d ∷ es) e h l =
    let same : suc (length es) + n ≡ length es + (n + 1) = omega arith in
    (
      h.0,
      IsChain-snoc id (n + 1) (some d) es e h.1
          (subst (λ m. IsLinked id m (last_from (some d) es) e) same l),
    )

complete-state :
    (s : ReasoningState) (v : Option Bool) (p : ReasoningPayload)
    → transition s v p ≡ ok complete
    → s ≡ needs_outcome
unfolding transition
complete-state s v p h = ground arith

abbrev checks_of : ReasoningPayload → Option (List Check)
checks_of (verification checks) = some checks
checks_of _ = none

abbrev or_checks : Option (List Check) → Option (List Check) → Option (List Check)
or_checks none b = b
or_checks (some a) b = some a

-- The checks of the last verification.
abbrev pub last_checks : List ReasoningEvent → Option (List Check)
last_checks [] = none
last_checks (e ∷ es) = or_checks (last_checks es) (checks_of e.payload)

or_checks_assoc :
    (a b c : Option (List Check)) → or_checks (or_checks a b) c ≡ or_checks a (or_checks b c)
or_checks_assoc none b c = refl
or_checks_assoc (some a) b c = refl

last_checks-snoc :
    (es : List ReasoningEvent) (e : ReasoningEvent)
    → last_checks (es ++ e ∷ []) ≡ or_checks (checks_of e.payload) (last_checks es)
last_checks-snoc [] e = ground arith
last_checks-snoc (d ∷ es) e =
    ap (λ o. or_checks o (checks_of d.payload)) (last_checks-snoc es e)
    ∙ or_checks_assoc (checks_of e.payload) (last_checks es) (checks_of d.payload)

abbrev pub AllPassed : List Check → Type 0
AllPassed checks = All (λ (c : Check). c.status ≡ passed) checks

abbrev SomeFailed : List Check → Type 0
SomeFailed checks = (c : Check) × In c checks × (c.status ≡ failed)

-- A verdict that agrees with the checks it is about.
abbrev pub Agrees : Option Bool → Option (List Check) → Type 0
Agrees none none = Unit
Agrees (some true) (some checks) = AllPassed checks
Agrees (some false) (some checks) = SomeFailed checks
Agrees _ _ = ⊥

status-cases : (s : CheckStatus) → (s ≡ passed) ⊎ (s ≡ failed)
status-cases passed = inl refl
status-cases failed = inr refl

checks-cases :
    (checks : List Check)
    → ((all_passed checks ≡ true) × AllPassed checks)
      ⊎ ((all_passed checks ≡ false) × SomeFailed checks)
checks-cases [] = inl (refl, tt)
checks-cases (c ∷ checks) = elim (status-cases c.status) [
  | inl fine ↦ elim (checks-cases checks) [
    | inl (all_fine, each) ↦ inl (rw (fine, all_fine) refl, (fine, each))
    | inr (one_not, (d, i, not_fine)) ↦ inr (rw (fine, one_not) refl, (d, inr i, not_fine))
  ]
  | inr not_fine ↦ inr (rw not_fine refl, (c, inl refl, not_fine))
]

all_passed-Agrees : (checks : List Check) → Agrees (some (all_passed checks)) (some checks)
all_passed-Agrees checks = elim (checks-cases checks) [
  | inl (is, each) ↦ subst (λ b. Agrees (some b) (some checks)) (sym is) each
  | inr (is, one) ↦ subst (λ b. Agrees (some b) (some checks)) (sym is) one
]

verdict-Agrees :
    (v : Option Bool) (p : ReasoningPayload) (last : Option (List Check))
    → Agrees v last
    → Agrees (verdict v p) (or_checks (checks_of p) last)
verdict-Agrees v (verification checks) last h = all_passed-Agrees checks
verdict-Agrees v (goal a b) last h = h
verdict-Agrees v (plan a b) last h = h
verdict-Agrees v (attempt a b) last h = h
verdict-Agrees v (observation a b) last h = h
verdict-Agrees v (decision a b) last h = h
verdict-Agrees v (outcome a b) last h = h

-- A payload that may complete a run whose last checks were these.
abbrev pub Completes : Option (List Check) → ReasoningPayload → Type 0
Completes (some checks) (outcome o m) = (o ≢ succeeded) ⊎ AllPassed checks
Completes _ _ = ⊥

outcome-Completes :
    (v : Option Bool) (last : Option (List Check)) (p : ReasoningPayload)
    → Agrees v last
    → transition needs_outcome v p ≡ ok complete
    → Completes last p
unfolding transition
outcome-Completes v last (goal a b) g h = absurd (ground (arith, h))
outcome-Completes v last (plan a b) g h = absurd (ground (arith, h))
outcome-Completes v last (attempt a b) g h = absurd (ground (arith, h))
outcome-Completes v last (observation a b) g h = absurd (ground (arith, h))
outcome-Completes v last (decision a b) g h = absurd (ground (arith, h))
outcome-Completes v last (verification a) g h = absurd (ground (arith, h))
outcome-Completes none last (outcome o m) g h = absurd (ground (arith, h))
outcome-Completes (some true) (some checks) (outcome o m) g h = inr g
outcome-Completes (some false) (some checks) (outcome o m) g h = inl (λ e. ground (arith, h, e))
outcome-Completes (some true) none (outcome o m) g h = elim g [ ]
outcome-Completes (some false) none (outcome o m) g h = elim g [ ]

-- A run of a chain of events that is numbered from one, whose verdict is that of the last checks.
pub record IsRun (run : ReasoningRun) : Type 0 where
  pub chain : IsChain run.id 1 none run.events
  pub verified : Agrees run.last_verification_passed (last_checks run.events)

module _ (is_blank : Bytes → Bool) where
  pub append-result :
      (run run' : ReasoningRun) (at : ℕ) (actor : Bytes) (payload : ReasoningPayload)
      (e : ReasoningEvent)
      → append is_blank run at actor payload ≡ ok (run', e)
      → (e ≡ event_of run at actor payload)
        × (run'.id ≡ run.id)
        × (run'.events ≡ run.events ++ event_of run at actor payload ∷ [])
        × ((b : ReasoningEvent) → last? run.events ≡ some b → b.at ≤ at)
        × (transition run.state run.last_verification_passed payload ≡ ok run'.state)
  unfolding append
  append-result run run' at actor payload e h =
      elim (Result-cases (transition run.state run.last_verification_passed payload)) [
        | inl (next, q) ↦ (
          ground (arith, q),
          ground (arith, q),
          ground (arith, q),
          λ b l. ground (arith, l, q),
          ground (arith, q),
        )
        | inr (x, q) ↦ absurd (ground (arith, q))
      ]

  append-verdict :
      (run run' : ReasoningRun) (at : ℕ) (actor : Bytes) (payload : ReasoningPayload)
      (e : ReasoningEvent)
      → append is_blank run at actor payload ≡ ok (run', e)
      → run'.last_verification_passed ≡ verdict run.last_verification_passed payload
  unfolding append
  append-verdict run run' at actor payload e h =
      elim (Result-cases (transition run.state run.last_verification_passed payload)) [
        | inl (next, q) ↦ ground (arith, q)
        | inr (x, q) ↦ absurd (ground (arith, q))
      ]

  -- An append that succeeds keeps the events of a run a chain: each is numbered by its place, names
  -- the digest of the one before, is no earlier, and has the digest of its own fields. It keeps the
  -- run's verdict that of the checks of the last verification among the events: there is none before
  -- the first one, it is true where every check passed, and false where one failed. Where the append
  -- completes the run, the run needed an outcome, the payload is one, there has been a verification,
  -- and where the outcome is success every check of the last verification passed.
  pub append-IsRun :
      (run run' : ReasoningRun) (at : ℕ) (actor : Bytes) (payload : ReasoningPayload)
      (e : ReasoningEvent)
      → IsRun run
      → append is_blank run at actor payload ≡ ok (run', e)
      → IsRun run'
        × (run'.events ≡ run.events ++ e ∷ [])
        × (run'.state ≡ complete
            → (run.state ≡ needs_outcome) × Completes (last_checks run.events) payload)
  append-IsRun run run' at actor payload e is_run h =
      let (made, same_id, events, later, moved) = append-result run run' at actor payload e h in
      let linked : IsLinked run.id (length run.events + 1) (last_from none run.events)
          (event_of run at actor payload) =
        subst
          (λ before. IsLinked run.id (length run.events + 1) before (event_of run at actor payload))
          (sym (last_from-none run.events))
          (record {
            run_id = refl;
            ordinal = refl;
            previous = refl;
            later = later;
            digest = refl;
          }) in
      let longer =
        IsChain-snoc run.id 1 none run.events (event_of run at actor payload) is_run.chain linked in
      (
        record {
          chain =
              subst (λ es. IsChain run'.id 1 none es) (sym events)
                (subst (λ i. IsChain i 1 none (run.events ++ event_of run at actor payload ∷ []))
                  (sym same_id) longer);
          verified =
              rw
                (
                  append-verdict run run' at actor payload e h,
                  events,
                  last_checks-snoc run.events (event_of run at actor payload),
                )
                (verdict-Agrees run.last_verification_passed payload _ is_run.verified);
        },
        events ∙ ap (λ (x : ReasoningEvent). run.events ++ x ∷ []) (sym made),
        λ done.
            let ended : transition run.state run.last_verification_passed payload ≡ ok complete =
              moved ∙ ap ok done in
            let state = complete-state run.state run.last_verification_passed payload ended in
            (
              state,
              outcome-Completes run.last_verification_passed _ payload is_run.verified (
                  subst (λ s. transition s run.last_verification_passed payload ≡ ok complete) state
                    ended),
            ),
      )
