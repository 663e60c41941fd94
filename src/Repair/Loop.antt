-- ===== src/Repair/Loop.antt =====
-- Ways to prove something of the repair loop: by an invariant, and by the exits of a round.
use forge_engine.Prelude.{
  ℕ, zero, suc, ◌≡◌, refl, String, true, some, ◌∷◌, if-lift, Option-cases, ◌⊎◌, inl, inr,
}
use forge_engine.Repair.{ValidationRun, compare_validation_outcomes}
use forge_engine.Repair.Session.{
  SessionStatus, running, completed, exhausted, escalated, cancelled, Round, State, AttemptResult,
  attempt_error, repaired, cannot_repair, RunResult, session_cancelled, time_exhausted,
  attempts_exhausted, attempt_failed, agent_gave_up, validation_failed, Step, returns, continues,
  follow, polls_cancelled, is_cancelled, cancel_if, exhaust, escalate, handle_outcome,
  finish_attempt, run_attempt, attempts, increment_attempts,
}

-- A family on the outcomes of a step: what holds when it returns, and what when it goes on.
abbrev pub Stepped : (State → Type 0) → (State × RunResult → Type 0) → Step → Type 0
Stepped P Q (returns st result) = Q (st, result)
Stepped P Q (continues st) = P st

follow-Stepped :
    (P : State → Type 0) (Q : State × RunResult → Type 0) (s : Step)
    (next : State → State × RunResult)
    → Stepped P Q s
    → ((st : State) → P st → Q (next st))
    → Q (follow s next)
follow-Stepped P Q (returns st result) next q rest = q
follow-Stepped P Q (continues st) next q rest = rest st q

module _ (rounds : ℕ → Round) (trigger : ValidationRun) where
  -- The loop, by an invariant that may count the rounds left.
  pub attempts-lift :
      (P : ℕ → State → Type 0) (Q : State × RunResult → Type 0)
      → ((left n : ℕ) (st : State)
          → P (suc left) st
          → Stepped (P left) Q (run_attempt trigger (rounds n) n st))
      → ((st : State)
          → P 0 st
          → Q (exhaust (rounds 0) "repair budget exhausted (max attempts)" st, attempts_exhausted))
      → (left n : ℕ) (st : State) → P left st
      → Q (attempts rounds trigger left n st)
  unfolding attempts
  attempts-lift P Q step over zero n st p = over st p
  attempts-lift P Q step over (suc left) n st p =
      follow-Stepped (P left) Q (run_attempt trigger (rounds n) n st) _ (step left n st p)
        (attempts-lift P Q step over left (suc n))

-- The state in which the agent is called.
abbrev pub called : Round → ℕ → State → State
unfolding increment_attempts
called r n st =
    let st' = cancel_if r.cancels_before st in
    cancel_if r.cancels_during (record st' {
      session = increment_attempts r.increment_ok st'.session;
      attempted = n ∷ st'.attempted;
    })

-- The ways out of one round.
pub run_attempt-lift :
    (T : Step → Type 0) (trigger : ValidationRun) (r : Round) (n : ℕ) (st : State)
    → (polls_cancelled r.poll_ok (cancel_if r.cancels_before st).session ≡ true
        → T (returns (cancel_if r.cancels_before st) session_cancelled))
    → T (
        returns
          (exhaust r "repair budget exhausted (time)" (cancel_if r.cancels_before st))
          time_exhausted)
    → T (finish_attempt trigger r n (called r n st))
    → T (run_attempt trigger r n st)
unfolding run_attempt called
run_attempt-lift T trigger r n st stopped late go =
    if-lift T _ _ _ stopped (λ _. if-lift T _ _ _ (λ _. late) (λ _. go))

AttemptResult-cases :
    (a : AttemptResult)
    → (a ≡ attempt_error) ⊎ ((reason : String) × (a ≡ cannot_repair reason)) ⊎ (a ≡ repaired)
AttemptResult-cases attempt_error = inl refl
AttemptResult-cases (cannot_repair reason) = inr (inl (reason, refl))
AttemptResult-cases repaired = inr (inr refl)

pub cancelled_status : (s : SessionStatus) → is_cancelled s ≡ true → s ≡ cancelled
cancelled_status running h = cc
cancelled_status completed h = cc
cancelled_status exhausted h = cc
cancelled_status escalated h = cc
cancelled_status cancelled h = refl

pub finish_attempt-lift :
    (T : Step → Type 0) (trigger : ValidationRun) (r : Round) (n : ℕ) (st : State)
    → ((reason message : String) → T (returns (escalate r reason message st) attempt_failed))
    → ((reason message : String) → T (returns (escalate r reason message st) agent_gave_up))
    → ((reason message : String) → T (returns (escalate r reason message st) validation_failed))
    → ((run : ValidationRun)
        → r.attempt ≡ repaired
        → r.validation ≡ some run
        → T (
            handle_outcome r n run
              (compare_validation_outcomes trigger run)
              (record st { last_validation_run_id = run.id })))
    → T (finish_attempt trigger r n st)
unfolding finish_attempt
finish_attempt-lift T trigger r n st failed gave_up invalid go =
    elim (AttemptResult-cases r.attempt) [
      | inl e ↦ rw e (failed "attempt error" "repair failed")
      | inr (inl (reason, e)) ↦ rw e (gave_up reason "repair escalated")
      | inr (inr e) ↦ elim (Option-cases r.validation) [
        | inl none_e ↦ rw (e, none_e) (invalid "validation error" "validation error")
        | inr (run, run_e) ↦ rw (e, run_e) (go run e run_e)
      ]
    ]
