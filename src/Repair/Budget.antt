-- ===== src/Repair/Budget.antt =====
-- The repair loop is bounded, and it leaves the session in the status that its result says.
use forge_engine.Prelude.{Option, none, some, ℕ, ◌+◌, ◌≤◌, ◌≡◌, refl, true, arith, length}
use forge_engine.WorkItem.{WorkItem}
use forge_engine.Repair.{ValidationRun, Outcome, passed, improved, no_change, regressed, error}
use forge_engine.Repair.Session.{
  SessionStatus, running, completed, exhausted, escalated, cancelled, Round, State, RunResult,
  load_failed, not_permitted, transition_failed, session_failed, repair_passed, session_cancelled,
  time_exhausted, attempts_exhausted, attempt_failed, agent_gave_up, validation_failed,
  no_improvement, regression, outcome_error, polls_cancelled, exhaust, escalate, complete,
  handle_outcome, run_attempt, attempts, mark_completed, mark_escalated, mark_exhausted,
}
use forge_engine.Repair.Loop.{
  Stepped, attempts-lift, called, run_attempt-lift, finish_attempt-lift, cancelled_status,
}

-- What the status of the session is after a result.
abbrev pub ends : RunResult → SessionStatus
ends repair_passed = completed
ends session_cancelled = cancelled
ends time_exhausted = exhausted
ends attempts_exhausted = exhausted
ends attempt_failed = escalated
ends agent_gave_up = escalated
ends validation_failed = escalated
ends no_improvement = escalated
ends regression = escalated
ends outcome_error = escalated
ends load_failed = running
ends not_permitted = running
ends transition_failed = running
ends session_failed = running

abbrev Ended : State × RunResult → Type 0
Ended (st, result) = st.session.status ≡ ends result

handle_outcome-Ended :
    (r : Round) (n : ℕ) (run : ValidationRun) (o : Outcome) (st : State)
    → r.mark_ok ≡ true
    → Stepped (λ _. Unit) Ended (handle_outcome r n run o st)
unfolding handle_outcome complete escalate mark_completed mark_escalated
handle_outcome-Ended r n run passed st ok = rw ok refl
handle_outcome-Ended r n run improved st ok = tt
handle_outcome-Ended r n run no_change st ok = rw ok refl
handle_outcome-Ended r n run regressed st ok = rw ok refl
handle_outcome-Ended r n run error st ok = rw ok refl

run_attempt-Ended :
    (trigger : ValidationRun) (r : Round) (n : ℕ) (st : State)
    → r.mark_ok ≡ true
    → Stepped (λ _. Unit) Ended (run_attempt trigger r n st)
unfolding polls_cancelled exhaust mark_exhausted escalate mark_escalated
run_attempt-Ended trigger r n st ok =
    run_attempt-lift (Stepped (λ _. Unit) Ended) trigger r n st
      (λ h. cancelled_status _ (ground arith)) (rw ok refl)
      (finish_attempt-lift (Stepped (λ _. Unit) Ended) trigger r n (called r n st)
        (λ reason message. rw ok refl) (λ reason message. rw ok refl) (λ reason message. rw ok refl)
        (λ run a v. handle_outcome-Ended r n run _ _ ok))

-- However the repair loop is left, if the statement that ends the session runs, then the session
-- has the status of the result: completed for a pass, cancelled for a cancel, exhausted for a spent
-- budget, and escalated for every other. So no session is left running.
pub attempts-ends :
    (rounds : ℕ → Round) (trigger : ValidationRun) (left n : ℕ) (st : State)
    → ((k : ℕ) → (rounds k).mark_ok ≡ true)
    → let (st', result) = attempts rounds trigger left n st in st'.session.status ≡ ends result
unfolding attempts exhaust mark_exhausted
attempts-ends rounds trigger left n st ok =
    attempts-lift rounds trigger (λ _ _. Unit) Ended
      (λ left n st _. run_attempt-Ended trigger (rounds n) n st (ok n)) (λ st _. rw (ok 0) refl)
      left n st tt

-- The attempts made so far, and those that may follow.
abbrev Bounded : ℕ → ℕ → State → Type 0
Bounded total left st =
    (left + length st.attempted ≤ total) × (st.session.attempts_used ≤ length st.attempted)

abbrev Spent : ℕ → State × RunResult → Type 0
Spent total (st, result) = Bounded total 0 st

-- The session of a repair, if there is one.
abbrev pub CallsAtMost : ℕ → Option State → Type 0
CallsAtMost n none = Unit
CallsAtMost n (some st) =
    (length st.attempted ≤ n) × (st.session.attempts_used ≤ length st.attempted)
