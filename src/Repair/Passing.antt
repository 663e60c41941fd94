-- ===== src/Repair/Passing.antt =====
-- What a repaired task has gone through, and what becomes of the work item.
use forge_engine.Prelude.{ℕ, ◌≡◌, refl, subst, true, some}
use forge_engine.WorkItem.{Status, transition_to_done, transition_to_failed}
use forge_engine.Repair.{
  ValidationRun, Outcome, passed, improved, no_change, regressed, error,
  compare_validation_outcomes,
}
use forge_engine.Repair.Verdict.{Means, compare_validation_outcomes-Means}
use forge_engine.Repair.Session.{
  Round, State, repaired, RunResult, load_failed, not_permitted, transition_failed, session_failed,
  repair_passed, session_cancelled, time_exhausted, attempts_exhausted, attempt_failed,
  agent_gave_up, validation_failed, no_improvement, regression, outcome_error, exhaust, escalate,
  complete, handle_outcome, run_attempt, attempts, increment_attempts, mark_completed,
}
use forge_engine.Repair.Loop.{Stepped, attempts-lift, called, run_attempt-lift, finish_attempt-lift}

-- What the status of the work item is after a result.
abbrev pub leaves : RunResult → Status
leaves repair_passed = Status.done
leaves session_cancelled = Status.repairing
leaves time_exhausted = Status.failed
leaves attempts_exhausted = Status.failed
leaves attempt_failed = Status.failed
leaves agent_gave_up = Status.failed
leaves validation_failed = Status.failed
leaves no_improvement = Status.failed
leaves regression = Status.failed
leaves outcome_error = Status.failed
leaves load_failed = Status.repairing
leaves not_permitted = Status.repairing
leaves transition_failed = Status.repairing
leaves session_failed = Status.repairing

abbrev IsRepairing : State → Type 0
IsRepairing st = st.item.status ≡ Status.repairing

abbrev Left : State × RunResult → Type 0
Left (st, result) = st.item.status ≡ leaves result

handle_outcome-Left :
    (r : Round) (n : ℕ) (run : ValidationRun) (o : Outcome) (st : State)
    → r.item_ok ≡ true
    → IsRepairing st
    → Stepped IsRepairing Left (handle_outcome r n run o st)
unfolding handle_outcome complete escalate transition_to_failed transition_to_done
handle_outcome-Left r n run passed st ok p = rw (ok, p) refl
handle_outcome-Left r n run improved st ok p = p
handle_outcome-Left r n run no_change st ok p = rw (ok, p) refl
handle_outcome-Left r n run regressed st ok p = rw (ok, p) refl
handle_outcome-Left r n run error st ok p = rw (ok, p) refl

run_attempt-Left :
    (trigger : ValidationRun) (r : Round) (n : ℕ) (st : State)
    → r.item_ok ≡ true
    → IsRepairing st
    → Stepped IsRepairing Left (run_attempt trigger r n st)
unfolding exhaust escalate transition_to_failed increment_attempts
run_attempt-Left trigger r n st ok p =
    run_attempt-lift (Stepped IsRepairing Left) trigger r n st (λ h. p) (rw (ok, p) refl)
      (finish_attempt-lift (Stepped IsRepairing Left) trigger r n (called r n st)
        (λ reason message. rw (ok, p) refl) (λ reason message. rw (ok, p) refl)
        (λ reason message. rw (ok, p) refl) (λ run a v. handle_outcome-Left r n run _ _ ok p))

-- From a work item that is being repaired, the loop leaves it done exactly for a pass, as it was
-- when the session was cancelled, and failed for every other result, if the statements on the work
-- item run.
pub attempts-leaves :
    (rounds : ℕ → Round) (trigger : ValidationRun) (left n : ℕ) (st : State)
    → ((k : ℕ) → (rounds k).item_ok ≡ true)
    → st.item.status ≡ Status.repairing
    → let (st', result) = attempts rounds trigger left n st in st'.item.status ≡ leaves result
unfolding attempts exhaust transition_to_failed
attempts-leaves rounds trigger left n st ok p =
    attempts-lift rounds trigger (λ _ s. IsRepairing s) Left
      (λ k m s q. run_attempt-Left trigger (rounds m) m s (ok m) q) (λ s q. rw (ok 0, q) refl) left
      n st p

-- A result that says passed, with the run that passed and that the session names.
abbrev Passed : (ℕ → Round) → State × RunResult → Type 0
Passed rounds (st, result) =
    result ≡ repair_passed
    → (k : ℕ) × (run : ValidationRun) × ((rounds k).attempt ≡ repaired)
      × ((rounds k).validation ≡ some run)
      × (run.overall_result ≡ some "passed")
      × ((rounds k).mark_ok ≡ true → st.session.final_validation_run_id ≡ some run.id)

compare_passed :
    (before after : ValidationRun)
    → compare_validation_outcomes before after ≡ passed
    → after.overall_result ≡ some "passed"
compare_passed before after h =
    subst (Means before after) h (compare_validation_outcomes-Means before after)

run_attempt-Passed :
    (rounds : ℕ → Round) (trigger : ValidationRun) (n : ℕ) (st : State)
    → Stepped (λ _. Unit) (Passed rounds) (run_attempt trigger (rounds n) n st)
unfolding handle_outcome complete mark_completed
run_attempt-Passed rounds trigger n st =
    run_attempt-lift (Stepped (λ _. Unit) (Passed rounds)) trigger (rounds n) n st (λ h e. cc)
      (λ e. cc)
      (finish_attempt-lift (Stepped (λ _. Unit) (Passed rounds)) trigger (rounds n) n
        (called (rounds n) n st) (λ reason message e. cc) (λ reason message e. cc)
        (λ reason message e. cc)
        (λ run a v. by_outcome run a v (compare_validation_outcomes trigger run) refl))
  where
    by_outcome :
        (run : ValidationRun)
        → (rounds n).attempt ≡ repaired
        → (rounds n).validation ≡ some run
        → (o : Outcome) → compare_validation_outcomes trigger run ≡ o
        → Stepped
            (λ _. Unit)
            (Passed rounds)
            (handle_outcome
              (rounds n)
              n
              run
              o
              (record (called (rounds n) n st) { last_validation_run_id = run.id }))
    by_outcome run a v passed h =
        λ e. (n, run, a, v, compare_passed trigger run h, (λ ok. rw ok refl))
    by_outcome run a v improved h = tt
    by_outcome run a v no_change h = λ e. cc
    by_outcome run a v regressed h = λ e. cc
    by_outcome run a v error h = λ e. cc

-- The loop reports a pass only after the agent finished an attempt whose validation run passed, and
-- that run is the one that the completed session names.
pub attempts_passed :
    (rounds : ℕ → Round) (trigger : ValidationRun) (left n : ℕ) (st : State)
    → let (st', result) = attempts rounds trigger left n st in
      result ≡ repair_passed
      → (k : ℕ) × (run : ValidationRun) × ((rounds k).attempt ≡ repaired)
        × ((rounds k).validation ≡ some run)
        × (run.overall_result ≡ some "passed")
        × ((rounds k).mark_ok ≡ true → st'.session.final_validation_run_id ≡ some run.id)
attempts_passed rounds trigger left n st =
    attempts-lift rounds trigger (λ _ _. Unit) (Passed rounds)
      (λ k m s _. run_attempt-Passed rounds trigger m s) (λ s _ e. cc) left n st tt
