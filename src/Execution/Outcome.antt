-- ===== src/Execution/Outcome.antt =====
-- How an execution ends, and when the validation is triggered.
use forge_engine.Prelude.{
  ◌≡◌, ◌≢◌, refl, String, Bool, true, false, List, [], ◌∷◌, arith, if-lift, ◌⊎◌, inl, inr, All,
}
use forge_engine.Json.{Fields}
use forge_engine.Plan.{stable_id}
use forge_engine.Execution.{
  ExecStatus, pending, running, completed, completed_with_deviations, failed, cancelled, StepEnv,
  StepExecution, State, mark, is_cancelled, mark_cancelled, execute_step, run_step, run_steps,
  run_execution, add_row, final_status, Step, returns, continues,
}
use forge_engine.Execution.Blame.{IsWritten, run_steps-Blamed}
use forge_engine.Execution.Records.{IsFine, run_steps-IsFine}
use forge_engine.Execution.Rounds.{execute_step-lift, Stepped, follow-Stepped, run_step-lift}

cancelled_status : (s : ExecStatus) → is_cancelled s ≡ true → s ≡ cancelled
cancelled_status pending h = cc
cancelled_status running h = cc
cancelled_status completed h = cc
cancelled_status completed_with_deviations h = cc
cancelled_status failed h = cc
cancelled_status cancelled h = refl

-- The run was given up.
abbrev IsGivenUp : State → Type 0
IsGivenUp st = (st.status ≡ failed) ⊎ (st.status ≡ cancelled)

mark_status : (db : Bool) (s : ExecStatus) (st : State) → db ≡ true → (mark db s st).status ≡ s
unfolding mark
mark_status db s st e = rw e refl

execute_step-ends :
    (step : Fields) (env : StepEnv) (st : State)
    → env.exec_ok ≡ true
    → Stepped (λ _. Unit) IsGivenUp (execute_step step env st)
execute_step-ends step env st ok =
    execute_step-lift (Stepped (λ _. Unit) IsGivenUp) step env st
      (inl (mark_status env.exec_ok failed st ok))
      (λ st' e. inl (mark_status env.exec_ok failed (add_row (stable_id step) _ st') ok)) (λ v. tt)

mark_cancelled-keeps :
    (db : Bool) (st : State) → st.status ≡ cancelled → (mark_cancelled db st).status ≡ cancelled
unfolding mark_cancelled
mark_cancelled-keeps db st e =
    if-lift (λ (s : State). s.status ≡ cancelled) _ _ st (λ _. refl) (λ _. e)

run_step-ends :
    (step : Fields) (env : StepEnv) (st : State)
    → env.exec_ok ≡ true
    → Stepped (λ _. Unit) IsGivenUp (run_step step env st)
run_step-ends step env st ok =
    let st' = mark_cancelled env.cancels_before st in
    run_step-lift (Stepped (λ _. Unit) IsGivenUp) step env st
      (λ h.
        inr
          (mark_cancelled-keeps env.exec_ok st' (cancelled_status st'.status (ground (arith, h)))))
      tt (λ e. execute_step-ends step env st' ok)

abbrev Ends : State × Bool → Type 0
Ends r = (r.1 ≡ true) ⊎ ((r.1 ≡ false) × IsGivenUp r.0)

given_up :
    (s : Step) → Stepped (λ _. Unit) IsGivenUp s → Stepped (λ _. Unit) (λ st. Ends (st, false)) s
given_up (returns st) g = inr (refl, g)
given_up (continues st) g = tt

-- The loop reaches its end, or the run is given up.
run_steps-Ends :
    (steps : List (Fields × StepEnv)) (st : State)
    → All (λ (p : Fields × StepEnv). p.1.exec_ok ≡ true) steps
    → Ends (run_steps steps st)
unfolding run_steps
run_steps-Ends [] st ok = inl refl
run_steps-Ends ((step, env) ∷ steps) st (ok, oks) =
    follow-Stepped (λ _. Unit) Ends (run_step step env st) (run_steps steps)
      (given_up (run_step step env st) (run_step-ends step env st ok))
      (λ st' _. run_steps-Ends steps st' oks)

-- The status at the end, by the list of the steps that went wrong. A completed execution has no row
-- of such a step, and one that is completed with deviations has one, if all rows were written.
abbrev pub EndsAs : List (Fields × StepEnv) → List String → List StepExecution → ExecStatus → Type 0
EndsAs steps keys rows s =
    ((keys ≡ []) × ((s ≡ completed) × IsFine rows))
    ⊎ ((keys ≢ []) × ((s ≡ completed_with_deviations) × ¬ (All IsWritten steps × IsFine rows)))

final_status-EndsAs :
    (steps : List (Fields × StepEnv)) (keys : List String) (rows : List StepExecution)
    → (keys ≡ [] → IsFine rows)
    → (All IsWritten steps → IsFine rows → keys ≡ [])
    → EndsAs steps keys rows (final_status keys)
final_status-EndsAs steps [] rows fine blamed = inl (refl, (refl, fine refl))
final_status-EndsAs steps (sid ∷ keys) rows fine blamed =
    inr ((λ e. cc), (refl, (λ (w, f). absurd (cc (blamed w f)))))

-- If the updates of the execution's row run, an execution always ends: it runs through, the
-- validation is triggered and the status is completed if the list of the steps that deviated, failed
-- or were skipped is empty and completed with deviations if it has a step, also if the execution was
-- cancelled while the last step ran; or it ends early, nothing is triggered, and the status is failed
-- or cancelled. An execution that ends as completed has no row that says that its step deviated,
-- failed or was skipped; one that ends as completed with deviations has such a row, if every
-- statement on the rows of its steps ran. It begins without rows and with an empty list.
pub run_execution-ends :
    (steps : List (Fields × StepEnv)) (exec_ok : Bool) (st : State)
    → exec_ok ≡ true
    → All (λ (p : Fields × StepEnv). p.1.exec_ok ≡ true) steps
    → st.rows ≡ []
    → st.deviated_or_failed ≡ []
    → let (st', triggered) = run_execution steps exec_ok st in
      ((triggered ≡ true) × EndsAs steps st'.deviated_or_failed st'.rows st'.status)
      ⊎ ((triggered ≡ false) × ((st'.status ≡ failed) ⊎ (st'.status ≡ cancelled)))
unfolding run_execution mark
run_execution-ends steps exec_ok st ok oks r k = elim (run_steps-Ends steps st oks) [
  | inl e ↦ rw e (inl (refl, marked e))
  | inr (e, g) ↦ rw e (inr (refl, g))
]
  where
    end : State
    end = (run_steps steps st).0

    marked :
        (run_steps steps st).1 ≡ true
        → let st' = mark exec_ok (final_status end.deviated_or_failed) end in
          EndsAs steps st'.deviated_or_failed st'.rows st'.status
    marked e = rw ok (
        final_status-EndsAs steps end.deviated_or_failed end.rows (run_steps-IsFine steps st r e)
          (λ w. run_steps-Blamed steps st w (λ _. k) e))
