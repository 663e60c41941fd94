-- ===== src/Execution/Blame.antt =====
-- Who stands in `deviatedOrFailed` of Run of backend/internal/execution/orchestrator.go: where the
-- statements on the rows of the steps ran, a key has a row that says so.
use forge_engine.Prelude.{
  ◌≡◌, refl, Bool, true, false, List, [], ◌∷◌, All, if-lift, if◌then◌else◌, has_prefix, Bytes,
  bytes,
}
use forge_engine.Json.{Fields}
use forge_engine.Execution.{
  StepStatus, step_completed, step_deviated, step_failed, StepEnv, StepVars, State, Step, returns,
  continues, mark_cancelled, classify, run_step, run_steps,
}
use forge_engine.Execution.Records.{not_succeeded, IsFine}
use forge_engine.Execution.Rounds.{
  after_step, called, passed_over, execute_step-lift, Stepped, follow-Stepped, run_step-lift,
}

-- The row of the step was created, and its updates ran.
abbrev pub IsWritten : Fields × StepEnv → Type 0
IsWritten p = (p.1.create_ok ≡ true) × (p.1.step_ok ≡ true)

-- If no row says that its step did not succeed, then there is no key.
abbrev Blamed : State → Type 0
Blamed st = IsFine st.rows → st.deviated_or_failed ≡ []

classify_tests :
    (e h s : Bool)
    → let r : StepStatus × Bool =
        if e
        then (step_failed, true)
        else if h
        then (step_deviated, true)
        else if s
        then (step_completed, false)
        else (step_deviated, true) in
      not_succeeded true r.0 ≡ false → r.1 ≡ false
classify_tests true h s n = cc
classify_tests false true s n = cc
classify_tests false false true n = refl
classify_tests false false false n = cc

classify_free : (d : Bytes) → not_succeeded true (classify d).0 ≡ false → (classify d).1 ≡ false
unfolding classify
classify_free [] h = refl
classify_free (c ∷ cs) h =
    classify_tests (has_prefix (c ∷ cs) (bytes "execution_error:"))
      (has_prefix (c ∷ cs) (bytes "requires_human:"))
      (has_prefix (c ∷ cs) (bytes "already_satisfied:")) h

mark_cancelled-Blamed : (db : Bool) (st : State) → Blamed st → Blamed (mark_cancelled db st)
unfolding mark_cancelled
mark_cancelled-Blamed db st b = if-lift Blamed _ _ st (λ _. b) (λ _. b)

called-Blamed :
    (step : Fields) (env : StepEnv) (st : State) → Blamed st → Blamed (called step env st)
unfolding called
called-Blamed step env st b = mark_cancelled-Blamed env.cancels_during _ b

passed_over-Blamed :
    (step : Fields) (env : StepEnv) (st : State)
    → IsWritten (step, env)
    → Blamed (passed_over step env st)
unfolding passed_over
passed_over-Blamed step env st (created, written) = rw created (rw written (λ (h, fine). cc))

after_step-Blamed :
    (step : Fields) (env : StepEnv) (v : StepVars) (st : State)
    → IsWritten (step, env)
    → Blamed st
    → Blamed (after_step step env v st)
unfolding after_step
after_step-Blamed step env v st (created, written) b =
    rw written (λ (h, fine). rw (classify_free v.deviation h) (b fine))

run_step-Blamed :
    (step : Fields) (env : StepEnv) (st : State)
    → IsWritten (step, env)
    → Blamed st
    → Stepped Blamed (λ _. Unit) (run_step step env st)
run_step-Blamed step env st₀ w b₀ =
    let st = mark_cancelled env.cancels_before st₀ in
    run_step-lift T step env st₀ (λ _. tt) (passed_over-Blamed step env st w)
      (λ _.
        execute_step-lift T step env st tt (λ _ _. tt)
          (λ v.
            after_step-Blamed step env v (called step env st) w
              (called-Blamed step env st (mark_cancelled-Blamed env.cancels_before st₀ b₀))))
  where
    T : Step → Type 0
    T = Stepped Blamed (λ _. Unit)

stopped :
    (s : Step) → Stepped Blamed (λ _. Unit) s → Stepped Blamed (λ st. false ≡ true → Blamed st) s
stopped (returns st) t = λ e. cc
stopped (continues st) b = b

-- After a loop through all steps.
pub run_steps-Blamed :
    (steps : List (Fields × StepEnv)) (st : State)
    → All IsWritten steps
    → (IsFine st.rows → st.deviated_or_failed ≡ [])
    → (run_steps steps st).1 ≡ true
    → IsFine (run_steps steps st).0.rows
    → (run_steps steps st).0.deviated_or_failed ≡ []
unfolding run_steps
run_steps-Blamed [] st w b = λ e. b
run_steps-Blamed ((step, env) ∷ steps) st (w, ws) b =
    follow-Stepped Blamed (λ r. r.1 ≡ true → Blamed r.0) (run_step step env st) (run_steps steps)
      (stopped (run_step step env st) (run_step-Blamed step env st w b))
      (λ st' b'. run_steps-Blamed steps st' ws b')
