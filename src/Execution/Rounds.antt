-- ===== src/Execution/Rounds.antt =====
-- Ways to prove something of the execution loop: by the exits of a round, and by an invariant.
use forge_engine.Prelude.{
  ◌≡◌, refl, String, ◌&&◌, Bool, true, false, not, ◌||◌, Option, none, some, ◌∷◌, if-lift, ◌⊎◌, inl,
  inr, if◌then◌else◌,
}
use forge_engine.Json.{Fields}
use forge_engine.Plan.{stable_id}
use forge_engine.Execution.{
  failed, StepStatus, step_running, step_failed, step_pending, step_skipped, StepEnv, StepVars,
  State, Step, returns, continues, follow, mark, is_cancelled, mark_cancelled, find_blocking_dep,
  finish_step, execute_step, skip_step, run_step, handle_events, no_vars, classify, add_row,
  append_unique,
}

-- The state after a step that the agent has finished.
unfoldable pub after_step : Fields → StepEnv → StepVars → State → State
unfolding classify append_unique
after_step step env v st =
    let (status, blocks) = classify v.deviation in
    record (add_row (stable_id step) (if env.step_ok then status else step_running) st) {
      deviated_or_failed =
          if blocks then stable_id step ∷ st.deviated_or_failed else st.deviated_or_failed;
      modified_files = append_unique st.modified_files v.modified;
      created_files = append_unique st.created_files v.created;
      deleted_files = append_unique st.deleted_files v.deleted;
    }

-- The state in which the agent is called.
unfoldable pub called : Fields → StepEnv → State → State
unfolding mark_cancelled
called step env st = mark_cancelled env.cancels_during (record st { executed = step ∷ st.executed })

pub execute_step-lift :
    (T : Step → Type 0) (step : Fields) (env : StepEnv) (st : State)
    → T (returns (mark env.exec_ok failed st))
    → ((st' : State)
        → (st' ≡ st) ⊎ (st' ≡ called step env st)
        → T (
            returns (
              mark env.exec_ok failed (
                add_row (stable_id step) (if env.step_ok then step_failed else step_running) st'))))
    → ((v : StepVars) → T (continues (after_step step env v (called step env st))))
    → T (execute_step step env st)
unfolding execute_step finish_step after_step called
execute_step-lift T step env st not_created broken done =
    if-lift T (not env.create_ok) (returns (mark env.exec_ok failed st))
      (if not env.sign_ok
        then returns (mark env.exec_ok failed failed_row)
        else finish_step step env v (called step env st))
      (λ _. not_created)
      (λ _.
        if-lift T (not env.sign_ok) (returns (mark env.exec_ok failed failed_row))
          (finish_step step env v (called step env st)) (λ _. broken st (inl refl))
          (λ _.
            if-lift T (v.has_pipeline_error || not env.stream_ok)
              (returns
                (mark env.exec_ok failed (add_row (stable_id step) status (called step env st))))
              (continues (after_step step env v (called step env st)))
              (λ _. broken (called step env st) (inr refl)) (λ _. done v)))
  where
    v : StepVars
    v = handle_events env.events no_vars

    status : StepStatus
    status = if env.step_ok then step_failed else step_running

    failed_row : State
    failed_row = add_row (stable_id step) status st

-- A step that is passed over.
unfoldable pub passed_over : Fields → StepEnv → State → State
passed_over step env st =
    let st' =
      if env.create_ok
      then add_row (stable_id step) (if env.step_ok then step_skipped else step_pending) st
      else st in
    record st' { deviated_or_failed = stable_id step ∷ st'.deviated_or_failed }

pub run_step-lift :
    (T : Step → Type 0) (step : Fields) (env : StepEnv) (st : State)
    → let st' = mark_cancelled env.cancels_before st in
      ((env.poll_ok && is_cancelled st'.status) ≡ true
        → T (returns (mark_cancelled env.exec_ok st')))
      → T (continues (passed_over step env st'))
      → (find_blocking_dep step st'.deviated_or_failed ≡ none → T (execute_step step env st'))
      → T (run_step step env st)
unfolding run_step skip_step passed_over
run_step-lift T step env st stopped skipped go =
    if-lift T (env.poll_ok && is_cancelled st'.status) (returns (mark_cancelled env.exec_ok st'))
      (branch (find_blocking_dep step st'.deviated_or_failed)) stopped
      (λ _. by_dep (find_blocking_dep step st'.deviated_or_failed) go)
  where
    st' : State
    st' = mark_cancelled env.cancels_before st

    branch : Option String → Step
    branch o = elim o [ some dep ↦ skip_step step env st' | none ↦ execute_step step env st' ]

    by_dep : (o : Option String) → (o ≡ none → T (execute_step step env st')) → T (branch o)
    by_dep none h = h refl
    by_dep (some d) h = skipped

-- A family on the outcomes of a step: what holds when it returns, and what when the loop goes on.
abbrev pub Stepped : (State → Type 0) → (State → Type 0) → Step → Type 0
Stepped P Q (returns st) = Q st
Stepped P Q (continues st) = P st

pub follow-Stepped :
    (P : State → Type 0) (Q : State × Bool → Type 0) (s : Step) (next : State → State × Bool)
    → Stepped P (λ st. Q (st, false)) s
    → ((st : State) → P st → Q (next st))
    → Q (follow s next)
follow-Stepped P Q (returns st) next q rest = q
follow-Stepped P Q (continues st) next q rest = rest st q
