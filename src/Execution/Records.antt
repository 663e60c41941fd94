-- ===== src/Execution/Records.antt =====
-- What the rows of the steps say at the end of Run of backend/internal/execution/orchestrator.go.
use forge_engine.Prelude.{
  ◌≡◌, refl, sym, subst, String, Bool, true, false, List, [], ◌∷◌, All, All-map, map, if-lift, ◌⊎◌,
  inl, inr, Bool-cases, if◌then◌else◌, ◌==◌, contains, contains_head, contains_tail, has_prefix,
  Bytes, bytes,
}
use forge_engine.Json.{Fields}
use forge_engine.Plan.{stable_id, dep_stable_ids}
use forge_engine.Plan.Order.{InOrder}
use forge_engine.Execution.{
  ExecStatus, failed, StepStatus, step_pending, step_running, step_completed, step_deviated,
  step_failed, step_skipped, StepExecution, StepEnv, StepVars, State, Step, mark, mark_cancelled,
  classify, add_row, run_step, run_steps, run_execution,
}
use forge_engine.Execution.Rounds.{
  after_step, called, passed_over, execute_step-lift, Stepped, follow-Stepped, run_step-lift,
}
use forge_engine.Execution.Blocking.{IsUnblocked, run_execution-IsUnblocked}

-- Whether a row says that its step did not succeed. A failed row counts only if the loop went on
-- after it: the run that ends with its step has nothing left to block.
abbrev pub not_succeeded : Bool → StepStatus → Bool
not_succeeded went_on step_deviated = true
not_succeeded went_on step_skipped = true
not_succeeded went_on step_failed = went_on
not_succeeded went_on step_pending = false
not_succeeded went_on step_running = false
not_succeeded went_on step_completed = false

-- A row whose step did not succeed is among the keys.
abbrev IsKept : Bool → List String → StepExecution → Type 0
IsKept went_on keys row =
    not_succeeded went_on row.status ≡ true → contains keys row.step_stable_id ≡ true

abbrev Kept : Bool → State → Type 0
Kept went_on st = All (IsKept went_on st.deviated_or_failed) st.rows

weaker : (s : StepStatus) → not_succeeded false s ≡ true → not_succeeded true s ≡ true
weaker step_deviated h = refl
weaker step_skipped h = refl
weaker step_failed h = cc
weaker step_pending h = cc
weaker step_running h = cc
weaker step_completed h = cc

Kept-weaker : (st : State) → Kept true st → Kept false st
Kept-weaker st k = All-map _ _ st.rows (λ row f h. f (weaker row.status h)) k

Kept-more :
    (sid : String) (b : Bool) (keys : List String) (rows : List StepExecution)
    → All (IsKept true keys) rows
    → All (IsKept true (if b then sid ∷ keys else keys)) rows
Kept-more sid false keys rows k = k
Kept-more sid true keys rows k =
    All-map _ _ rows (λ row f h. contains_tail sid row.step_stable_id keys (f h)) k

classify_tests :
    (e h s : Bool)
    → let r : StepStatus × Bool =
        if e
        then (step_failed, true)
        else if h
        then (step_deviated, true)
        else if s
        then (step_completed, false)
        else (step_deviated, true) in
      not_succeeded true r.0 ≡ true → r.1 ≡ true
classify_tests true h s n = refl
classify_tests false true s n = refl
classify_tests false false true n = cc
classify_tests false false false n = refl

classify_blocks : (d : Bytes) → not_succeeded true (classify d).0 ≡ true → (classify d).1 ≡ true
unfolding classify
classify_blocks [] h = cc
classify_blocks (c ∷ cs) h =
    classify_tests (has_prefix (c ∷ cs) (bytes "execution_error:"))
      (has_prefix (c ∷ cs) (bytes "requires_human:"))
      (has_prefix (c ∷ cs) (bytes "already_satisfied:")) h

mark-Kept :
    (went_on db : Bool) (s : ExecStatus) (st : State)
    → Kept went_on st
    → Kept went_on (mark db s st)
unfolding mark
mark-Kept went_on db s st k = if-lift (Kept went_on) db _ st (λ _. k) (λ _. k)

mark_cancelled-Kept :
    (went_on db : Bool) (st : State) → Kept went_on st → Kept went_on (mark_cancelled db st)
unfolding mark_cancelled
mark_cancelled-Kept went_on db st k = if-lift (Kept went_on) _ _ st (λ _. k) (λ _. k)

called-Kept :
    (step : Fields) (env : StepEnv) (st : State) → Kept true st → Kept true (called step env st)
unfolding called
called-Kept step env st k = mark_cancelled-Kept true env.cancels_during _ k

passed_over-Kept :
    (step : Fields) (env : StepEnv) (st : State)
    → Kept true st
    → Kept true (passed_over step env st)
unfolding passed_over
passed_over-Kept step env st k =
    if-lift (λ (s : State). All (IsKept true (stable_id step ∷ s.deviated_or_failed)) s.rows)
      env.create_ok _ st (λ _. ((λ h. contains_head sid keys), Kept-more sid true keys st.rows k))
      (λ _. Kept-more sid true keys st.rows k)
  where
    sid : String
    sid = stable_id step

    keys : List String
    keys = st.deviated_or_failed

after_step-Kept :
    (step : Fields) (env : StepEnv) (v : StepVars) (st : State)
    → Kept true st
    → Kept true (after_step step env v st)
unfolding after_step
after_step-Kept step env v st k = (here, Kept-more sid blocks st.deviated_or_failed st.rows k)
  where
    sid : String
    sid = stable_id step

    blocks : Bool
    blocks = (classify v.deviation).1

    status : StepStatus
    status = (classify v.deviation).0

    written :
        (ok : Bool)
        → not_succeeded true (if ok then status else step_running) ≡ true
        → blocks ≡ true
    written true h = classify_blocks v.deviation h
    written false h = cc

    here :
        not_succeeded true (if env.step_ok then status else step_running) ≡ true
        → contains (if blocks then sid ∷ st.deviated_or_failed else st.deviated_or_failed) sid
          ≡ true
    here h =
        subst
          (λ b.
            contains (if b then sid ∷ st.deviated_or_failed else st.deviated_or_failed) sid ≡ true)
          (sym (written env.step_ok h)) (contains_head sid st.deviated_or_failed)

-- A run that ends with a failed step adds one failed row, which does not count.
failed_row-Kept :
    (step : Fields) (ok : Bool) (st : State)
    → Kept true st
    → Kept false (add_row (stable_id step) (if ok then step_failed else step_running) st)
failed_row-Kept step true st k = ((λ h. cc), Kept-weaker st k)
failed_row-Kept step false st k = ((λ h. cc), Kept-weaker st k)

run_step-Kept :
    (step : Fields) (env : StepEnv) (st : State)
    → Kept true st
    → Stepped (Kept true) (Kept false) (run_step step env st)
run_step-Kept step env st₀ k₀ =
    run_step-lift T step env st₀ (λ _. mark_cancelled-Kept false env.exec_ok st (Kept-weaker st k))
      (passed_over-Kept step env st k)
      (λ _.
        execute_step-lift T step env st (mark-Kept false env.exec_ok failed st (Kept-weaker st k))
          (λ st' e.
            mark-Kept false env.exec_ok failed (add_row (stable_id step) _ st') (either st' e))
          (λ v. after_step-Kept step env v (called step env st) (called-Kept step env st k)))
  where
    T : Step → Type 0
    T = Stepped (Kept true) (Kept false)

    st : State
    st = mark_cancelled env.cancels_before st₀

    k : Kept true st
    k = mark_cancelled-Kept true env.cancels_before st₀ k₀

    Failed : State → Type 0
    Failed st' =
        Kept false
          (add_row (stable_id step) (if env.step_ok then step_failed else step_running) st')

    either : (st' : State) → (st' ≡ st) ⊎ (st' ≡ called step env st) → Failed st'
    either st' (inl e) = subst Failed (sym e) (failed_row-Kept step env.step_ok st k)
    either st' (inr e) =
        subst Failed (sym e)
          (failed_row-Kept step env.step_ok (called step env st) (called-Kept step env st k))

run_steps-Kept :
    (steps : List (Fields × StepEnv)) (st : State)
    → Kept true st
    → Kept (run_steps steps st).1 (run_steps steps st).0
unfolding run_steps
run_steps-Kept [] st k = k
run_steps-Kept ((step, env) ∷ steps) st k =
    follow-Stepped (Kept true) (λ r. Kept r.1 r.0) (run_step step env st) (run_steps steps)
      (run_step-Kept step env st k) (λ st' k'. run_steps-Kept steps st' k')

run_execution-Kept :
    (steps : List (Fields × StepEnv)) (exec_ok : Bool) (st : State)
    → Kept true st
    → Kept (run_execution steps exec_ok st).1 (run_execution steps exec_ok st).0
unfolding run_execution
run_execution-Kept steps exec_ok st k = elim (Bool-cases (run_steps steps st).1) [
  | inl y ↦ rw y (
      mark-Kept true exec_ok _ (run_steps steps st).0
        (subst (λ b. Kept b (run_steps steps st).0) y (run_steps-Kept steps st k)))
  | inr n ↦ rw n (subst (λ b. Kept b (run_steps steps st).0) n (run_steps-Kept steps st k))
]

-- No row says that its step did not succeed.
abbrev pub IsFine : List StepExecution → Type 0
IsFine rows = All (λ (row : StepExecution). not_succeeded true row.status ≡ false) rows

Kept-IsFine : (rows : List StepExecution) → All (IsKept true []) rows → IsFine rows
unfolding contains
Kept-IsFine rows k =
    All-map _ _ rows
      (λ row kept. elim (Bool-cases (not_succeeded true row.status)) [
        | inl y ↦ cc (kept y)
        | inr n ↦ n
      ])
      k

-- A loop through all steps that kept no key has no row of a step that did not succeed.
pub run_steps-IsFine :
    (steps : List (Fields × StepEnv)) (st : State)
    → st.rows ≡ []
    → (run_steps steps st).1 ≡ true
    → (run_steps steps st).0.deviated_or_failed ≡ []
    → IsFine (run_steps steps st).0.rows
run_steps-IsFine steps st r went_on none_kept = Kept-IsFine _ (
    subst (λ keys. All (IsKept true keys) (run_steps steps st).0.rows) none_kept
      (subst (λ b. Kept b (run_steps steps st).0) went_on (run_steps-Kept steps st (rw r tt))))

-- The step depends on no step whose row says that it did not succeed.
abbrev pub IsSound : Bool → List StepExecution → Fields → Type 0
IsSound went_on rows step =
    All
      (λ (row : StepExecution).
        not_succeeded went_on row.status ≡ true
        → contains (dep_stable_ids step) row.step_stable_id ≡ false)
      rows

IsUnblocked-IsSound :
    (went_on : Bool) (keys : List String) (rows : List StepExecution) (step : Fields)
    → All (IsKept went_on keys) rows
    → IsUnblocked keys step
    → IsSound went_on rows step
IsUnblocked-IsSound went_on keys rows step k u =
    All-map _ _ rows
      (λ row kept h. elim (Bool-cases (contains (dep_stable_ids step) row.step_stable_id)) [
        | inl y ↦ absurd (cc (kept h, u row.step_stable_id y))
        | inr n ↦ n
      ])
      k

-- However an execution of steps in dependency order ends, no step was given to the agent that
-- depends on a step whose row says that it deviated, was skipped or, if the run went through all
-- steps, failed. Every step has a stable id that is not empty, and the run begins without rows.
pub run_execution-IsSound :
    (steps : List (Fields × StepEnv)) (exec_ok : Bool) (st : State)
    → InOrder [] (map (λ (p : Fields × StepEnv). p.0) steps)
    → All (λ (p : Fields × StepEnv). (stable_id p.0 == "") ≡ false) steps
    → st.executed ≡ []
    → st.rows ≡ []
    → let (st', triggered) = run_execution steps exec_ok st in
      All (IsSound triggered st'.rows) st'.executed
run_execution-IsSound steps exec_ok st o n e r =
    let st' = (run_execution steps exec_ok st).0 in
    All-map _ _ st'.executed
      (λ step u.
        IsUnblocked-IsSound _ st'.deviated_or_failed st'.rows step
          (run_execution-Kept steps exec_ok st (rw r tt)) u)
      (run_execution-IsUnblocked steps exec_ok st o n e)
