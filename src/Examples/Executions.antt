-- ===== src/Examples/Executions.antt =====
-- Executions of two steps, and the theorems on them.
use forge_engine.Prelude.{
  ◌≡◌, ◌⊎◌, refl, true, false, some, none, List, [], ◌∷◌, String, All, contains, bytes,
}
use forge_engine.Json.{Fields, str, arr, end, field, of_strings}
use forge_engine.Plan.{stable_id, dep_stable_ids}
use forge_engine.Execution.{
  StepEnv, State, running, completed_with_deviations, failed, cancelled, execution_error,
  tool_result, run_execution,
}
use forge_engine.Execution.Policy.{validate, phase7_policy}
use forge_engine.Execution.Records.{run_execution-IsSound, IsSound}
use forge_engine.Execution.Outcome.{EndsAs, run_execution-ends}
use forge_engine.WorkItem
use forge_engine.Workspace
use forge_engine.Execution.Start
use forge_engine.Execution.Starting.{Starts, start_execution-Starts, launched_twice}

abbrev step : String → List String → Fields
step stable deps =
    field "_dep_stable_ids" (arr (of_strings deps)) (field "stable_id" (str stable) end)

abbrev fails : StepEnv
fails = record {
  cancels_before = false;
  cancels_during = false;
  poll_ok = true;
  create_ok = true;
  sign_ok = true;
  events =
      tool_result "write_file" (some (bytes "/workspace/a.go"))
      ∷ execution_error (bytes "no tool")
      ∷ [];
  stream_ok = true;
  step_ok = true;
  exec_ok = true;
}

-- The second step needs the first, and the user cancels while the third runs.
abbrev steps : List (Fields × StepEnv)
steps =
    (step "code" [], fails)
    ∷ (step "tests" ("code" ∷ []), fails)
    ∷ (step "docs" [], record fails { cancels_during = true; events = [] })
    ∷ []

abbrev start : State
start = record {
  status = running;
  deviated_or_failed = [];
  executed = [];
  rows = [];
  modified_files = [];
  created_files = [];
  deleted_files = [];
}

steps_run : (run_execution steps true start).0.executed ≡ step "docs" [] ∷ step "code" [] ∷ []
unfolding run_execution of_strings stable_id
steps_run = refl

-- The cancel is lost: the execution ends as completed with deviations.
cancel_lost : (run_execution steps true start).0.status ≡ completed_with_deviations
unfolding run_execution of_strings stable_id
cancel_lost = refl

run_execution-IsSound_example :
    let (st, triggered) = run_execution steps true start in
    All (IsSound triggered st.rows) st.executed
unfolding stable_id contains dep_stable_ids of_strings
run_execution-IsSound_example =
    run_execution-IsSound steps true start (tt, refl, ((refl, tt), refl, (tt, refl, tt)))
      (refl, (refl, (refl, tt))) refl refl

run_execution-ends_example :
    let (st, triggered) = run_execution steps true start in
    ((triggered ≡ true) × EndsAs steps st.deviated_or_failed st.rows st.status)
    ⊎ ((triggered ≡ false) × ((st.status ≡ failed) ⊎ (st.status ≡ cancelled)))
run_execution-ends_example =
    run_execution-ends steps true start refl (refl, (refl, (refl, tt))) refl refl

-- A sibling of the workspace is let through.
sibling_allowed : validate phase7_policy "write_file" (bytes "/workspace-old/a") ≡ none
unfolding validate
sibling_allowed = refl

abbrev startable : Start.State
startable = record {
  item = record {
    org_id = "org";
    intent = "Fix";
    status = WorkItem.plan_approved;
    approval_status = WorkItem.approved;
    error = none;
  };
  workspace = some Workspace.ready;
  plan = some (bytes "{}");
  executions = [];
  launched = [];
}

abbrev all_run : Start.StartEnv
all_run = record {
  item_ok = true;
  workspace_ok = true;
  plan_ok = true;
  create_ok = true;
  transition_ok = true;
}

start_test : (Start.start_execution all_run "org" "e1" startable).0.launched ≡ "e1" ∷ []
unfolding Start.start_execution
start_test = refl

start_execution-Starts_example :
    Starts all_run "other" "e1" startable (Start.start_execution all_run "other" "e1" startable)
start_execution-Starts_example = start_execution-Starts all_run "other" "e1" startable

launched_twice_example :
    ((Start.start_execution all_run "org" "e2"
        (Start.start_execution all_run "org" "e1" startable).0).0.launched
      ≡ "e1" ∷ [])
    × ((Start.launch all_run "e2" (Start.launch all_run "e1" startable).0).0.launched
        ≡ "e2" ∷ "e1" ∷ [])
unfolding Start.check_start
launched_twice_example =
    launched_twice all_run all_run "org" "e1" "e2" startable refl refl refl refl refl
