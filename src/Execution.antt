-- ===== src/Execution.antt =====
-- The execution loop of backend/internal/execution/orchestrator.go: the steps of a plan, in the order
-- of the module Plan, each given to the agent unless a dependency did not succeed. Texts of events
-- are lists of bytes. What comes from outside is an argument: the agent's events, the cancel
-- requests, and whether each statement of the database ran. Logs, events for clients, tokens and
-- the counts of the final message are left out.
pub mod Policy
pub mod Start
pub mod Starting
pub mod Artifacts
pub mod Rounds
pub mod Blocking
pub mod Outcome
pub mod Records
pub mod Blame
use forge_engine.Prelude.{
  String, Bool, true, false, ◌&&◌, ◌||◌, not, Option, none, some, List, [], ◌∷◌, ◌++◌,
  if◌then◌else◌, ◌==◌, contains, Bytes, bytes, bytes_eq, has_prefix, trim_prefix,
}
use forge_engine.Json.{Fields}
use forge_engine.Plan.{stable_id, dep_stable_ids}

pub data ExecStatus : Type 0 where
  pending running completed completed_with_deviations failed cancelled : ExecStatus

pub data StepStatus : Type 0 where
  step_pending step_running step_completed step_deviated step_failed step_skipped : StepStatus

-- A row of `step_executions`.
pub record StepExecution : Type 0 where
  pub step_stable_id : String
  pub status : StepStatus

-- An event of the agent, as far as `handleStepEvent` and the loop read it. A tool result has the
-- tool's name and the path of its arguments, if they hold one.
pub data ExecStreamEvent : Type 0 where
  reasoning plan_deviation requires_human execution_error step_complete : Bytes → ExecStreamEvent
  tool_call pipeline_error : ExecStreamEvent
  tool_result : String → Option Bytes → ExecStreamEvent

-- The variables of one step.
pub record StepVars : Type 0 where
  pub step_reasoning : Bytes
  pub deviation : Bytes
  pub modified : List Bytes
  pub created : List Bytes
  pub deleted : List Bytes
  pub has_pipeline_error : Bool

abbrev pub contains_bytes : List Bytes → Bytes → Bool
contains_bytes [] x = false
contains_bytes (y ∷ ys) x = bytes_eq y x || contains_bytes ys x

-- `appendUnique`
unfoldable pub append_unique : List Bytes → List Bytes → List Bytes
append_unique slice [] = slice
append_unique slice (s ∷ items) =
    append_unique (if contains_bytes slice s then slice else slice ++ (s ∷ [])) items

-- `normalizeWorkspacePath`
unfoldable pub normalize_workspace_path : Bytes → Bytes
unfolding trim_prefix
normalize_workspace_path p = trim_prefix (trim_prefix p (bytes "/workspace/")) (bytes "/workspace")

-- `trackArtifact`
unfoldable pub track_artifact : String → Option Bytes → StepVars → StepVars
unfolding append_unique normalize_workspace_path
track_artifact tool none v = v
track_artifact tool (some path) v =
    let p = normalize_workspace_path path in
    if tool == "write_file"
    then record v { modified = append_unique v.modified (p ∷ []) }
    else if tool == "create_file"
    then record v { created = append_unique v.created (p ∷ []) }
    else if tool == "delete_file"
    then record v { deleted = append_unique v.deleted (p ∷ []) }
    else v

abbrev pub join_lines : Bytes → Bytes → Bytes
join_lines [] m = m
join_lines (c ∷ cs) m = (c ∷ cs) ++ (10 ∷ m)

-- `handleStepEvent`, and the callback's own test for an error event.
unfoldable pub handle_step_event : ExecStreamEvent → StepVars → StepVars
unfolding track_artifact
handle_step_event (reasoning m) v = record v { step_reasoning = join_lines v.step_reasoning m }
handle_step_event (plan_deviation m) v = record v { deviation = m }
handle_step_event (requires_human m) v = record v { deviation = bytes "requires_human: " ++ m }
handle_step_event (execution_error m) v = record v { deviation = bytes "execution_error: " ++ m }
handle_step_event (step_complete summary) v = elim summary [
  | [] ↦ v
  | c ∷ cs ↦ record v { step_reasoning = c ∷ cs }
]
handle_step_event tool_call v = v
handle_step_event pipeline_error v = record v { has_pipeline_error = true }
handle_step_event (tool_result tool path) v = track_artifact tool path v

unfoldable pub handle_events : List ExecStreamEvent → StepVars → StepVars
unfolding handle_step_event
handle_events [] v = v
handle_events (e ∷ es) v = handle_events es (handle_step_event e v)

-- What one round of the loop meets.
pub record StepEnv : Type 0 where
  -- A cancel request arrives before the poll, or while the step runs.
  pub cancels_before : Bool
  pub cancels_during : Bool
  pub poll_ok : Bool
  pub create_ok : Bool
  pub sign_ok : Bool
  pub events : List ExecStreamEvent
  pub stream_ok : Bool
  -- Whether the updates of the step's row and of the execution's row run.
  pub step_ok : Bool
  pub exec_ok : Bool

pub record State : Type 0 where
  pub status : ExecStatus
  -- The keys of `deviatedOrFailed`, and the steps given to the agent, newest first.
  pub deviated_or_failed : List String
  pub executed : List Fields
  pub rows : List StepExecution
  pub modified_files : List Bytes
  pub created_files : List Bytes
  pub deleted_files : List Bytes

-- The status updates of the execution's row; all but one name the row alone.
unfoldable pub mark : Bool → ExecStatus → State → State
mark db new st = if db then record st { status = new } else st

abbrev pub is_cancellable : ExecStatus → Bool
is_cancellable pending = true
is_cancellable running = true
is_cancellable completed_with_deviations = true
is_cancellable completed = false
is_cancellable failed = false
is_cancellable cancelled = false

abbrev pub is_cancelled : ExecStatus → Bool
is_cancelled cancelled = true
is_cancelled pending = false
is_cancelled running = false
is_cancelled completed_with_deviations = false
is_cancelled completed = false
is_cancelled failed = false

unfoldable pub mark_cancelled : Bool → State → State
mark_cancelled db st =
    if db && is_cancellable st.status then record st { status = cancelled } else st

-- `findBlockingDep`, where `none` is the empty string.
unfoldable pub first_blocking : List String → List String → Option String
unfolding contains
first_blocking deviated [] = none
first_blocking deviated (d ∷ deps) =
    let rest = first_blocking deviated deps in
    if contains deviated d then (if d == "" then none else some d) else rest

unfoldable pub find_blocking_dep : Fields → List String → Option String
unfolding first_blocking dep_stable_ids
find_blocking_dep step deviated = first_blocking deviated (dep_stable_ids step)

-- The row of a step that was given to the agent, and whether it blocks the steps that need it.
unfoldable pub classify : Bytes → StepStatus × Bool
unfolding has_prefix
classify [] = (step_completed, false)
classify (c ∷ cs) =
    let deviation = c ∷ cs in
    if has_prefix deviation (bytes "execution_error:")
    then (step_failed, true)
    else if has_prefix deviation (bytes "requires_human:")
    then (step_deviated, true)
    else if has_prefix deviation (bytes "already_satisfied:")
    then (step_completed, false)
    else (step_deviated, true)

abbrev pub add_row : String → StepStatus → State → State
add_row sid status st = record st {
  rows = record { step_stable_id = sid; status = status } ∷ st.rows;
}

-- The round ends the run, or the loop goes on.
pub data Step : Type 0 where
  returns continues : State → Step

-- From the end of the agent's stream on.
unfoldable pub finish_step : Fields → StepEnv → StepVars → State → Step
unfolding mark classify append_unique
finish_step step env v st =
    let sid = stable_id step in
    let (status, blocks) = classify v.deviation in
    let st' = add_row sid (if env.step_ok then status else step_running) st in
    if v.has_pipeline_error || not env.stream_ok
    then returns (
        mark env.exec_ok failed
          (add_row sid (if env.step_ok then step_failed else step_running) st))
    else continues (record st' {
      deviated_or_failed = if blocks then sid ∷ st.deviated_or_failed else st.deviated_or_failed;
      modified_files = append_unique st.modified_files v.modified;
      created_files = append_unique st.created_files v.created;
      deleted_files = append_unique st.deleted_files v.deleted;
    })

abbrev pub no_vars : StepVars
no_vars = record {
  step_reasoning = [];
  deviation = [];
  modified = [];
  created = [];
  deleted = [];
  has_pipeline_error = false;
}

-- A step without a blocking dependency.
unfoldable pub execute_step : Fields → StepEnv → State → Step
unfolding mark handle_events finish_step mark_cancelled
execute_step step env st =
    let st' = mark_cancelled env.cancels_during (record st { executed = step ∷ st.executed }) in
    let failed_row =
      add_row (stable_id step) (if env.step_ok then step_failed else step_running) st in
    if not env.create_ok
    then returns (mark env.exec_ok failed st)
    else if not env.sign_ok
    then returns (mark env.exec_ok failed failed_row)
    else finish_step step env (handle_events env.events no_vars) st'

-- A step with one.
unfoldable pub skip_step : Fields → StepEnv → State → Step
skip_step step env st =
    let st' =
      if env.create_ok
      then add_row (stable_id step) (if env.step_ok then step_skipped else step_pending) st
      else st in
    continues (record st' { deviated_or_failed = stable_id step ∷ st'.deviated_or_failed })

unfoldable pub run_step : Fields → StepEnv → State → Step
unfolding mark_cancelled find_blocking_dep execute_step skip_step
run_step step env st₀ =
    let st = mark_cancelled env.cancels_before st₀ in
    if env.poll_ok && is_cancelled st.status
    then returns (mark_cancelled env.exec_ok st)
    else elim (find_blocking_dep step st.deviated_or_failed) [
      | some dep ↦ skip_step step env st
      | none ↦ execute_step step env st
    ]

-- The loop; the result says whether every step was reached.
abbrev pub follow : Step → (State → State × Bool) → State × Bool
follow (returns st) next = (st, false)
follow (continues st) next = next st

unfoldable pub run_steps : List (Fields × StepEnv) → State → State × Bool
unfolding run_step
run_steps [] st = (st, true)
run_steps ((step, env) ∷ steps) st = follow (run_step step env st) (run_steps steps)

abbrev pub final_status : List String → ExecStatus
final_status [] = completed
final_status (sid ∷ sids) = completed_with_deviations

-- From the loop on: the last update, and whether the validation is triggered.
unfoldable pub run_execution : List (Fields × StepEnv) → Bool → State → State × Bool
unfolding run_steps mark
run_execution steps exec_ok st₀ =
    let (st, finished) = run_steps steps st₀ in
    if finished then (mark exec_ok (final_status st.deviated_or_failed) st, true) else (st, false)
