-- ===== src/Publishing/Run.antt =====
-- `Run` of backend/internal/publishing/orchestrator.go, and the test of `StartPublish`
-- (backend/internal/publishing/handlers.go) for a session that is there.
use forge_engine.Prelude.{String, Bool, Option, none, some, List, [], ◌∷◌}
use forge_engine.WorkItem.{transition_to_done}
use forge_engine.Publishing.Rows.{
  State, SessionStatus, pending, verifying, branching, committing, conflict_check, pushing,
  creating_pr, syncing, completed, failed, cancelled, update_session_step, mark_session_completed,
  mark_session_failed, name_or_empty, or_zero,
}
use forge_engine.Publishing.Steps.{
  Outcome, goes, stops, panics, hangs, PublishRequest, Env, verify_workspace, step_create_branch,
  step_create_commits,
}
use forge_engine.Publishing.Push.{
  step_check_conflicts, step_push_branch, step_create_pr, step_sync_github,
}

-- Whether the statements of `Run` itself run.
pub record RunEnv : Type 0 where
  pub step_ok : SessionStatus → Bool
  pub failed_ok : Bool
  pub completed_ok : Bool
  pub item_ok : Bool

pub data Ending : Type 0 where
  returns_nil : State → Ending
  returns_error : SessionStatus → String → State → Ending
  crashes waits : State → Ending

-- The new row, and the session in memory.
abbrev pub start_session : State → State
start_session st = record st {
  row = record {
    status = pending;
    current_step = none;
    branch_name = none;
    pr_number = none;
    pr_url = none;
    error_message = none;
  };
  branch_name = none;
  pr = none;
}

-- One round of the loop over the steps.
abbrev pub after_step : RunEnv → SessionStatus → (State → Ending) → Outcome → Ending
after_step db status next (goes st) = next st
after_step db status next (stops e st) =
    returns_error status e (mark_session_failed db.failed_ok status e st)
after_step db status next (panics st) = crashes st
after_step db status next (hangs st) = waits st

abbrev pub run_steps :
    RunEnv → List (SessionStatus × (State → Outcome)) → (State → Ending) → State → Ending
run_steps db [] finish st = finish st
run_steps db ((status, fn) ∷ steps) finish st =
    after_step db status (run_steps db steps finish)
      (fn (update_session_step (db.step_ok status) status st))

abbrev pub pipeline : Env → PublishRequest → List (SessionStatus × (State → Outcome))
pipeline env req =
    (verifying, verify_workspace env)
    ∷ (branching, step_create_branch env req)
    ∷ (committing, step_create_commits env req)
    ∷ (conflict_check, step_check_conflicts env req)
    ∷ (pushing, step_push_branch env req)
    ∷ (creating_pr, step_create_pr env)
    ∷ (syncing, step_sync_github env)
    ∷ []

-- After the steps.
abbrev pub finish_run : RunEnv → State → Ending
finish_run db st₀ =
    let st : State =
      mark_session_completed db.completed_ok (name_or_empty st₀.branch_name)
        (or_zero st₀.pr).pr_number (or_zero st₀.pr).url st₀ in
    returns_nil (record st { item = (transition_to_done db.item_ok st.item).0 })

-- `Run`, where the session is created.
unfoldable pub run_publishing : RunEnv → Env → PublishRequest → State → Ending
unfolding update_session_step mark_session_completed mark_session_failed verify_workspace
    step_create_branch step_create_commits step_check_conflicts step_push_branch step_create_pr
    step_sync_github transition_to_done
run_publishing db env req st = run_steps db (pipeline env req) (finish_run db) (start_session st)

pub data Answered : Type 0 where
  already_published conflict launches : Answered

-- The switch of `StartPublish` on the latest session.
unfoldable pub answer_publish : Option SessionStatus → Answered
answer_publish none = launches
answer_publish (some completed) = already_published
answer_publish (some failed) = launches
answer_publish (some cancelled) = launches
answer_publish (some _) = conflict
