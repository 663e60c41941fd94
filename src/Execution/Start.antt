-- ===== src/Execution/Start.antt =====
-- `StartExecution` of backend/internal/handlers/execution_handlers.go, for one work item: its checks,
-- which only read, and what it writes before the orchestrator is launched.
use forge_engine.Prelude.{
  String, Bool, true, false, ◌&&◌, not, Option, none, some, List, ◌∷◌, if◌then◌else◌, ◌==◌, Bytes,
  nat_eq,
}
use forge_engine.WorkItem.{
  WorkItem, plan_approved, Approval, pending_review, approved, auto_approved, blocked,
  changes_requested, index, transition_to_executing,
}
use forge_engine.Workspace.{
  WorkspaceStatus, provisioning, ready, executing, completed, failed, timed_out, killed, destroying,
  destroyed,
}
use forge_engine.Execution.{ExecStatus, pending}

pub record State : Type 0 where
  pub item : WorkItem
  -- The status of the item's newest workspace, and the body of its active plan.
  pub workspace : Option WorkspaceStatus
  pub plan : Option Bytes
  -- The executions of the item, and those whose orchestrator was launched, newest first.
  pub executions : List (String × ExecStatus)
  pub launched : List String

-- Whether the queries and statements run.
pub record StartEnv : Type 0 where
  pub item_ok : Bool
  pub workspace_ok : Bool
  pub plan_ok : Bool
  pub create_ok : Bool
  pub transition_ok : Bool

pub data Response : Type 0 where
  task_not_found must_be_approved must_be_plan_approved workspace_required no_active_plan
        create_failed started :
      Response

abbrev pub is_approved : Approval → Bool
is_approved approved = true
is_approved auto_approved = true
is_approved pending_review = false
is_approved blocked = false
is_approved changes_requested = false

abbrev pub is_ready : Option WorkspaceStatus → Bool
is_ready none = false
is_ready (some ready) = true
is_ready (some provisioning) = false
is_ready (some executing) = false
is_ready (some completed) = false
is_ready (some failed) = false
is_ready (some timed_out) = false
is_ready (some killed) = false
is_ready (some destroying) = false
is_ready (some destroyed) = false

abbrev pub is_present : Option Bytes → Bool
is_present none = false
is_present (some body) = true

-- The checks; no response lets the request pass.
unfoldable pub check_start : StartEnv → String → State → Option Response
check_start env org_id st =
    if not (env.item_ok && st.item.org_id == org_id)
    then some task_not_found
    else if not (is_approved st.item.approval_status)
    then some must_be_approved
    else if not (nat_eq (index st.item.status) (index plan_approved))
    then some must_be_plan_approved
    else if not (env.workspace_ok && is_ready st.workspace)
    then some workspace_required
    else if not (env.plan_ok && is_present st.plan)
    then some no_active_plan
    else none

-- From the new execution on; `id` is its id.
unfoldable pub launch : StartEnv → String → State → State × Response
unfolding transition_to_executing
launch env id st =
    if env.create_ok
    then (
      record st {
        executions = (id, pending) ∷ st.executions;
        item = (transition_to_executing env.transition_ok st.item).0;
        launched = id ∷ st.launched;
      },
      started,
    )
    else (st, create_failed)

-- `StartExecution`, undisturbed.
unfoldable pub start_execution : StartEnv → String → String → State → State × Response
unfolding check_start launch
start_execution env org_id id st = elim (check_start env org_id st) [
  | some r ↦ (st, r)
  | none ↦ launch env id st
]
