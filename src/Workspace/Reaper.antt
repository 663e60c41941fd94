-- ===== src/Workspace/Reaper.antt =====
-- The end of a workspace: `Destroy` of backend/internal/workspace/manager.go, and the sweeps of
-- backend/internal/workspace/reaper.go.
use forge_engine.Prelude.{
  ℕ, ◌+◌, ◌*◌, String, Bool, true, false, ◌&&◌, ◌||◌, not, Option, none, some, List, [], ◌∷◌,
  if◌then◌else◌, ltb, ◌==◌,
}
use forge_engine.Workspace.{
  WorkspaceStatus, provisioning, ready, executing, completed, failed, timed_out, killed, destroying,
  destroyed, Workspace, Slot, LifecycleEvent, workspace_destroying, workspace_destroyed,
  mark_destroying, mark_destroyed, log_lifecycle, is_live,
}
use forge_engine.Workspace.Provision.{stop_container}

-- What the driver and the database answer while a workspace is checked.
pub record ReapEnv : Type 0 where
  pub log_ok : LifecycleEvent → Bool
  pub get_ok : Bool
  pub destroying_ok : Bool
  pub destroy_ok : Bool
  pub destroyed_ok : Bool
  -- Whether `Status` answers.
  pub status_ok : Bool

abbrev pub is_destroyed : WorkspaceStatus → Bool
is_destroyed destroyed = true
is_destroyed destroying = false
is_destroyed provisioning = false
is_destroyed ready = false
is_destroyed executing = false
is_destroyed completed = false
is_destroyed failed = false
is_destroyed timed_out = false
is_destroyed killed = false

abbrev pub driver_destroy : Bool → Option String → Slot → Slot
driver_destroy ok none st = st
driver_destroy true (some c) st = record st { running = stop_container c st.running }
driver_destroy false (some c) st = st

-- The steps of `Destroy` after its checks.
unfoldable pub destroy_steps : ReapEnv → Slot → Slot
unfolding log_lifecycle mark_destroying mark_destroyed
destroy_steps env st =
    let st₁ = log_lifecycle (env.log_ok workspace_destroying) workspace_destroying st in
    let st₂ = mark_destroying env.destroying_ok st₁ in
    let st₃ = driver_destroy env.destroy_ok st.row.container_id st₂ in
    log_lifecycle (env.log_ok workspace_destroyed) workspace_destroyed
      (mark_destroyed env.destroyed_ok st₃)

-- `Destroy`; the result says whether it returned an error.
unfoldable pub destroy : ReapEnv → Slot → Slot × Bool
unfolding destroy_steps
destroy env st =
    if not env.get_ok
    then (st, true)
    else if is_destroyed st.row.status
    then (st, false)
    else (destroy_steps env st, false)

abbrev pub second : ℕ
second = 1000000000

abbrev pub is_provisioning : WorkspaceStatus → Bool
is_provisioning provisioning = true
is_provisioning destroyed = false
is_provisioning destroying = false
is_provisioning ready = false
is_provisioning executing = false
is_provisioning completed = false
is_provisioning failed = false
is_provisioning timed_out = false
is_provisioning killed = false

abbrev pub is_completed : WorkspaceStatus → Bool
is_completed completed = true
is_completed provisioning = false
is_completed destroyed = false
is_completed destroying = false
is_completed ready = false
is_completed executing = false
is_completed failed = false
is_completed timed_out = false
is_completed killed = false

abbrev pub runs : String → List String → Bool
runs c [] = false
runs c (d ∷ ds) = d == c || runs c ds

-- `now.After(created_at + limit)`
abbrev pub is_over : ℕ → ℕ → Workspace → Bool
is_over limit now row = ltb (row.created_at + limit) now

-- Case 3 of `checkWorkspace`: the container is not running.
abbrev pub is_dead : ReapEnv → Slot → Bool
is_dead env st = elim st.row.container_id [
  | none ↦ false
  | some c ↦ env.status_ok && (not (runs c st.running) && not (is_completed st.row.status))
]

-- `checkWorkspace`
unfoldable pub check_workspace : ℕ → ReapEnv → Slot → Slot
unfolding destroy
check_workspace now env st =
    if is_provisioning st.row.status && is_over (300 * second) now st.row
    then (destroy env st).0
    else if is_over (st.row.timeout_seconds * second) now st.row
    then (destroy env st).0
    else if is_dead env st
    then (destroy env st).0
    else st

-- `sweep` at one time: each workspace that the list has, with what is answered for it.
unfoldable pub sweep : ℕ → Bool → List (ReapEnv × Slot) → List Slot
unfolding check_workspace
sweep now list_ok [] = []
sweep now list_ok ((env, st) ∷ rest) =
    (if list_ok && is_live st.row.status then check_workspace now env st else st)
    ∷ sweep now list_ok rest
