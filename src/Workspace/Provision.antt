-- ===== src/Workspace/Provision.antt =====
-- `Provision` of backend/internal/workspace/manager.go: from the row to a workspace that is ready.
-- What the driver, the token cache and the database answer is an argument.
use forge_engine.Prelude.{
  ℕ, String, Bool, true, false, Option, none, some, List, [], ◌∷◌, ◌++◌, if◌then◌else◌, ltb, nat_eq,
  length, Bytes, bytes, ◌==◌,
}
use forge_engine.Workspace.Driver.{ExecEvent}
use forge_engine.Workspace.{
  provisioning, Slot, Completion, LifecycleEvent, workspace_creating, workspace_created,
  repo_cloning, repo_cloned, repo_checkout, workspace_ready, workspace_failed, set_container_id,
  mark_ready, mark_failed, log_lifecycle,
}
use forge_engine.Workspace.Exec.{CommandLog, exec_and_log}

pub record ProvisionEnv : Type 0 where
  pub now : ℕ
  pub timeout_seconds : ℕ
  pub create_ok : Bool
  pub log_ok : LifecycleEvent → Bool
  -- The id of the new container, of at least twelve characters; `none` is an error.
  pub container : Option String
  pub set_ok : Bool
  pub destroy_ok : Bool
  pub clone : Option (List ExecEvent)
  pub clone_log : CommandLog
  pub checkout : Option (List ExecEvent)
  pub checkout_log : CommandLog
  pub ready_ok : Bool
  pub failed_ok : Bool
  pub refetch_ok : Bool

-- A part of `provision`: it goes on, returns an error, or panics.
pub data Outcome : Type 0 where
  goes : Slot → Outcome
  stops : String → Slot → Outcome
  panics : Slot → Outcome

infixl 5 ◌>>=◌
abbrev pub ◌>>=◌ : Outcome → (Slot → Outcome) → Outcome
goes st >>= f = f st
stops e st >>= f = stops e st
panics st >>= f = panics st

-- The driver stops a container.
abbrev pub stop_container : String → List String → List String
stop_container c [] = []
stop_container c (d ∷ ds) = if d == c then stop_container c ds else d ∷ stop_container c ds

abbrev pub clone_url : Bytes → Bytes → Bytes
clone_url token repo =
    bytes "https://x-access-token:" ++ (token ++ (bytes "@github.com/" ++ (repo ++ bytes ".git")))

-- The driver has started the container.
unfoldable pub attach_container : ProvisionEnv → String → Slot → Outcome
unfolding set_container_id
attach_container env c st₀ =
    let st : Slot = record st₀ { running = c ∷ st₀.running } in
    if env.set_ok
    then goes (set_container_id true c st)
    else stops "set container id"
        (record st { running = if env.destroy_ok then stop_container c st.running else st.running })

abbrev pub exit_zero : Option ℕ → Bool
exit_zero none = false
exit_zero (some code) = nat_eq code 0

-- The exit code of a git command must be 0.
abbrev pub git_result : String → Slot × Option Completion → Outcome
git_result name (st, none) = stops name st
git_result name (st, some c) = if exit_zero c.exit_code then goes st else stops name st

unfoldable pub git_command :
    String → CommandLog → Option (List ExecEvent) → List Bytes → Slot → Outcome
unfolding exec_and_log
git_command name db execute cmd st = git_result name (exec_and_log db execute cmd st)

unfoldable pub finish_provision : ProvisionEnv → Slot → Outcome
unfolding mark_ready log_lifecycle
finish_provision env st =
    if env.ready_ok
    then goes (log_lifecycle (env.log_ok workspace_ready) workspace_ready (mark_ready true st))
    else stops "mark ready" st

abbrev pub clone_command : Bytes → Bytes → List Bytes
clone_command token repo =
    bytes "git" ∷ bytes "clone" ∷ bytes "--depth=1" ∷ clone_url token repo ∷ bytes "/workspace" ∷ []

abbrev pub log_clone : ProvisionEnv → Slot → Slot
log_clone env st =
    log_lifecycle (env.log_ok repo_cloning) repo_cloning
      (log_lifecycle (env.log_ok workspace_created) workspace_created st)

unfoldable pub clone_repository : ProvisionEnv → Bytes → Bytes → Slot → Outcome
unfolding git_command log_lifecycle
clone_repository env token repo st =
    git_command "git clone" env.clone_log env.clone (clone_command token repo) (log_clone env st)

abbrev pub checkout_command : Bytes → List Bytes
checkout_command commit_sha =
    bytes "git" ∷ bytes "-C" ∷ bytes "/workspace" ∷ bytes "checkout" ∷ commit_sha ∷ []

abbrev pub log_checkout : ProvisionEnv → Slot → Slot
log_checkout env st =
    log_lifecycle (env.log_ok repo_checkout) repo_checkout
      (log_lifecycle (env.log_ok repo_cloned) repo_cloned st)

unfoldable pub check_out : ProvisionEnv → Bytes → Slot → Outcome
unfolding git_command log_lifecycle
check_out env commit_sha st =
    git_command "git checkout" env.checkout_log env.checkout (checkout_command commit_sha)
      (log_checkout env st)

-- From the started container on.
unfoldable pub fetch_repository : ProvisionEnv → Bytes → Bytes → Bytes → Slot → Outcome
unfolding clone_repository check_out finish_provision
fetch_repository env token repo commit_sha st = do
  st₁ ← clone_repository env token repo st
  st₂ ← check_out env commit_sha st₁
  finish_provision env st₂

-- `provision` up to the clone; no token is an error. The first message takes the first eight bytes
-- of the commit, and panics if there are fewer.
unfoldable pub start_container :
    ProvisionEnv → Option Bytes → Bytes → (Bytes → Slot → Outcome) → Slot → Outcome
unfolding log_lifecycle attach_container
start_container env token commit_sha next st =
    if ltb (length commit_sha) 8
    then panics st
    else let st' = log_lifecycle (env.log_ok workspace_creating) workspace_creating st in
      elim token [
        | none ↦ stops "get installation token" st'
        | some t ↦ elim env.container [
          | none ↦ stops "docker provision" st'
          | some c ↦ attach_container env c st' >>= next t
        ]
      ]

-- `provision`
unfoldable pub provision_steps : ProvisionEnv → Option Bytes → Bytes → Bytes → Slot → Outcome
unfolding start_container fetch_repository
provision_steps env token repo commit_sha st =
    start_container env token commit_sha (λ t. fetch_repository env t repo commit_sha) st

pub data Provisioned : Type 0 where
  create_failed : Provisioned
  returns provision_failed refetch_failed crashed : Slot → Provisioned

abbrev pub new_slot : ProvisionEnv → Slot
new_slot env = record {
  row = record {
    status = provisioning;
    container_id = none;
    created_at = env.now;
    timeout_seconds = env.timeout_seconds;
    error = none;
  };
  running = [];
  logs = [];
}

abbrev pub conclude : ProvisionEnv → Outcome → Provisioned
conclude env (goes st) = if env.refetch_ok then returns st else refetch_failed st
conclude env (stops e st) =
    provision_failed (
      log_lifecycle (env.log_ok workspace_failed) workspace_failed (mark_failed env.failed_ok e st))
conclude env (panics st) = crashed st

-- `Provision`
unfoldable pub provision : ProvisionEnv → Option Bytes → Bytes → Bytes → Provisioned
unfolding provision_steps log_lifecycle mark_failed
provision env token repo commit_sha =
    if env.create_ok
    then conclude env (provision_steps env token repo commit_sha (new_slot env))
    else create_failed
