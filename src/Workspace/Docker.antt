-- ===== src/Workspace/Docker.antt =====
-- The containers of backend/internal/workspace/docker_driver.go, `Provision`, `ProvisionWithVolume`,
-- `Destroy` and `Status`, and the containers for validation of manager.go. Docker is outside: its
-- answers are arguments, and an operation gives the calls that it makes, in their order. The limits on
-- processors, memory and processes are numbers as they are configured; the environment, the temporary
-- file systems and the labels are left out.
use forge_engine.Prelude.{
  ℕ, Bool, true, false, Option, none, some, List, [], ◌∷◌, ◌++◌, if◌then◌else◌, ltb, length, take,
  Bytes, bytes, trim_prefix, decimal,
}

pub record WorkspaceConfig : Type 0 where
  pub workspace_id : Bytes
  pub image : Bytes
  pub cpu_limit : ℕ
  pub memory_limit_mb : ℕ
  pub pid_limit : ℕ

-- What a container is created with: the source of the one mount, which is at /workspace, and the rest.
pub record ContainerSpec : Type 0 where
  pub name : Bytes
  pub image : Bytes
  pub user : Bytes
  pub volume : Bytes
  pub network_mode : Bytes
  pub readonly_rootfs : Bool
  pub no_new_privileges : Bool
  pub cpu_limit : ℕ
  pub memory_limit_mb : ℕ
  pub pid_limit : ℕ

pub data Call : Type 0 where
  container_create : ContainerSpec → Call
  container_start container_inspect container_stop container_remove : Bytes → Call
  volume_remove : Bytes → Call

-- A handle, the id and the name; an error; or a slice out of range.
pub data DriverResult : Type 0 where
  started : Bytes → Bytes → DriverResult
  fails crashes : DriverResult

abbrev pub workspace_volume : Bytes → Bytes
workspace_volume workspace_id = bytes "forge-workspace-" ++ workspace_id

abbrev pub sandbox_spec : Bytes → Bytes → WorkspaceConfig → ContainerSpec
sandbox_spec name volume cfg = record {
  name = name;
  image = cfg.image;
  user = bytes "forge";
  volume = volume;
  network_mode = bytes "bridge";
  readonly_rootfs = true;
  no_new_privileges = true;
  cpu_limit = cfg.cpu_limit;
  memory_limit_mb = cfg.memory_limit_mb;
  pid_limit = cfg.pid_limit;
}

-- Create and start; a container that does not start is removed.
unfoldable pub create_and_start : Option Bytes → Bool → ContainerSpec → List Call × DriverResult
create_and_start created start_ok spec = elim created [
  | none ↦ (container_create spec ∷ [], fails)
  | some id ↦
      if start_ok
      then (
        container_create spec ∷ container_start id ∷ [],
        if ltb (length id) 12 then crashes else started id spec.name,
      )
      else (container_create spec ∷ container_start id ∷ container_remove id ∷ [], fails)
]

-- `Provision`
unfoldable pub provision_sandbox : Option Bytes → Bool → WorkspaceConfig → List Call × DriverResult
unfolding create_and_start
provision_sandbox created start_ok cfg =
    if ltb (length cfg.workspace_id) 8
    then ([], crashes)
    else create_and_start created start_ok (
        sandbox_spec (bytes "forge-ws-" ++ take 8 cfg.workspace_id)
          (workspace_volume cfg.workspace_id) cfg)

-- `ProvisionWithVolume`
unfoldable pub provision_with_volume :
    Option Bytes → Bool → Bytes → WorkspaceConfig → List Call × DriverResult
unfolding create_and_start
provision_with_volume created start_ok volume cfg =
    create_and_start created start_ok
      (sandbox_spec (bytes "forge-val-" ++ cfg.workspace_id) volume cfg)

-- `ProvisionValidationContainer`, at a time in milliseconds; the limits are those of `cfg`.
unfoldable pub provision_validation_container :
    Option Bytes → Bool → ℕ → Bytes → WorkspaceConfig → List Call × DriverResult
unfolding provision_with_volume decimal
provision_validation_container created start_ok now_ms sandbox_image cfg =
    if ltb (length cfg.workspace_id) 8
    then ([], crashes)
    else provision_with_volume created start_ok (workspace_volume cfg.workspace_id) (record cfg {
      workspace_id = take 8 cfg.workspace_id ++ (bytes "-val-" ++ decimal now_ms);
      image = sandbox_image;
    })

pub data Removal : Type 0 where
  removed not_found remove_failed : Removal

abbrev pub removal_fails : Removal → Bool
removal_fails removed = false
removal_fails not_found = false
removal_fails remove_failed = true

abbrev pub remove_volume : Bytes → List Call
remove_volume [] = []
remove_volume (c ∷ name) =
    volume_remove (workspace_volume (trim_prefix (c ∷ name) (bytes "forge-ws-"))) ∷ []

-- `Destroy` returns nil or an error, or panics.
pub data Destroyed : Type 0 where
  returns_nil returns_error panics : Destroyed

-- After the removal. The name is a field behind a pointer, which is nil if the container could not
-- be inspected.
abbrev pub clean_up : Option Bytes → List Call × Destroyed
clean_up none = ([], panics)
clean_up (some name) = (remove_volume name, returns_nil)

-- `Destroy`
unfoldable pub destroy_sandbox : Option Bytes → Removal → Bytes → List Call × Destroyed
unfolding trim_prefix
destroy_sandbox inspect removal id =
    let calls : List Call = container_inspect id ∷ container_stop id ∷ container_remove id ∷ [] in
    if removal_fails removal
    then (calls, returns_error)
    else let (more, result) = clean_up inspect in (calls ++ more, result)

-- `DestroyValidationContainer`
abbrev pub destroy_validation_container : Option Bytes → Removal → Bytes → List Call × Destroyed
destroy_validation_container inspect removal id = destroy_sandbox inspect removal id

pub data Inspection : Type 0 where
  no_such_container inspect_failed : Inspection
  runs : Inspection
  exited : ℕ → Inspection

pub record ContainerStatus : Type 0 where
  pub running : Bool
  pub exit_code : Option ℕ

-- `Status`, without the time and the message of the end.
unfoldable pub container_status : Inspection → Option ContainerStatus
container_status no_such_container = some (record { running = false; exit_code = none })
container_status inspect_failed = none
container_status runs = some (record { running = true; exit_code = none })
container_status (exited code) = some (record { running = false; exit_code = some code })
