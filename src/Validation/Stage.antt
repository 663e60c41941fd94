-- ===== src/Validation/Stage.antt =====
-- `runStage` of backend/internal/validation/orchestrator.go, with the
-- rows that it leaves. What comes from outside is an argument: the events of each command, the
-- agent's reading of the output, and whether each statement of the database ran. The messages of the
-- diagnostics, the logs, the events for clients and the repository evidence are left out.
use forge_engine.Prelude.{
  ℕ, suc, String, Bool, true, false, ◌&&◌, ◌||◌, not, Option, none, some, List, [], ◌∷◌, ◌++◌, map,
  if◌then◌else◌, ◌==◌, leb, nat_eq, Bytes, bytes, length, take,
}
pub use forge_engine.Workspace.Driver.{ExecEvent, stdout, stderr, exit, timeout, stream_error}
use forge_engine.Repair.{Diagnostic}
use forge_engine.Validation.{detect}

pub record StageConfig : Type 0 where
  pub name : String
  pub commands : List (List String)
  pub run_on_build_fail : Bool
  pub run_on_install_fail : Bool
  pub optional : Bool

-- `ExecInValidationContainer` of one command.
pub data CommandRun : Type 0 where
  exec_error : CommandRun
  ran : List ExecEvent → CommandRun

-- `AgentDiagnostic`, the fields that are stored here.
pub record AgentDiagnostic : Type 0 where
  pub severity : String
  pub file_path : String
  pub repair_category : String

pub record ParseResponse : Type 0 where
  pub failure_origin : String
  pub diagnostics : List AgentDiagnostic

-- What one stage meets: the k-th command's run, the agent's answer (`none` for an error without an
-- answer), and whether the row is created, updated, and the diagnostics inserted.
pub record StageEnv : Type 0 where
  pub create_ok : Bool
  pub update_ok : Bool
  pub insert_ok : Bool
  pub exec : ℕ → CommandRun
  pub parse : Option ParseResponse

-- The variables of the loop over the commands.
pub record Shell : Type 0 where
  pub exit_code : ℕ
  pub timed_out : Bool
  pub combined : Bytes

-- What a stage leaves: the status of its row, if it has one, its diagnostics, and the two results.
pub record StageResult : Type 0 where
  pub row : Option String
  pub diags : List Diagnostic
  pub stage_passed : Bool
  pub environment_failure : Bool

-- `nullStr`
abbrev pub null_str : String → Option String
null_str s = if s == "" then none else some s

abbrev pub stored : String → AgentDiagnostic → Diagnostic
stored stage d = record {
  stage = stage;
  severity = d.severity;
  file_path = null_str d.file_path;
  repair_category = null_str d.repair_category;
}

-- The diagnostics that the orchestrator makes itself.
abbrev pub environment_diagnostic : AgentDiagnostic
environment_diagnostic = record {
  severity = "error";
  file_path = "";
  repair_category = "environment_limitation";
}

-- `InsertDiagnostics`, one transaction.
unfoldable pub insert_diagnostics : Bool → String → List AgentDiagnostic → List Diagnostic
insert_diagnostics db stage ds = if db then map (stored stage) ds else []

unfoldable pub run_event : ExecEvent → Shell → Shell
run_event (stdout chunk) sh = record sh { combined = sh.combined ++ chunk }
run_event (stderr chunk) sh = record sh { combined = sh.combined ++ chunk }
run_event (exit none) sh = sh
run_event (exit (some code)) sh = record sh { exit_code = code }
run_event (timeout code) sh = record sh { timed_out = true }
run_event (stream_error message) sh = sh

unfoldable pub run_events : List ExecEvent → Shell → Shell
unfolding run_event
run_events [] sh = sh
run_events (e ∷ es) sh = run_events es (run_event e sh)

-- How the loop over the commands ends: the stage is skipped, a command could not be started, or the
-- shell, with the diagnostic of exit code 127 or without.
pub data CommandsEnd : Type 0 where
  tool_not_found not_started : CommandsEnd
  ended : Shell → Bool → CommandsEnd

unfoldable pub run_commands : Bool → (ℕ → CommandRun) → List (List String) → ℕ → Shell → CommandsEnd
unfolding run_events
run_commands optional exec [] k sh = ended sh false
run_commands optional exec (cmd ∷ cmds) k sh = elim (exec k) [
  | exec_error ↦ if optional then tool_not_found else not_started
  | ran events ↦
      let sh' = run_events events sh in
      let rest = run_commands optional exec cmds (suc k) sh' in
      if nat_eq sh'.exit_code 127
      then if optional then tool_not_found else ended sh' true
      else if not (nat_eq sh'.exit_code 0) || sh'.timed_out
      then ended sh' false
      else rest
]

-- `truncateStr`
unfoldable pub truncate_str : Bytes → ℕ → Bytes
truncate_str s max = if leb (length s) max then s else take max s ++ (10 ∷ bytes "[truncated]")

abbrev pub max_combined : ℕ
max_combined = 524288

-- An UPDATE of the row's status.
abbrev pub update_status : Bool → String → String → String
update_status db new old = if db then new else old

abbrev pub is_some {ℓ} : {A : Type ℓ} → Option A → Bool
is_some none = false
is_some (some a) = true

-- The three checks after the commands: the diagnostics, one for each that holds.
unfoldable pub environment_checks : Shell → List AgentDiagnostic
unfolding detect truncate_str
environment_checks sh =
    (if is_some (detect (truncate_str sh.combined max_combined) sh.exit_code)
      then environment_diagnostic ∷ []
      else [])
    ++ ((if sh.timed_out then environment_diagnostic ∷ [] else [])
        ++ (if nat_eq sh.exit_code 134 then environment_diagnostic ∷ [] else []))

abbrev pub is_empty {ℓ} : {A : Type ℓ} → List A → Bool
is_empty [] = true
is_empty (x ∷ xs) = false

-- `stagePassed`
abbrev pub shell_passed : Shell → Bool
shell_passed sh = nat_eq sh.exit_code 0 && not sh.timed_out

-- The result without the agent: the diagnostic of exit code 127 and those of the checks.
abbrev pub unparsed : StageConfig → StageEnv → String → Shell → Bool → StageResult
unparsed cfg env running sh not_found = record {
  row = some (update_status env.update_ok (if shell_passed sh then "passed" else "failed") running);
  diags =
      insert_diagnostics env.insert_ok cfg.name
        (if not_found then environment_diagnostic ∷ [] else [])
      ++ insert_diagnostics env.insert_ok cfg.name (environment_checks sh);
  stage_passed = shell_passed sh;
  environment_failure = not (is_empty (environment_checks sh)) || nat_eq sh.exit_code 127;
}

-- What the agent's answer adds.
abbrev pub parsed : StageConfig → StageEnv → StageResult → Option ParseResponse → StageResult
parsed cfg env u none = u
parsed cfg env u (some r) = record u {
  diags = u.diags ++ insert_diagnostics env.insert_ok cfg.name r.diagnostics;
  environment_failure = r.failure_origin == "environment";
}

-- From the end of the commands on; `running` is the row's status then.
unfoldable pub finish_stage : StageConfig → StageEnv → String → Shell → Bool → StageResult
unfolding environment_checks
finish_stage cfg env running sh not_found =
    let u = unparsed cfg env running sh not_found in
    if is_empty (environment_checks sh) && not (nat_eq sh.exit_code 127) && not sh.timed_out
    then parsed cfg env u env.parse
    else u

abbrev pub start_shell : Shell
start_shell = record { exit_code = 0; timed_out = false; combined = [] }

-- A return before the stage's own checks.
abbrev pub ended_early : String → Bool → StageResult
ended_early status ok = record {
  row = some status;
  diags = [];
  stage_passed = ok;
  environment_failure = false;
}

unfoldable pub run_stage : StageConfig → StageEnv → StageResult
unfolding run_commands finish_stage
run_stage cfg env =
    let running = update_status env.update_ok "running" "pending" in
    if not env.create_ok
    then record { row = none; diags = []; stage_passed = false; environment_failure = false }
    else elim (run_commands cfg.optional env.exec cfg.commands 0 start_shell) [
      | tool_not_found ↦ ended_early (update_status env.update_ok "skipped" running) true
      | not_started ↦ ended_early running false
      | ended sh not_found ↦ finish_stage cfg env running sh not_found
    ]

-- A stage that the loop passes over.
unfoldable pub skip_stage : StageEnv → StageResult
skip_stage env = record {
  row = if env.create_ok then some (update_status env.update_ok "skipped" "pending") else none;
  diags = [];
  stage_passed = true;
  environment_failure = false;
}
