-- ===== src/Workspace/Exec.antt =====
-- Commands in a container: `execAndLog`, `Exec` and their helpers in
-- backend/internal/workspace/manager.go. The driver's answer is an argument: `none` is an error.
use forge_engine.Prelude.{
  ℕ, ◌*◌, Bool, true, false, Option, none, some, List, [], ◌∷◌, ◌++◌, map, take, length, leb,
  if◌then◌else◌, nat_eq, Bytes, bytes, contains_sub,
}
use forge_engine.Workspace.Driver.{ExecEvent, stdout, stderr, exit, timeout, stream_error}
use forge_engine.Workspace.{
  Completion, Slot, WorkspaceStatus, ready, executing, provisioning, completed, failed, timed_out,
  killed, destroying, destroyed, log_command_start, log_command_complete,
}

-- The loop of `execAndLog` over the events.
unfoldable pub collect_event : ExecEvent → Completion → Completion
collect_event (stdout chunk) c = record c { stdout = c.stdout ++ chunk }
collect_event (stderr chunk) c = record c { stderr = c.stderr ++ chunk }
collect_event (exit none) c = c
collect_event (exit (some code)) c = record c { exit_code = some code }
collect_event (timeout code) c = record c { timed_out = true }
collect_event (stream_error message) c = c

-- The loop of `Exec`, where a timeout may bring an exit code.
unfoldable pub stream_event : ExecEvent → Completion → Completion
unfolding collect_event
stream_event (timeout none) c = record c { timed_out = true }
stream_event (timeout (some code)) c = record c { timed_out = true; exit_code = some code }
stream_event e c = collect_event e c

abbrev pub fold_events :
    (ExecEvent → Completion → Completion) → List ExecEvent → Completion → Completion
fold_events f [] c = c
fold_events f (e ∷ es) c = fold_events f es (f e c)

abbrev pub no_output : Completion
no_output = record { exit_code = none; stdout = []; stderr = []; timed_out = false }

-- `truncate`
unfoldable pub truncate : Bytes → ℕ → Bytes
truncate s max_bytes =
    if leb (length s) max_bytes then s else take max_bytes s ++ (10 ∷ bytes "[truncated]")

abbrev pub truncated : ℕ → Completion → Completion
truncated max c = record c { stdout = truncate c.stdout max; stderr = truncate c.stderr max }

-- What follows the last "@".
unfoldable pub after_last_at : Bytes → Option Bytes
after_last_at [] = none
after_last_at (c ∷ s) = elim (after_last_at s) [
  | some rest ↦ some rest
  | none ↦ if nat_eq c 64 then some s else none
]

-- The body of the loop of `redactCommand`.
unfoldable pub redact_arg : Bytes → Bytes
unfolding contains_sub after_last_at
redact_arg arg =
    if contains_sub arg (bytes "x-access-token:")
    then elim (after_last_at arg) [
      | none ↦ arg
      | some rest ↦ bytes "https://x-access-token:***@" ++ rest
    ]
    else arg

unfoldable pub redact_command : List Bytes → List Bytes
unfolding redact_arg
redact_command cmd = map redact_arg cmd

-- Whether the statements that log a command run.
pub record CommandLog : Type 0 where
  pub start_ok : Bool
  pub complete_ok : Bool

abbrev pub finish_log : CommandLog → Option ℕ → Completion → Slot → Slot
finish_log db none c st = st
finish_log db (some n) c st = log_command_complete db.complete_ok n c st

-- `execAndLog` from the start of the log on; no completion is an error.
unfoldable pub run_logged :
    CommandLog → Option (List ExecEvent) → List Bytes → Slot → Slot × Option Completion
unfolding collect_event log_command_start log_command_complete truncate
run_logged db execute safe_cmd st =
    let (st', entry) = log_command_start db.start_ok safe_cmd st in
    elim execute [
      | none ↦ (st', none)
      | some events ↦
          let c = truncated (32 * 1024) (fold_events collect_event events no_output) in
          (finish_log db entry c st', some c)
    ]

-- `execAndLog`
unfoldable pub exec_and_log :
    CommandLog → Option (List ExecEvent) → List Bytes → Slot → Slot × Option Completion
unfolding redact_command run_logged
exec_and_log db execute cmd st = run_logged db execute (redact_command cmd) st

pub data ExecError : Type 0 where
  not_found no_container not_executable driver_error : ExecError

pub data ExecResult : Type 0 where
  refused : ExecError → ExecResult
  streams : List ExecEvent → ExecResult

-- `ws.Status != Ready && ws.Status != Executing`, negated.
abbrev pub is_executable : WorkspaceStatus → Bool
is_executable ready = true
is_executable executing = true
is_executable provisioning = false
is_executable completed = false
is_executable failed = false
is_executable timed_out = false
is_executable killed = false
is_executable destroying = false
is_executable destroyed = false

-- From the start of the log on.
abbrev pub exec_logged :
    CommandLog → Option (List ExecEvent) → List Bytes → Slot → Slot × ExecResult
exec_logged db execute cmd st =
    let (st', entry) = log_command_start db.start_ok cmd st in
    elim execute [
      | none ↦ (st', refused driver_error)
      | some events ↦ (
        finish_log db entry (truncated (64 * 1024) (fold_events stream_event events no_output)) st',
        streams events,
      )
    ]

-- `Exec`; the command is logged as it is.
unfoldable pub exec :
    Bool → CommandLog → Option (List ExecEvent) → List Bytes → Slot → Slot × ExecResult
unfolding stream_event log_command_start log_command_complete truncate
exec get_ok db execute cmd st =
    if get_ok
    then elim st.row.container_id [
      | none ↦ (st, refused no_container)
      | some c ↦
          if is_executable st.row.status
          then exec_logged db execute cmd st
          else (st, refused not_executable)
    ]
    else (st, refused not_found)
