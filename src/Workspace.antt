-- ===== src/Workspace.antt =====
-- The row of a workspace and its log: backend/internal/repository/workspace_repository.go. An UPDATE
-- names one row by its id, so the model follows one workspace; the last argument but one of each
-- method says whether its statement ran. Times are in nanoseconds.
pub mod Driver
pub mod Exec
pub mod Provision
pub mod Reaper
pub mod Redaction
pub mod Accounting
pub mod Sweeps
pub mod Listing
pub mod Matches
pub mod Frames
pub mod Demux
pub mod Deadlines
pub mod Docker
pub mod Volumes
use forge_engine.Prelude.{
  ℕ, suc, ◌+◌, ◌*◌, String, Bool, true, false, Option, none, some, List, [], ◌∷◌, ◌++◌, ◌≡◌, Bytes,
  if◌then◌else◌, ltb, nat_eq,
}

pub data WorkspaceStatus : Type 0 where
  provisioning ready executing completed failed timed_out killed destroying destroyed :
      WorkspaceStatus

pub record Workspace : Type 0 where
  pub status : WorkspaceStatus
  pub container_id : Option String
  pub created_at : ℕ
  pub timeout_seconds : ℕ
  pub error : Option String

pub data LifecycleEvent : Type 0 where
  workspace_creating workspace_created repo_cloning repo_cloned repo_checkout workspace_ready
        workspace_destroying workspace_destroyed workspace_failed :
      LifecycleEvent

-- What a command left: no exit code is -1.
pub record Completion : Type 0 where
  pub exit_code : Option ℕ
  pub stdout : Bytes
  pub stderr : Bytes
  pub timed_out : Bool

pub data LogKind : Type 0 where
  lifecycle : LifecycleEvent → LogKind
  command : List Bytes → Option Completion → LogKind

-- A row of `execution_logs`.
pub record ExecutionLog : Type 0 where
  pub seq : ℕ
  pub kind : LogKind

-- A workspace: its row, its containers that run, and its log, newest first.
pub record Slot : Type 0 where
  pub row : Workspace
  pub running : List String
  pub logs : List ExecutionLog

abbrev pub set_status : Bool → WorkspaceStatus → Slot → Slot
set_status db new st = if db then record st { row = record st.row { status = new } } else st

unfoldable pub set_container_id : Bool → String → Slot → Slot
set_container_id db c st =
    if db then record st { row = record st.row { container_id = some c } } else st

unfoldable pub mark_ready : Bool → Slot → Slot
mark_ready db st = set_status db ready st

unfoldable pub mark_failed : Bool → String → Slot → Slot
mark_failed db err_msg st =
    if db then record st { row = record st.row { status = failed; error = some err_msg } } else st

unfoldable pub mark_destroying : Bool → Slot → Slot
mark_destroying db st = set_status db destroying st

unfoldable pub mark_destroyed : Bool → Slot → Slot
mark_destroyed db st = set_status db destroyed st

-- `WHERE status NOT IN ('destroyed', 'destroying')` of `ListLive`.
abbrev pub is_live : WorkspaceStatus → Bool
is_live destroyed = false
is_live destroying = false
is_live provisioning = true
is_live ready = true
is_live executing = true
is_live completed = true
is_live failed = true
is_live timed_out = true
is_live killed = true

abbrev max_seq : List ExecutionLog → ℕ
max_seq [] = 0
max_seq (l ∷ logs) = let m = max_seq logs in if ltb m l.seq then l.seq else m

-- `nextSeq`
unfoldable pub next_seq : List ExecutionLog → ℕ
next_seq logs = max_seq logs + 1

abbrev add_log : Bool → LogKind → Slot → Slot
add_log db kind st =
    if db then record st { logs = record { seq = next_seq st.logs; kind = kind } ∷ st.logs } else st

unfoldable pub log_lifecycle : Bool → LifecycleEvent → Slot → Slot
unfolding next_seq
log_lifecycle db event st = add_log db (lifecycle event) st

-- `LogCommandStart`, with the number of the row, by which the row is completed.
unfoldable pub log_command_start : Bool → List Bytes → Slot → Slot × Option ℕ
unfolding next_seq
log_command_start db cmd st =
    (add_log db (command cmd none) st, if db then some (next_seq st.logs) else none)

abbrev complete_kind : Completion → LogKind → LogKind
complete_kind c (lifecycle e) = lifecycle e
complete_kind c (command cmd old) = command cmd (some c)

abbrev complete_at : ℕ → Completion → List ExecutionLog → List ExecutionLog
complete_at n c [] = []
complete_at n c (l ∷ logs) =
    (if nat_eq n l.seq then record l { kind = complete_kind c l.kind } else l)
    ∷ complete_at n c logs

-- `LogCommandComplete`
unfoldable pub log_command_complete : Bool → ℕ → Completion → Slot → Slot
log_command_complete db n c st = if db then record st { logs = complete_at n c st.logs } else st
