-- ===== src/Dispatch.antt =====
-- The agent's tool calls: `ToolDispatch` and `dispatchTool` of
-- backend/internal/handlers/execution_handlers.go, with the events and diffs that they store
-- (backend/internal/repository/execution_repository.go) and the file operations of
-- backend/internal/workspace/manager.go that they call. The state is one workspace and one execution.
-- A text is the list of its code points: it is only compared with ASCII texts.
pub mod Result
pub mod Events
pub mod Tools
pub mod Confinement
pub mod Replay
use forge_engine.Prelude.{
  ℕ, String, Bool, true, false, ◌&&◌, ◌||◌, not, Option, none, some, List, [], ◌∷◌, ◌++◌,
  if◌then◌else◌, ◌==◌, nat_eq, Bytes, bytes,
}
use forge_engine.Json.{Fields, get, str_or_empty}
use forge_engine.Execution.Policy.{Denial, validate, phase7_policy}
use Events.{ExecutionEvent, find_event, append_event}
use Result.{ToolResult}
use Tools.{ToolCall, ToolEnv, State, abs_path, path_arg, dispatch_tool}

-- What the caller gets.
pub data Response : Type 0 where
  bad_request tool_failed : Response
  cached : ExecutionEvent → Response
  denied : Denial → Response
  succeeded : ToolResult → Response

-- The path that the policy is asked about.
abbrev pub policy_path : ToolCall → Bytes
policy_path call =
    if str_or_empty (get "path" call.args) == "" then [] else abs_path (path_arg call)

-- `body.ToolCallID != "" && body.ExecID != ""`
abbrev pub is_keyed : ToolCall → Bool
is_keyed call = not (call.tool_call_id == "") && not (call.exec_id == "")

-- The lookup of an earlier result; `lookup_ok` says whether its query ran.
unfoldable pub cached_event : Bool → ToolCall → List ExecutionEvent → Option ExecutionEvent
unfolding find_event
cached_event lookup_ok call events =
    if is_keyed call && lookup_ok then find_event call.tool_call_id events else none

abbrev pub is_success : Option ToolResult → Bool
is_success none = false
is_success (some r) = true

-- The event of a call that was executed.
abbrev pub result_event : ToolCall → Option ToolResult → ExecutionEvent
result_event call result = record {
  seq = 0;
  tool_name = call.tool;
  tool_call_id = if call.tool_call_id == "" then none else some call.tool_call_id;
  success = is_success result;
  tool_result = result;
}

abbrev pub respond : Option ToolResult → Response
respond none = tool_failed
respond (some r) = succeeded r

-- From the tool's run on.
unfoldable pub execute_call : ToolEnv → ToolCall → State → State × Response
unfolding dispatch_tool append_event
execute_call env call st =
    let (st', result) = dispatch_tool env call st in
    (
      if call.exec_id == "" then st' else record st' {
        events = append_event env.append_ok (result_event call result) st'.events;
      },
      respond result,
    )

-- `ToolDispatch`, on a body that was parsed.
unfoldable pub tool_dispatch : ToolEnv → ToolCall → State → State × Response
unfolding cached_event validate execute_call
tool_dispatch env call st =
    if call.tool == "" || not (nat_eq call.version 1)
    then (st, bad_request)
    else elim (cached_event env.lookup_ok call st.events) [
      | some e ↦ (st, cached e)
      | none ↦ elim (validate phase7_policy call.tool (policy_path call)) [
        | some d ↦ (st, denied d)
        | none ↦ execute_call env call st
      ]
    ]
