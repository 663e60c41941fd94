-- ===== src/Dispatch/Tools.antt =====
-- `dispatchTool` of backend/internal/handlers/execution_handlers.go and the operations on files of
-- backend/internal/workspace/manager.go. What the driver answers is an argument.
use forge_engine.Prelude.{
  utf8, ℕ, String, Bool, ◌&&◌, ◌||◌, not, Option, none, some, List, [], ◌∷◌, ◌++◌, length,
  if◌then◌else◌, ◌==◌, Bytes, bytes, bytes_eq, trim_prefix,
}
use forge_engine.Json.{Json, Fields, get, str_or_empty}
use forge_engine.Diff.{DiffResult, compute_unified_diff, split_newline}
use forge_engine.Dispatch.Result.{ToolResult, content, written, created, deleted, renamed, answer}
use forge_engine.Dispatch.Events.{ExecutionEvent}

-- The files of the container, by their absolute paths.
abbrev pub Files : Type 0
Files = Bytes → Option Bytes

-- A row of `code_diffs`.
pub record CodeDiff : Type 0 where
  pub file_path : Bytes
  pub operation : String
  pub old_path : Option Bytes
  pub diff_unified : Option Bytes
  pub lines_added : ℕ
  pub lines_removed : ℕ

pub record State : Type 0 where
  pub files : Files
  pub diffs : List CodeDiff
  pub events : List ExecutionEvent

-- `ToolCallBody`
pub record ToolCall : Type 0 where
  pub version : ℕ
  pub tool : String
  pub args : Fields
  pub tool_call_id : String
  pub exec_id : String

pub record ToolEnv : Type 0 where
  -- Whether the queries and statements run.
  pub lookup_ok : Bool
  pub append_ok : Bool
  pub diff_ok : Bool
  -- Whether the workspace loads with a container, and what the driver and its commands do.
  pub workspace_ok : Bool
  pub read_ok : Bool
  pub write_ok : Bool
  pub mkdir_ok : Bool
  pub rm_ok : Bool
  pub mv_ok : Bool
  pub query : Option Json

-- `args[key].(string)`, or the empty text.
unfoldable pub text_arg : String → ToolCall → Bytes
unfolding utf8 get str_or_empty
text_arg key call = utf8 (str_or_empty (get key call.args))

abbrev pub path_arg : ToolCall → Bytes
path_arg call = text_arg "path" call

-- `workspaceMountPath + "/" + strings.TrimPrefix(path, "/")`
unfoldable pub abs_path : Bytes → Bytes
unfolding trim_prefix
abs_path path = bytes "/workspace/" ++ trim_prefix path (bytes "/")

abbrev pub set_path : Files → Bytes → Option Bytes → Files
set_path files path new q = if bytes_eq path q then new else files q

-- `ReadFile`
unfoldable pub read_file : ToolEnv → Bytes → Files → Option Bytes
unfolding abs_path
read_file env path files = if env.workspace_ok && env.read_ok then files (abs_path path) else none

-- The operations that change files give the new files, or an error.
unfoldable pub write_file : ToolEnv → Bytes → Bytes → Files → Option Files
unfolding abs_path
write_file env path text files =
    if env.workspace_ok && env.write_ok
    then some (set_path files (abs_path path) (some text))
    else none

unfoldable pub create_file : ToolEnv → Bytes → Bytes → Files → Option Files
unfolding write_file
create_file env path text files =
    if env.workspace_ok && env.mkdir_ok then write_file env path text files else none

unfoldable pub delete_file : ToolEnv → Bytes → Files → Option Files
unfolding abs_path
delete_file env path files =
    if env.workspace_ok && env.rm_ok then some (set_path files (abs_path path) none) else none

-- `mv` fails without the old file.
unfoldable pub rename_file : ToolEnv → Bytes → Bytes → Files → Option Files
unfolding abs_path
rename_file env old new files =
    if env.workspace_ok && (env.mkdir_ok && env.mv_ok)
    then elim (files (abs_path old)) [
      | none ↦ none
      | some text ↦ some (set_path (set_path files (abs_path old) none) (abs_path new) (some text))
    ]
    else none

-- `CreateDiff`, for a call that names its execution.
abbrev pub create_diff : ToolEnv → ToolCall → CodeDiff → State → State
create_diff env call d st =
    if not (call.exec_id == "") && env.diff_ok then record st { diffs = d ∷ st.diffs } else st

abbrev pub or_empty : Option Bytes → Bytes
or_empty none = []
or_empty (some text) = text

-- The end of a tool that changes files: the new files and the diff, or the error.
abbrev pub store :
    ToolEnv → ToolCall → CodeDiff → ToolResult → State → Option Files → State × Option ToolResult
store env call d result st none = (st, none)
store env call d result st (some files) =
    (create_diff env call d (record st { files = files }), some result)

-- A computed diff; it is always there.
abbrev pub diff_lines : Option DiffResult → ℕ × ℕ
diff_lines none = (0, 0)
diff_lines (some d) = (d.lines_added, d.lines_removed)

abbrev pub diff_text : Option DiffResult → Option Bytes
diff_text none = none
diff_text (some d) = some d.unified

abbrev pub plain_diff : String → Bytes → CodeDiff
plain_diff operation path = record {
  file_path = path;
  operation = operation;
  old_path = none;
  diff_unified = none;
  lines_added = 0;
  lines_removed = 0;
}

unfoldable pub write_tool : ToolEnv → ToolCall → State → State × Option ToolResult
unfolding text_arg read_file write_file compute_unified_diff
write_tool env call st =
    let path = text_arg "path" call in
    let text = text_arg "content" call in
    let diff = compute_unified_diff path (or_empty (read_file env path st.files)) text in
    let (added, removed) = diff_lines diff in
    store env call
      (record (plain_diff "modify" path) {
        diff_unified = diff_text diff;
        lines_added = added;
        lines_removed = removed;
      })
      (written (length text) added removed) st (write_file env path text st.files)

unfoldable pub create_tool : ToolEnv → ToolCall → State → State × Option ToolResult
unfolding text_arg create_file split_newline
create_tool env call st =
    let path = text_arg "path" call in
    let text = text_arg "content" call in
    store env call (record (plain_diff "create" path) { lines_added = length (split_newline text) })
      (created (length text)) st (create_file env path text st.files)

unfoldable pub delete_tool : ToolEnv → ToolCall → State → State × Option ToolResult
unfolding text_arg delete_file
delete_tool env call st =
    let path = text_arg "path" call in
    store env call (plain_diff "delete" path) (deleted path) st (delete_file env path st.files)

unfoldable pub rename_tool : ToolEnv → ToolCall → State → State × Option ToolResult
unfolding text_arg rename_file
rename_tool env call st =
    let old = text_arg "old_path" call in
    let new = text_arg "new_path" call in
    store env call (record (plain_diff "rename" new) { old_path = some old }) (renamed old new) st
      (rename_file env old new st.files)

abbrev pub query_tool : ToolEnv → State → State × Option ToolResult
query_tool env st = (st, elim env.query [ none ↦ none | some j ↦ some (answer j) ])

abbrev pub read_tool : ToolEnv → ToolCall → State → State × Option ToolResult
read_tool env call st = (
  st,
  elim (read_file env (text_arg "path" call) st.files) [
    | none ↦ none
    | some text ↦ some (content text (length text))
  ],
)

abbrev pub is_query : String → Bool
is_query tool = tool == "list_dir" || tool == "search_symbol" || tool == "exists" || tool == "stat"

-- `dispatchTool`; no result is an error.
unfoldable pub dispatch_tool : ToolEnv → ToolCall → State → State × Option ToolResult
unfolding read_file text_arg write_tool create_tool delete_tool rename_tool
dispatch_tool env call st =
    if call.tool == "read_file"
    then read_tool env call st
    else if call.tool == "write_file"
    then write_tool env call st
    else if call.tool == "create_file"
    then create_tool env call st
    else if call.tool == "delete_file"
    then delete_tool env call st
    else if call.tool == "rename_file"
    then rename_tool env call st
    else if is_query call.tool
    then query_tool env st
    else (st, none)
