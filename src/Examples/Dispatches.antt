-- ===== src/Examples/Dispatches.antt =====
-- Tool calls on a workspace with one file, and the theorems on them.
use forge_engine.Prelude.{
  utf8, ◌≡◌, refl, true, false, some, none, [], String, ◌⊎◌, bytes, if◌then◌else◌, bytes_eq,
  contains_sub,
}
use forge_engine.Json.{str, field, end, get, str_or_empty}
use forge_engine.Execution.Policy.{validate}
use forge_engine.Dispatch.Tools.{State, ToolCall, ToolEnv, abs_path, path_arg, text_arg}
use forge_engine.Dispatch.{tool_dispatch, cached_event}
use forge_engine.Dispatch.Events.{find_event}
use forge_engine.Dispatch.Confinement.{
  tool_dispatch-Confines, rename_unchecked, rename_call, IsMoved,
}
use forge_engine.Dispatch.Replay.{tool_dispatch-Replays, Replays}

abbrev env : ToolEnv
env = record {
  lookup_ok = true;
  append_ok = true;
  diff_ok = true;
  workspace_ok = true;
  read_ok = true;
  write_ok = true;
  mkdir_ok = true;
  rm_ok = true;
  mv_ok = true;
  query = none;
}

abbrev start : State
start = record {
  files = λ q. if bytes_eq q (bytes "/workspace/a.go") then some (bytes "package a") else none;
  diffs = [];
  events = [];
}

abbrev call : String → String → ToolCall
call tool path = record {
  version = 1;
  tool = tool;
  args = field "path" (str path) (field "content" (str "x") end);
  tool_call_id = "call_1";
  exec_id = "e1";
}

created_run :
    (tool_dispatch env (call "create_file" "/b.go") start).0.files (bytes "/workspace/b.go")
    ≡ some (bytes "x")
unfolding tool_dispatch abs_path get str_or_empty
created_run = refl

tool_dispatch-Confines_example :
    ((tool_dispatch env (call "delete_file" "a.go") start).0.files (bytes "/workspace/c.go")
      ≡ start.files (bytes "/workspace/c.go"))
    ⊎ ((bytes "/workspace/c.go" ≡ abs_path (path_arg (call "delete_file" "a.go")))
        × (contains_sub (bytes "/workspace/c.go") (bytes "..") ≡ false))
tool_dispatch-Confines_example =
    tool_dispatch-Confines env (call "delete_file" "a.go") start refl (bytes "/workspace/c.go")

rename_unchecked_example :
    IsMoved "a.go" "../etc/cron.d/a"
      (bytes "package a")
      (tool_dispatch env (rename_call "a.go" "../etc/cron.d/a" "call_1" "e1") start).0.files
unfolding cached_event find_event abs_path bytes_eq utf8
rename_unchecked_example =
    rename_unchecked env "a.go" "../etc/cron.d/a" "call_1" "e1" (bytes "package a") start refl refl
      refl refl refl (λ e. cc)

tool_dispatch-Replays_example :
    let (st', first) = tool_dispatch env (call "delete_file" "a.go") start in
    Replays st' first (tool_dispatch env (call "delete_file" "a.go") st')
unfolding cached_event find_event validate abs_path get str_or_empty text_arg
tool_dispatch-Replays_example =
    tool_dispatch-Replays env env (call "delete_file" "a.go") start (refl, refl, refl) refl refl
      refl
