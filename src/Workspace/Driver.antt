-- ===== src/Workspace/Driver.antt =====
-- What backend/internal/workspace/driver.go says of a container's stream of events. The driver itself
-- is outside: its answers are arguments of the operations that call it.
use forge_engine.Prelude.{ℕ, String, Option, Bytes}

-- `ExecutionEvent`: a chunk of output, the end of the command, its timeout, or a failure of the
-- stream. The exit code is a pointer in Go.
pub data ExecEvent : Type 0 where
  stdout stderr : Bytes → ExecEvent
  exit timeout : Option ℕ → ExecEvent
  stream_error : String → ExecEvent
