-- ===== src/Dispatch/Result.antt =====
-- The results of the tools, as far as the code makes them itself.
use forge_engine.Prelude.{ℕ, Bytes}
use forge_engine.Json.{Json}

pub data ToolResult : Type 0 where
  -- The content of a file that was read, and its length.
  content : Bytes → ℕ → ToolResult
  -- The bytes written, and the lines added and removed.
  written : ℕ → ℕ → ℕ → ToolResult
  created : ℕ → ToolResult
  deleted : Bytes → ToolResult
  renamed : Bytes → Bytes → ToolResult
  -- What the manager answers to list_dir, search_symbol, exists and stat.
  answer : Json → ToolResult
