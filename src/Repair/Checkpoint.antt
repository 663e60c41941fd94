-- ===== src/Repair/Checkpoint.antt =====
-- The checkpoint of one attempt in backend/internal/repair/orchestrator.go: what is read before the
-- agent writes, the entries made from it, and the rollback. The files of the workspace are a
-- function from paths below /workspace/; the code names them by paths that may begin with a slash. A
-- read fails for a path without a file, and whenever the workspace does not answer. Arguments are
-- whether each read, each write and each statement succeeds, the changes that the agent makes to the
-- files, between the events of its stream, and what a text is after it was encoded as JSON and read
-- back, which is not the same where it is no UTF-8.
use forge_engine.Prelude.{
  ℕ, suc, nat_eq, String, Bool, true, false, ◌&&◌, not, Option, none, some, List, [], ◌∷◌,
  if◌then◌else◌, ◌==◌, contains, lookup,
}
use Prim.Native.Char.{code}
use forge_engine.Repair.{Diagnostic}

abbrev pub Files : Type 0
Files = String → Option String

-- `strings.TrimPrefix(path, "/")`: where below /workspace/ a path of the code leads.
abbrev pub workspace_path : String → String
workspace_path String.[] = ""
workspace_path (String.◌∷◌ c s) = if nat_eq (code c) 47 then s else String.◌∷◌ c s

-- `ReadFile`
abbrev pub read_file : Bool → Files → String → Option String
read_file ok files path = if ok then files (workspace_path path) else none

unfoldable pub set_file : Files → String → Option String → Files
set_file files path content q = if path == q then content else files q

-- The maps `beforeContent` and `beforeExisted`.
pub record Before : Type 0 where
  pub content : List (String × String)
  pub existed : List (String × Bool)

pub record CheckpointDiffEntry : Type 0 where
  pub file_path : String
  pub file_existed : Bool
  pub original_content : String

-- `map[string]string` and `map[string]bool` read with the zero value for a missing key.
unfoldable pub content_at : Before → String → String
unfolding lookup
content_at before path = elim (lookup path before.content) [ none ↦ "" | some c ↦ c ]

unfoldable pub existed_at : Before → String → Bool
unfolding lookup
existed_at before path = elim (lookup path before.existed) [ none ↦ false | some b ↦ b ]

abbrev pub record_file : Before → String → String → Bool → Before
record_file before path c b = record {
  content = (path, c) ∷ before.content;
  existed = (path, b) ∷ before.existed;
}

-- The loop of `snapshotBeforeContent`; each diagnostic comes with whether the read of its file would
-- be answered.
unfoldable pub snapshot_from : Files → List String → Before → List (Diagnostic × Bool) → Before
unfolding contains
snapshot_from files seen before [] = before
snapshot_from files seen before ((d, ok) ∷ ds) = elim d.file_path [
  | none ↦ snapshot_from files seen before ds
  | some path ↦
      if not (path == "") && not (contains seen path)
      then elim (read_file ok files path) [
        | none ↦ snapshot_from files (path ∷ seen) before ds
        | some text ↦ snapshot_from files (path ∷ seen) (record_file before path text true) ds
      ]
      else snapshot_from files seen before ds
]

unfoldable pub snapshot_before_content : Files → List (Diagnostic × Bool) → Before
unfolding snapshot_from
snapshot_before_content files ds = snapshot_from files [] (record { content = []; existed = [] }) ds

-- A `tool_call` event for `write_file`, with the path of its arguments, and whether its read is
-- answered.
unfoldable pub capture : Bool → Files → String → Before → Before
unfolding lookup
capture ok files path before = if path == "" then before else elim (lookup path before.content) [
  | some c ↦ before
  | none ↦ elim (read_file ok files path) [
    | some text ↦ record_file before path text true
    | none ↦ record_file before path "" false
  ]
]

-- The stream of an attempt: the announced writes, and the changes that the agent makes, by their
-- place below /workspace/.
pub data StreamEvent : Type 0 where
  calls_write_file : String → Bool → StreamEvent
  changes : String → Option String → StreamEvent

unfoldable pub run_agent_stream : Files → Before → List StreamEvent → Files × Before
unfolding capture set_file
run_agent_stream files before [] = (files, before)
run_agent_stream files before (calls_write_file path ok ∷ events) =
    run_agent_stream files (capture ok files path before) events
run_agent_stream files before (changes path content ∷ events) =
    run_agent_stream (set_file files path content) before events

-- `collectCheckpointDiffs`, without the diffs, which a rollback does not read.
unfoldable pub collect_checkpoint_diffs : List String → Before → List CheckpointDiffEntry
unfolding content_at existed_at
collect_checkpoint_diffs [] before = []
collect_checkpoint_diffs (path ∷ modified) before =
    record {
      file_path = path;
      file_existed = existed_at before path;
      original_content = content_at before path;
    }
    ∷ collect_checkpoint_diffs modified before

-- What `rollbackFromCheckpoint` meets: whether the checkpoint was stored and is loaded, whether the
-- k-th write or deletion succeeds, and the text of a JSON string that is read back.
pub record RollbackEnv : Type 0 where
  pub persist_ok : Bool
  pub load_ok : Bool
  pub write_ok : ℕ → Bool
  pub json_text : String → String

-- The loop of `rollbackFromCheckpoint`, from the k-th entry on.
unfoldable pub restore_entries : RollbackEnv → ℕ → List CheckpointDiffEntry → Files → Files
unfolding set_file
restore_entries env k [] files = files
restore_entries env k (entry ∷ entries) files = restore_entries env (suc k) entries (
    if env.write_ok k
    then set_file files (workspace_path (env.json_text entry.file_path))
        (if entry.file_existed then some (env.json_text entry.original_content) else none)
    else files)

unfoldable pub rollback_from_checkpoint : RollbackEnv → List CheckpointDiffEntry → Files → Files
unfolding restore_entries
rollback_from_checkpoint env entries files =
    if env.persist_ok && env.load_ok then restore_entries env 0 entries files else files

-- One attempt on the files, then its rollback: the entries are those of the files that the agent
-- reports as modified.
unfoldable pub attempt_then_rollback :
    RollbackEnv → Files → List (Diagnostic × Bool) → List StreamEvent → List String → Files
unfolding snapshot_before_content run_agent_stream collect_checkpoint_diffs rollback_from_checkpoint
attempt_then_rollback env files ds events modified =
    let (files', before) = run_agent_stream files (snapshot_before_content files ds) events in
    rollback_from_checkpoint env (collect_checkpoint_diffs modified before) files'
