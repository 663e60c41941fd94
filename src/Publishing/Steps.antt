-- ===== src/Publishing/Steps.antt =====
-- The steps of backend/internal/publishing/orchestrator.go. What the database, the workspace, the
-- agent and GitHub answer is an argument; a command that could not be started answers `none`.
use forge_engine.Prelude.{
  trim_space, ℕ, String, Bool, true, false, ◌&&◌, ◌||◌, not, Option, none, some, List, [], ◌∷◌,
  ◌++◌, map, if◌then◌else◌, nat_eq, Bytes, bytes, contains_sub,
}
use forge_engine.Workspace.Driver.{ExecEvent}
use forge_engine.Publishing.Text.{Unicode, generate_branch_name, truncate, staged_path}
use forge_engine.Publishing.Git.{has_error, last_code, output, all_output, last_line}
use forge_engine.Publishing.Rows.{
  State, GitBranch, PullRequest, newest, create_branch, update_session_branch,
}

-- A step goes on, returns an error, panics, or waits forever: the range over the channel of a command
-- that could not be started, which is nil.
pub data Outcome : Type 0 where
  goes : State → Outcome
  stops : String → State → Outcome
  panics hangs : State → Outcome

infixl 5 ◌>>=◌
abbrev pub ◌>>=◌ : Outcome → (State → Outcome) → Outcome
goes st >>= f = f st
stops e st >>= f = stops e st
panics st >>= f = panics st
hangs st >>= f = hangs st

pub record PublishRequest : Type 0 where
  pub work_item_id : Bytes
  pub task_execution_id : Bytes
  pub repo_full_name : Bytes
  pub default_branch : Bytes
  pub base_commit_sha : Bytes

-- The answer of a command.
abbrev pub Answer : Type 0
Answer = Option (List ExecEvent)

pub record Env : Type 0 where
  pub unicode : Unicode
  pub status_answer : Answer
  -- The intent of the item, where it loads; it is loaded for three steps.
  pub branch_intent : Option Bytes
  pub commit_intent : Option Bytes
  pub pr_intent : Option Bytes
  pub branch_query_ok : Bool
  pub branch_insert_ok : Bool
  -- Whether each query and each update of a row runs: of the new branch, of the pushed head, and below
  -- of the commit, the pull request and its state.
  pub branch_update_ok : Bool
  pub head_query_ok : Bool
  pub head_update_ok : Bool
  pub push_update_ok : Bool
  pub checkout_answer : Answer
  pub create_answer : Answer
  -- The paths of the diffs, and the agent's message: its subject and body.
  pub diffs : List Bytes
  pub commit_summary : Option (Bytes × Bytes)
  pub add_answer : Answer
  pub staged_answer : Answer
  pub add_all_answer : Answer
  pub name_answer : Answer
  pub email_answer : Answer
  pub commit_answer : Answer
  pub commit_head_answer : Answer
  pub commit_query_ok : Bool
  pub commit_insert_ok : Bool
  pub fetch_token : Option Bytes
  pub fetch_answer : Answer
  pub base_answer : Answer
  pub merge_answer : Answer
  pub abort_answer : Answer
  pub push_token : Option Bytes
  pub push_answer : ℕ → Answer
  pub head_answer : Answer
  pub pr_query_ok : Bool
  pub pr_created : Option PullRequest
  pub pr_insert_ok : Bool
  pub pr_branch_query_ok : Bool
  pub pr_update_ok : Bool
  pub sync_query_ok : Bool
  pub pr_state : Option String
  pub state_update_ok : Bool

-- A command in the workspace.
abbrev pub exec : List Bytes → State → State
exec cmd st = record st { commands = cmd ∷ st.commands }

-- `stepVerifyWorkspace`
unfoldable pub verify_workspace : Env → State → Outcome
verify_workspace env st₀ =
    let st : State = exec (bytes "git" ∷ bytes "status" ∷ bytes "--porcelain" ∷ []) st₀ in
    elim env.status_answer [
      | none ↦ stops "workspace not accessible" st
      | some events ↦ if has_error events then stops "workspace git status failed" st else goes st
    ]

-- The branch is created, or reset, under a name. An error event carries no data.
unfoldable pub create_fresh : Env → Bytes → State → Outcome
unfolding create_branch update_session_branch
create_fresh env name st₀ =
    let st : State = exec (bytes "git" ∷ bytes "checkout" ∷ bytes "-B" ∷ name ∷ []) st₀ in
    elim env.create_answer [
      | none ↦ stops "create branch" st
      | some events ↦
          if has_error events
          then stops "branch creation failed" st
          else if env.branch_insert_ok
          then goes (
              update_session_branch env.branch_update_ok name
                (record st { branches = create_branch name st.branches; branch_name = some name }))
          else stops "persist branch" st
    ]

-- A branch that was pushed before is checked out again.
unfoldable pub reuse_branch : Env → Bytes → State → Outcome
unfolding create_fresh
reuse_branch env name st₀ =
    let st : State = exec (bytes "git" ∷ bytes "checkout" ∷ name ∷ []) st₀ in
    elim env.checkout_answer [
      | none ↦ create_fresh env name st
      | some events ↦ goes (record st { branch_name = some name })
    ]

abbrev pub by_branch : Env → Bytes → Option GitBranch → State → Outcome
by_branch env name none st = create_fresh env name st
by_branch env name (some b) st =
    if b.is_pushed then reuse_branch env b.branch_name st else create_fresh env name st

-- `stepCreateBranch`
unfoldable pub step_create_branch : Env → PublishRequest → State → Outcome
unfolding generate_branch_name create_fresh reuse_branch
step_create_branch env req st = elim env.branch_intent [
  | none ↦ stops "load work item" st
  | some intent ↦
      by_branch env (generate_branch_name env.unicode intent req.work_item_id)
        (newest env.branch_query_ok st.branches) st
]

-- The subject and the body of the commit, by the agent or by default.
abbrev pub commit_summary : Env → PublishRequest → Bytes → Bytes × Bytes
unfolding truncate
commit_summary env req intent = elim env.commit_summary [
  | some s ↦ s
  | none ↦ (
    truncate intent 72,
    bytes "Forge Engine automated implementation"
        ++ ((10 ∷ 10 ∷ bytes "Work Item: ")
            ++ (req.work_item_id ++ ((10 ∷ bytes "Execution: ") ++ req.task_execution_id))),
  )
]

unfoldable pub commit_message : PublishRequest → Bytes × Bytes → Bytes
commit_message req (subject, body) =
    subject
    ++ ((elim body [ [] ↦ [] | c ∷ cs ↦ 10 ∷ 10 ∷ c ∷ cs ])
        ++ ((10 ∷ 10 ∷ bytes "Forge-Work-Item: ")
            ++ (req.work_item_id ++ ((10 ∷ bytes "Forge-Execution: ") ++ req.task_execution_id))))

-- A command whose start must succeed, and whose output is not read.
abbrev pub must : String → List Bytes → Answer → State → Outcome
must message cmd answer st = elim answer [
  | none ↦ stops message (exec cmd st)
  | some events ↦ goes (exec cmd st)
]

-- A command whose error is dropped: its channel is read all the same.
abbrev pub drain : List Bytes → Answer → (List ExecEvent → State → Outcome) → State → Outcome
drain cmd answer next st = elim answer [
  | none ↦ hangs (exec cmd st)
  | some events ↦ next events (exec cmd st)
]

abbrev pub is_empty : Bytes → Bool
is_empty [] = true
is_empty (c ∷ s) = false

abbrev pub go_on : List ExecEvent → State → Outcome
go_on events st = goes st

-- If nothing is staged, all files are.
abbrev pub after_staged : Env → List ExecEvent → State → Outcome
after_staged env events st =
    if is_empty (trim_space (output events))
    then drain (bytes "git" ∷ bytes "add" ∷ bytes "-A" ∷ []) env.add_all_answer go_on st
    else goes st

abbrev pub check_staged : Env → State → Outcome
check_staged env st =
    drain (bytes "git" ∷ bytes "diff" ∷ bytes "--cached" ∷ bytes "--stat" ∷ []) env.staged_answer
      (after_staged env) st

-- The files of the diffs are staged.
unfoldable pub stage_files : Env → List Bytes → State → Outcome
unfolding trim_space
stage_files env files st =
    must "git add" (bytes "git" ∷ bytes "add" ∷ bytes "--" ∷ files) env.add_answer st
    >>= check_staged env

abbrev pub config : String → String → Answer → State → Outcome
config key value answer st =
    must "git config" (bytes "git" ∷ bytes "config" ∷ bytes key ∷ bytes value ∷ []) answer st

-- What the commit's stream says.
unfoldable pub read_commit : List ExecEvent → State → Outcome
unfolding contains_sub
read_commit events st =
    if contains_sub (all_output events) (bytes "nothing to commit")
      || contains_sub (all_output events) (bytes "nothing added to commit")
    then stops "nothing to commit: workspace has no staged changes" st
    else if nat_eq (last_code 0 events) 0
    then goes st
    else stops "git commit failed" st

unfoldable pub commit_files : Env → Bytes → State → Outcome
unfolding read_commit
commit_files env message st₀ =
    let st : State =
      exec
        (bytes "git"
          ∷ bytes "commit"
          ∷ bytes "-m"
          ∷ message
          ∷ bytes "--author"
          ∷ bytes "Forge Engine <forge@forge-engine.dev>"
          ∷ [])
        st₀ in
    elim env.commit_answer [ none ↦ stops "git commit" st | some events ↦ read_commit events st ]

abbrev pub persist_commit : Env → Bytes → Bytes → State → State
persist_commit env sha message st = elim (newest env.commit_query_ok st.branches) [
  | none ↦ st
  | some b ↦
      if not (is_empty sha) && env.commit_insert_ok
      then record st { commits = record { commit_sha = sha; message = message } ∷ st.commits }
      else st
]

abbrev pub rev_parse : List Bytes
rev_parse = bytes "git" ∷ bytes "rev-parse" ∷ bytes "HEAD" ∷ []

unfoldable pub record_commit : Env → Bytes → State → Outcome
unfolding last_line
record_commit env message st = elim env.commit_head_answer [
  | none ↦ stops "get commit sha" (exec rev_parse st)
  | some events ↦ goes (persist_commit env (last_line [] events) message (exec rev_parse st))
]

abbrev pub commit_steps : Env → PublishRequest → Bytes → List Bytes → State → Outcome
commit_steps env req intent files st = do
  st₁ ← stage_files env files st
  st₂ ← config "user.name" "Forge Engine" env.name_answer st₁
  st₃ ← config "user.email" "forge@forge-engine.dev" env.email_answer st₂
  st₄ ← commit_files env (commit_message req (commit_summary env req intent)) st₃
  record_commit env (commit_message req (commit_summary env req intent)) st₄

-- `stepCreateCommits`; the intent of an item that did not load is read through a nil pointer.
unfoldable pub step_create_commits : Env → PublishRequest → State → Outcome
unfolding stage_files commit_files record_commit commit_message staged_path
step_create_commits env req st = elim env.commit_intent [
  | none ↦ panics st
  | some intent ↦ elim (map staged_path env.diffs) [
    | [] ↦ stops "nothing to commit: no diffs recorded for this execution" st
    | f ∷ files ↦ commit_steps env req intent (f ∷ files) st
  ]
]
