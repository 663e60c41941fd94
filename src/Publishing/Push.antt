-- ===== src/Publishing/Push.antt =====
-- The steps of backend/internal/publishing/orchestrator.go that reach GitHub: the check for
-- conflicts, the push, the pull request and the last synchronisation.
use forge_engine.Prelude.{
  ℕ, zero, suc, ◌+◌, String, Bool, true, false, ◌||◌, not, Option, none, some, List, [], ◌∷◌, ◌++◌,
  length, if◌then◌else◌, leb, Bytes, bytes, ◌==◌,
}
use forge_engine.Workspace.Driver.{ExecEvent, stdout, stderr, exit, timeout, stream_error}
use forge_engine.Publishing.Git.{is_bad, has_bad_exit, last_line}
use forge_engine.Publishing.Rows.{
  State, PullRequest, newest, update_branch_head, create_pull_request, update_pr_state,
  update_session_branch, update_session_pr, name_or_empty,
}
use forge_engine.Publishing.Steps.{
  Outcome, goes, stops, panics, ◌>>=◌, PublishRequest, Env, exec, drain, rev_parse, is_empty,
}

-- The credential helper that carries the token; its first and last parts are fixed.
abbrev pub credential_helper : Bytes → Bytes
credential_helper token =
    bytes
      "credential.helper=!f(){ echo \"protocol=https\"; echo \"host=github.com\"; echo \"username=x-access-token\"; echo \"password="
    ++ (token ++ bytes "\"; echo \"\"; }; f")

abbrev pub remote_url : PublishRequest → Bytes
remote_url req = bytes "https://github.com/" ++ (req.repo_full_name ++ bytes ".git")

abbrev pub abort_merge : Env → (State → Outcome) → State → Outcome
abort_merge env next st =
    drain (bytes "git" ∷ bytes "merge" ∷ bytes "--abort" ∷ []) env.abort_answer (λ es. next) st

abbrev pub after_merge : Env → List ExecEvent → State → Outcome
after_merge env events st =
    if has_bad_exit events
    then abort_merge env (stops "merge conflicts detected with base branch") st
    else abort_merge env goes st

abbrev pub merge_command : List Bytes
merge_command =
    bytes "git" ∷ bytes "merge" ∷ bytes "--no-commit" ∷ bytes "--no-ff" ∷ bytes "FETCH_HEAD" ∷ []

-- The attempt to merge where the base has diverged.
unfoldable pub try_merge : Env → State → Outcome
try_merge env st = elim env.merge_answer [
  | none ↦ goes (exec merge_command st)
  | some events ↦ after_merge env events (exec merge_command st)
]

-- The loop over the events of merge-base.
unfoldable pub check_base : Env → List ExecEvent → State → Outcome
unfolding try_merge
check_base env [] st = goes st
check_base env (exit n ∷ es) st =
    (if is_bad n then try_merge env st else goes st) >>= check_base env es
check_base env (stdout c ∷ es) st = check_base env es st
check_base env (stderr c ∷ es) st = check_base env es st
check_base env (timeout n ∷ es) st = check_base env es st
check_base env (stream_error e ∷ es) st = check_base env es st

abbrev pub fetch_command : PublishRequest → Bytes → List Bytes
fetch_command req token =
    bytes "git"
    ∷ bytes "-c"
    ∷ credential_helper token
    ∷ bytes "fetch"
    ∷ remote_url req
    ∷ req.default_branch
    ∷ []

abbrev pub ancestor_command : PublishRequest → List Bytes
ancestor_command req =
    bytes "git"
    ∷ bytes "merge-base"
    ∷ bytes "--is-ancestor"
    ∷ req.base_commit_sha
    ∷ bytes "FETCH_HEAD"
    ∷ []

abbrev pub after_base : Env → Option (List ExecEvent) → State → Outcome
after_base env none st = goes st
after_base env (some events) st = check_base env events st

abbrev pub after_fetch : Env → PublishRequest → Option (List ExecEvent) → State → Outcome
after_fetch env req none st = goes st
after_fetch env req (some events) st =
    after_base env env.base_answer (exec (ancestor_command req) st)

abbrev pub check_with_token : Env → PublishRequest → Option Bytes → State → Outcome
check_with_token env req none st = goes st
check_with_token env req (some token) st =
    after_fetch env req env.fetch_answer (exec (fetch_command req token) st)

-- `stepCheckConflicts`
unfoldable pub step_check_conflicts : Env → PublishRequest → State → Outcome
unfolding check_base
step_check_conflicts env req st = check_with_token env req env.fetch_token st

abbrev pub push_command : PublishRequest → Bytes → Bytes → List Bytes
push_command req token name =
    bytes "git" ∷ bytes "-c" ∷ credential_helper token ∷ bytes "push" ∷ remote_url req ∷ name ∷ []

-- An attempt without an error.
abbrev pub is_pushed : Option (List ExecEvent) → Bool
is_pushed none = false
is_pushed (some events) = not (has_bad_exit events)

-- `for attempt := 1; attempt <= PushMaxRetries; attempt++`, with the attempts that are left.
unfoldable pub push_attempts : ℕ → ℕ → Env → List Bytes → State → State × Bool
push_attempts zero attempt env cmd st = (st, false)
push_attempts (suc left) attempt env cmd st =
    let rest = push_attempts left (attempt + 1) env cmd (exec cmd st) in
    if is_pushed (env.push_answer attempt) then (exec cmd st, true) else rest

abbrev pub push_max_retries : ℕ
push_max_retries = 3

abbrev pub set_head : Env → Bytes → State → State
set_head env sha st = elim (newest env.head_query_ok st.branches) [
  | none ↦ st
  | some b ↦
      if leb 8 (length sha)
      then record st { branches = update_branch_head env.head_update_ok sha st.branches }
      else st
]

abbrev pub after_head : Env → Bytes → List ExecEvent → State → Outcome
after_head env name events st =
    goes (update_session_branch env.push_update_ok name (set_head env (last_line [] events) st))

-- After the push: the head of the branch.
unfoldable pub record_push : Env → Bytes → State → Outcome
unfolding last_line update_branch_head update_session_branch
record_push env name st = drain rev_parse env.head_answer (after_head env name) st

abbrev pub after_push : Env → Bytes → State × Bool → Outcome
after_push env name (st, ok) = if ok then record_push env name st else stops "push failed" st

abbrev pub push_with_token : Env → PublishRequest → Bytes → Option Bytes → State → Outcome
push_with_token env req name none st = stops "get push token" st
push_with_token env req name (some token) st =
    after_push env name (push_attempts push_max_retries 1 env (push_command req token name) st)

-- `stepPushBranch`
unfoldable pub step_push_branch : Env → PublishRequest → State → Outcome
unfolding push_attempts record_push
step_push_branch env req st =
    if is_empty (name_or_empty st.branch_name)
    then stops "no branch name set" st
    else push_with_token env req (name_or_empty st.branch_name) env.push_token st

abbrev pub is_live_pr : Option PullRequest → Bool
is_live_pr none = false
is_live_pr (some pr) = pr.state == "open" || pr.state == "draft"

-- The record of a new pull request.
unfoldable pub record_pr : Env → PullRequest → State → Outcome
unfolding create_pull_request update_session_pr
record_pr env pr st = elim (newest env.pr_branch_query_ok st.branches) [
  | none ↦ stops "branch record not found" st
  | some b ↦ goes (
      update_session_pr env.pr_update_ok pr.pr_number pr.url
        (record st { prs = create_pull_request env.pr_insert_ok pr st.prs; pr = some pr }))
]

-- The call of GitHub; the item's intent is read first.
unfoldable pub open_pr : Env → State → Outcome
unfolding record_pr
open_pr env st = elim env.pr_intent [
  | none ↦ panics st
  | some intent ↦ elim env.pr_created [
    | none ↦ stops "create PR" st
    | some pr ↦ record_pr env pr (record st { opened = pr.pr_number ∷ st.opened })
  ]
]

-- `stepCreatePR`
unfoldable pub step_create_pr : Env → State → Outcome
unfolding open_pr
step_create_pr env st =
    if is_live_pr (newest env.pr_query_ok st.prs)
    then goes (record st { pr = newest env.pr_query_ok st.prs })
    else open_pr env st

abbrev pub after_state : Env → Option String → State → Outcome
after_state env none st = goes st
after_state env (some state) st =
    if env.sync_query_ok
    then goes (record st { prs = update_pr_state env.state_update_ok state st.prs })
    else goes st

abbrev pub sync_pr : Env → Option PullRequest → State → Outcome
sync_pr env none st = goes st
sync_pr env (some pr) st = after_state env env.pr_state st

-- `stepSyncGitHub`
unfoldable pub step_sync_github : Env → State → Outcome
unfolding update_pr_state
step_sync_github env st = sync_pr env st.pr st
