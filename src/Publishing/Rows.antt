-- ===== src/Publishing/Rows.antt =====
-- The rows of one work item's publishing (backend/internal/publishing/repository.go), newest first,
-- and what the pipeline does outside: the commands in the workspace and the pull requests it opens.
-- The first argument of a method says whether its statement ran.
use forge_engine.Prelude.{
  ℕ, String, Bool, true, false, Option, none, some, List, [], ◌∷◌, if◌then◌else◌, nat_eq, Bytes,
  bytes_eq,
}
use forge_engine.WorkItem.{WorkItem}

pub data SessionStatus : Type 0 where
  pending verifying branching committing conflict_check pushing creating_pr syncing completed failed
        cancelled :
      SessionStatus

pub record PublishingSession : Type 0 where
  pub status : SessionStatus
  -- The step of the pipeline by its status.
  pub current_step : Option SessionStatus
  pub branch_name : Option Bytes
  pub pr_number : Option ℕ
  pub pr_url : Option String
  pub error_message : Option String

pub record GitBranch : Type 0 where
  pub branch_name : Bytes
  pub head_commit_sha : Option Bytes
  pub is_pushed : Bool

pub record GitCommit : Type 0 where
  pub commit_sha : Bytes
  pub message : Bytes

pub record PullRequest : Type 0 where
  pub pr_number : ℕ
  pub url : String
  pub state : String

pub record State : Type 0 where
  pub row : PublishingSession
  -- The session of the running pipeline.
  pub branch_name : Option Bytes
  pub pr : Option PullRequest
  pub branches : List GitBranch
  pub commits : List GitCommit
  pub prs : List PullRequest
  pub item : WorkItem
  pub commands : List (List Bytes)
  pub opened : List ℕ

abbrev pub set_row : (PublishingSession → PublishingSession) → State → State
set_row f st = record st { row = f st.row }

unfoldable pub update_session_step : Bool → SessionStatus → State → State
update_session_step db step st =
    if db then set_row (λ r. record r { status = step; current_step = some step }) st else st

abbrev pub or_zero : Option PullRequest → PullRequest
or_zero none = record { pr_number = 0; url = ""; state = "" }
or_zero (some pr) = pr

abbrev pub name_or_empty : Option Bytes → Bytes
name_or_empty none = []
name_or_empty (some name) = name

unfoldable pub mark_session_completed : Bool → Bytes → ℕ → String → State → State
mark_session_completed db name number url st =
    if db
    then set_row
        (λ r. record r {
          status = completed;
          current_step = some completed;
          branch_name = some name;
          pr_number = some number;
          pr_url = some url;
        })
        st
    else st

unfoldable pub mark_session_failed : Bool → SessionStatus → String → State → State
mark_session_failed db step message st =
    if db
    then set_row
        (λ r. record r { status = failed; current_step = some step; error_message = some message })
        st
    else st

unfoldable pub update_session_branch : Bool → Bytes → State → State
update_session_branch db name st =
    if db then set_row (λ r. record r { branch_name = some name }) st else st

unfoldable pub update_session_pr : Bool → ℕ → String → State → State
update_session_pr db number url st =
    if db then set_row (λ r. record r { pr_number = some number; pr_url = some url }) st else st

-- The newest row; `db` says whether the query ran.
abbrev pub newest {ℓ} : {A : Type ℓ} → Bool → List A → Option A
newest false xs = none
newest true [] = none
newest true (x ∷ xs) = some x

abbrev has_branch : Bytes → List GitBranch → Bool
has_branch name [] = false
has_branch name (b ∷ bs) = if bytes_eq b.branch_name name then true else has_branch name bs

-- `CreateBranch`; a row of the same name keeps what is modelled of it.
unfoldable pub create_branch : Bytes → List GitBranch → List GitBranch
unfolding bytes_eq
create_branch name bs =
    if has_branch name bs
    then bs
    else record { branch_name = name; head_commit_sha = none; is_pushed = false } ∷ bs

-- `UpdateBranchHead` of the newest branch.
unfoldable pub update_branch_head : Bool → Bytes → List GitBranch → List GitBranch
update_branch_head db sha [] = []
update_branch_head db sha (b ∷ bs) =
    if db then record b { head_commit_sha = some sha; is_pushed = true } ∷ bs else b ∷ bs

abbrev replace_pr : PullRequest → List PullRequest → List PullRequest
replace_pr new [] = []
replace_pr new (p ∷ ps) =
    if nat_eq p.pr_number new.pr_number then new ∷ ps else p ∷ replace_pr new ps

abbrev has_pr : ℕ → List PullRequest → Bool
has_pr n [] = false
has_pr n (p ∷ ps) = if nat_eq p.pr_number n then true else has_pr n ps

-- `CreatePullRequest`, with its `ON CONFLICT`.
unfoldable pub create_pull_request : Bool → PullRequest → List PullRequest → List PullRequest
create_pull_request db new prs =
    if db then (if has_pr new.pr_number prs then replace_pr new prs else new ∷ prs) else prs

-- `UpdatePRState` of the newest pull request.
unfoldable pub update_pr_state : Bool → String → List PullRequest → List PullRequest
update_pr_state db state [] = []
update_pr_state db state (p ∷ ps) = if db then record p { state = state } ∷ ps else p ∷ ps
