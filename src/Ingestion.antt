-- ===== src/Ingestion.antt =====
-- The rows of `ingestion_jobs`: backend/internal/repository/ingestion_job_repository.go. Each method
-- is a function on the table; the first argument says whether its statement ran. Times are left out
-- but for the end of a job, by which the latest snapshot is found.
pub mod Worker
mod Taken
mod Rows
pub mod Claims
pub mod Enqueue
pub mod Process
pub mod Ends
use forge_engine.Prelude.{
  ℕ, String, Bool, true, false, ◌&&◌, ◌||◌, not, Option, none, some, List, [], ◌∷◌, ◌≡◌,
  if◌then◌else◌, ◌==◌,
}

pub data JobStatus : Type 0 where
  queued running done failed superseded : JobStatus

pub record IngestionJob : Type 0 where
  pub id : String
  pub repo_id : String
  pub commit_sha : String
  pub status : JobStatus
  pub progress_stage : Option String
  pub total_chunks : Option ℕ
  pub processed_chunks : ℕ
  pub worker_id : Option ℕ
  pub error : Option String

-- `GetByID`, where the query ran.
unfoldable pub find_job : String → List IngestionJob → Option IngestionJob
find_job id [] = none
find_job id (j ∷ jobs) = if j.id == id then some j else find_job id jobs

-- An UPDATE of the row with an id.
unfoldable pub update_job :
    String → (IngestionJob → IngestionJob) → List IngestionJob → List IngestionJob
update_job id f [] = []
update_job id f (j ∷ jobs) = if j.id == id then f j ∷ jobs else j ∷ update_job id f jobs

abbrev pub is_some_job : Option IngestionJob → Bool
is_some_job none = false
is_some_job (some j) = true

abbrev pub new_job : String → String → String → IngestionJob
new_job id repo sha = record {
  id = id;
  repo_id = repo;
  commit_sha = sha;
  status = queued;
  progress_stage = none;
  total_chunks = none;
  processed_chunks = 0;
  worker_id = none;
  error = none;
}

-- `Create`; the id is the primary key.
unfoldable pub create : Bool → String → String → String → List IngestionJob → List IngestionJob
unfolding find_job
create db id repo sha jobs =
    if db && not (is_some_job (find_job id jobs)) then new_job id repo sha ∷ jobs else jobs

abbrev pub is_queued : JobStatus → Bool
is_queued queued = true
is_queued running = false
is_queued done = false
is_queued failed = false
is_queued superseded = false

abbrev pub is_superseded_status : JobStatus → Bool
is_superseded_status superseded = true
is_superseded_status queued = false
is_superseded_status running = false
is_superseded_status done = false
is_superseded_status failed = false

-- `status IN ('queued', 'running')`
abbrev pub is_open : JobStatus → Bool
is_open queued = true
is_open running = true
is_open done = false
is_open failed = false
is_open superseded = false

pub data MarkError : Type 0 where
  statement_failed job_superseded not_markable : MarkError

-- The answer of `MarkRunning` when no row changed.
abbrev pub why_not : Option IngestionJob → MarkError
why_not none = statement_failed
why_not (some j) = if is_superseded_status j.status then job_superseded else not_markable

abbrev pub run_by : ℕ → IngestionJob → IngestionJob
run_by worker j = record j { status = running; worker_id = some worker }

abbrev pub is_queued_job : Option IngestionJob → Bool
is_queued_job none = false
is_queued_job (some j) = is_queued j.status

-- `MarkRunning`
unfoldable pub mark_running :
    Bool → String → ℕ → List IngestionJob → List IngestionJob × Option MarkError
unfolding find_job update_job
mark_running db id worker jobs =
    if not db
    then (jobs, some statement_failed)
    else if is_queued_job (find_job id jobs)
    then (update_job id (run_by worker) jobs, none)
    else (jobs, some (why_not (find_job id jobs)))

abbrev pub or_old {ℓ} : {A : Type ℓ} → Option A → Option A → Option A
or_old none old = old
or_old (some a) old = some a

-- `UpdateProgress`, with `COALESCE` for the total.
unfoldable pub update_progress :
    Bool → String → String → ℕ → Option ℕ → List IngestionJob → List IngestionJob
unfolding update_job
update_progress db id stage processed total jobs =
    if db
    then update_job id
        (λ j. record j {
          progress_stage = some stage;
          processed_chunks = processed;
          total_chunks = or_old total j.total_chunks;
        })
        jobs
    else jobs

-- `UpdateCommitSHA`
unfoldable pub update_commit_sha : Bool → String → String → List IngestionJob → List IngestionJob
unfolding update_job
update_commit_sha db id sha jobs =
    if db then update_job id (λ j. record j { commit_sha = sha }) jobs else jobs

-- `MarkDone`
unfoldable pub mark_done : Bool → String → ℕ → List IngestionJob → List IngestionJob
unfolding update_job
mark_done db id total jobs =
    if db
    then update_job id
        (λ j. record j {
          status = done;
          progress_stage = some "completed";
          total_chunks = some total;
          processed_chunks = total;
        })
        jobs
    else jobs

-- `MarkFailed`
unfoldable pub mark_failed : Bool → String → String → List IngestionJob → List IngestionJob
unfolding update_job
mark_failed db id err_msg jobs =
    if db
    then update_job id (λ j. record j { status = failed; error = some err_msg }) jobs
    else jobs

abbrev pub supersede : String → String → IngestionJob → IngestionJob
supersede repo exclude j =
    if j.repo_id == repo && (not (j.id == exclude) && is_open j.status)
    then record j { status = superseded }
    else j

-- `SupersedeOlderJobs`
unfoldable pub supersede_older : Bool → String → String → List IngestionJob → List IngestionJob
supersede_older db repo exclude [] = []
supersede_older db repo exclude (j ∷ jobs) =
    (if db then supersede repo exclude j else j) ∷ supersede_older db repo exclude jobs
