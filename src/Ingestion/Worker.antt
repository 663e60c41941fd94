-- ===== src/Ingestion/Worker.antt =====
-- The workers and the queue of backend/internal/ingestion/job_worker.go, and `EnqueueForRepo`. Each
-- action is the part of a worker or of a request between two accesses to what is shared, so that a
-- list of actions is an interleaving; an action that a worker is not ready for does nothing.
use forge_engine.Prelude.{
  ℕ, String, Bool, true, false, ◌&&◌, not, Option, none, some, List, [], ◌∷◌, ◌++◌, if◌then◌else◌,
  ◌==◌, nat_eq, ltb,
}
use forge_engine.Ingestion.{
  IngestionJob, MarkError, find_job, create, is_superseded_status, mark_running, update_progress,
  update_commit_sha, mark_done, mark_failed, supersede_older,
}

-- What `Agent.Ingest` reports while it runs.
pub data ProgressEvent : Type 0 where
  progress : String → ℕ → ℕ → ProgressEvent
  finished : ℕ → ProgressEvent
  agent_error : String → ProgressEvent

-- Where a worker stands in `processJob`.
pub data Phase : Type 0 where
  idle : Phase
  popped : String → Phase
  -- With the commit of the row that was read.
  loaded started : String → String → Phase
  cloned checked ingesting : String → Phase

-- What the cloner answers: the commit that it resolved, or its error.
pub data CloneResult : Type 0 where
  resolved clone_failed : String → CloneResult

pub record System : Type 0 where
  pub jobs : List IngestionJob
  pub queue : List String
  pub phases : ℕ → Phase
  -- The jobs that a worker marked running, and those given to the agent, newest first.
  pub claims : List String
  pub ingested : List String

pub data Act : Type 0 where
  -- The parts of `EnqueueForRepo`.
  creates : Bool → String → String → String → Act
  supersedes : Bool → String → String → Act
  pushes : String → Act
  -- The parts of a worker; the flags say whether its queries and statements run.
  pops : ℕ → Act
  loads starts : ℕ → Bool → Act
  -- The query of the check, and the `MarkFailed` after one that failed.
  checks : ℕ → Bool → Bool → Act
  -- The error of a lookup of the repository, the installation or the token, and the clone.
  clones : ℕ → Option String → Bool → Bool → CloneResult → Act
  calls_agent : ℕ → Bool → Bool → Act
  -- Whether the stream of the agent ended well, its events, each with whether its update runs, and
  -- whether the last statement runs.
  ends : ℕ → Bool → List (ProgressEvent × Bool) → Bool → Act

abbrev pub set_phase : (ℕ → Phase) → ℕ → Phase → ℕ → Phase
set_phase phases w p v = if nat_eq w v then p else phases v

abbrev pub goes_to : ℕ → Phase → System → System
goes_to w p s = record s { phases = set_phase s.phases w p }

-- A worker gives up a job: `MarkFailed` and the return.
abbrev pub gives_up : ℕ → Bool → String → String → System → System
gives_up w db id message s = goes_to w idle (record s { jobs = mark_failed db id message s.jobs })

-- From `BLPop` to the job's id.
abbrev pub pop_job : ℕ → Phase → System → System
pop_job w idle s = elim s.queue [
  | [] ↦ s
  | id ∷ rest ↦ goes_to w (popped id) (record s { queue = rest })
]
pop_job w _ s = s

abbrev pub after_load : ℕ → String → Option IngestionJob → System → System
after_load w id none s = goes_to w idle s
after_load w id (some j) s =
    if is_superseded_status j.status then goes_to w idle s else goes_to w (loaded id j.commit_sha) s

-- The load and the first check.
unfoldable pub load_job : ℕ → Bool → Phase → System → System
unfolding find_job
load_job w get_ok (popped id) s = after_load w id (if get_ok then find_job id s.jobs else none) s
load_job w get_ok _ s = s

abbrev pub after_mark : ℕ → String → String → System → List IngestionJob × Option MarkError → System
after_mark w id sha s (jobs, some e) = goes_to w idle (record s { jobs = jobs })
after_mark w id sha s (jobs, none) =
    goes_to w (started id sha) (record s { jobs = jobs; claims = id ∷ s.claims })

unfoldable pub start_job : ℕ → Bool → Phase → System → System
unfolding mark_running
start_job w db (loaded id sha) s = after_mark w id sha s (mark_running db id w s.jobs)
start_job w db _ s = s

-- The commit is written back where the clone resolved another.
unfoldable pub resolve_commit :
    Bool → String → String → String → List IngestionJob → List IngestionJob
unfolding update_commit_sha
resolve_commit db id sha commit jobs =
    if not (commit == sha) && not (commit == "") then update_commit_sha db id commit jobs else jobs

abbrev pub after_clone : ℕ → Bool → String → String → CloneResult → System → System
after_clone w db id sha (clone_failed e) s = gives_up w db id e s
after_clone w db id sha (resolved commit) s =
    goes_to w (cloned id) (record s { jobs = resolve_commit db id sha commit s.jobs })

-- The lookups, the progress, the clone and the commit that it resolves.
unfoldable pub clone_job : ℕ → Option String → Bool → Bool → CloneResult → Phase → System → System
unfolding mark_failed update_progress resolve_commit
clone_job w lookup_error db progress_ok clone (started id sha) s = elim lookup_error [
  | some e ↦ gives_up w db id e s
  | none ↦
      after_clone w db id sha clone
        (record s { jobs = update_progress progress_ok id "cloning" 0 none s.jobs })
]
clone_job w lookup_error db progress_ok clone _ s = s

abbrev pub after_check : ℕ → Bool → String → Option IngestionJob → System → System
after_check w db id none s = gives_up w db id "supersede check failed" s
after_check w db id (some j) s =
    if is_superseded_status j.status then goes_to w idle s else goes_to w (checked id) s

-- The second check: `IsSuperseded`.
unfoldable pub check_job : ℕ → Bool → Bool → Phase → System → System
unfolding find_job mark_failed
check_job w get_ok mark_ok (cloned id) s =
    after_check w mark_ok id (if get_ok then find_job id s.jobs else none) s
check_job w get_ok mark_ok _ s = s

-- The token for the agent, and the call.
unfoldable pub call_agent : ℕ → Bool → Bool → Phase → System → System
unfolding mark_failed
call_agent w sign_ok db (checked id) s =
    if sign_ok
    then goes_to w (ingesting id) (record s { ingested = id ∷ s.ingested })
    else gives_up w db id "failed to sign agent token" s
call_agent w sign_ok db _ s = s

-- The variables of the callback.
pub record Progress : Type 0 where
  pub last_total : ℕ
  pub final_total_chunks : ℕ
  pub failure : Option String

abbrev pub total_of : ℕ → Option ℕ
total_of n = if nat_eq n 0 then none else some n

-- The callback, over all events.
unfoldable pub take_events :
    String
    → List (ProgressEvent × Bool)
    → Progress
    → List IngestionJob
    → List IngestionJob × Progress
unfolding update_progress
take_events id [] p jobs = (jobs, p)
take_events id ((progress stage processed total, db) ∷ es) p jobs =
    let last = if ltb 0 total then total else p.last_total in
    take_events id es (record p { last_total = last })
      (update_progress db id stage processed (total_of last) jobs)
take_events id ((finished total, db) ∷ es) p jobs =
    take_events id es (record p { final_total_chunks = total }) jobs
take_events id ((agent_error message, db) ∷ es) p jobs =
    take_events id es (record p { failure = some message }) jobs

abbrev pub conclude_job : ℕ → Bool → Bool → String → Progress → System → System
conclude_job w db stream_ok id p s =
    if not stream_ok then gives_up w db id "agent ingest failed" s else elim p.failure [
      | some message ↦ gives_up w db id message s
      | none ↦ goes_to w idle (record s { jobs = mark_done db id p.final_total_chunks s.jobs })
    ]

-- From the agent's stream to the end of `processJob`.
unfoldable pub end_job : ℕ → Bool → List (ProgressEvent × Bool) → Bool → Phase → System → System
unfolding take_events mark_done mark_failed
end_job w stream_ok events db (ingesting id) s =
    let (jobs, p) =
      take_events id events (record { last_total = 0; final_total_chunks = 0; failure = none })
        s.jobs in
    conclude_job w db stream_ok id p (record s { jobs = jobs })
end_job w stream_ok events db _ s = s

unfoldable pub step : Act → System → System
unfolding create supersede_older load_job start_job clone_job check_job call_agent end_job
step (creates db id repo sha) s = record s { jobs = create db id repo sha s.jobs }
step (supersedes db repo exclude) s = record s { jobs = supersede_older db repo exclude s.jobs }
step (pushes id) s = record s { queue = s.queue ++ (id ∷ []) }
step (pops w) s = pop_job w (s.phases w) s
step (loads w ok) s = load_job w ok (s.phases w) s
step (starts w ok) s = start_job w ok (s.phases w) s
step (checks w get_ok mark_ok) s = check_job w get_ok mark_ok (s.phases w) s
step (clones w lookup_error db progress_ok clone) s =
    clone_job w lookup_error db progress_ok clone (s.phases w) s
step (calls_agent w sign_ok db) s = call_agent w sign_ok db (s.phases w) s
step (ends w stream_ok events db) s = end_job w stream_ok events db (s.phases w) s

unfoldable pub run : List Act → System → System
unfolding step
run [] s = s
run (a ∷ acts) s = run acts (step a s)

-- `EnqueueForRepo`, undisturbed: it returns at once where the row is not created.
abbrev pub enqueue_for_repo : Bool → Bool → String → String → String → List Act
enqueue_for_repo create_ok supersede_ok id repo sha =
    if create_ok
    then creates true id repo sha ∷ supersedes supersede_ok repo id ∷ pushes id ∷ []
    else creates false id repo sha ∷ []
