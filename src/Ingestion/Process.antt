-- ===== src/Ingestion/Process.antt =====
-- A worker that takes a job from its load to its end with nothing in between.
use forge_engine.Prelude.{
  ◌≡◌, refl, sym, subst, ap, ◌∙◌, String, Bool, true, false, ◌&&◌, not, Option, none, some, List,
  [], ◌∷◌, if-lift, if◌then◌else◌, ◌==◌, arith, ℕ, nat_eq, nat_eq_iff,
}
use mathlib.Core.Option
use forge_engine.Ingestion.{
  IngestionJob, find_job, update_job, JobStatus, queued, running, done, failed, run_by,
  mark_running, mark_done, mark_failed, update_progress, update_commit_sha, is_superseded_status,
  is_queued_job, why_not,
}
use forge_engine.Ingestion.Enqueue.{status_of}
use forge_engine.Ingestion.Rows.{KeepsId, find_job-update_job}
use forge_engine.Ingestion.Worker.{
  set_phase, System, Act, loads, starts, checks, clones, calls_agent, ends, Phase, idle, popped,
  loaded, started, cloned, checked, ingesting, goes_to, gives_up, load_job, start_job, clone_job,
  check_job, call_agent, take_events, conclude_job, end_job, step, ProgressEvent, progress,
  finished, agent_error, Progress, CloneResult, resolved, clone_failed, resolve_commit, after_load,
  after_check, after_mark,
}

-- What a worker is answered on its way.
pub record Answers : Type 0 where
  pub lookup_error : Option String
  pub clone : CloneResult
  pub sign_ok : Bool
  pub stream_ok : Bool
  pub events : List ProgressEvent

-- Every update of the progress runs.
abbrev pub stored : List ProgressEvent → List (ProgressEvent × Bool)
stored [] = []
stored (e ∷ es) = (e, true) ∷ stored es

abbrev pub uninterrupted : ℕ → Answers → List Act
uninterrupted w ans =
    loads w true
    ∷ starts w true
    ∷ clones w ans.lookup_error true true ans.clone
    ∷ checks w true true
    ∷ calls_agent w ans.sign_ok true
    ∷ ends w ans.stream_ok (stored ans.events) true
    ∷ []

abbrev pub is_absent : Option String → Bool
is_absent none = true
is_absent (some e) = false

abbrev pub is_resolved : CloneResult → Bool
is_resolved (resolved commit) = true
is_resolved (clone_failed e) = false

abbrev pub has_no_error : List ProgressEvent → Bool
has_no_error [] = true
has_no_error (progress stage processed total ∷ es) = has_no_error es
has_no_error (finished total ∷ es) = has_no_error es
has_no_error (agent_error e ∷ es) = false

-- The two ends of a job that was started.
abbrev pub outcome : Bool → JobStatus
outcome ok = if ok then done else failed

-- Where the worker stands, and the status of its job.
abbrev pub At : ℕ → String → Phase → JobStatus → System → Type 0
At w id p st s = (s.phases w ≡ p) × (status_of (find_job id s.jobs) ≡ some st)

nat_eq_self : (n : ℕ) → nat_eq n n ≡ true
nat_eq_self n = (nat_eq_iff n n).1 refl

own_phase : (w : ℕ) (p : Phase) (phases : ℕ → Phase) → set_phase phases w p w ≡ p
own_phase w p phases = rw (nat_eq_self w) refl

status_map :
    (f : IngestionJob → IngestionJob) (g : JobStatus → JobStatus) (o : Option IngestionJob)
    → ((j : IngestionJob) → (f j).status ≡ g j.status)
    → status_of (Option.map f o) ≡ Option.map g (status_of o)
status_map f g none h = refl
status_map f g (some j) h = ap some (h j)

-- The status of a row after an update of it.
pub status-update_job :
    (id : String) (f : IngestionJob → IngestionJob) (g : JobStatus → JobStatus)
    (jobs : List IngestionJob) (st : JobStatus)
    → KeepsId f
    → ((j : IngestionJob) → (f j).status ≡ g j.status)
    → status_of (find_job id jobs) ≡ some st
    → status_of (find_job id (update_job id f jobs)) ≡ some (g st)
status-update_job id f g jobs st k h e =
    ap status_of (find_job-update_job id f jobs k)
    ∙ status_map f g (find_job id jobs) h
    ∙ ap (Option.map g) e

gives_up-At :
    (w : ℕ) (id e : String) (st : JobStatus) (s : System)
    → status_of (find_job id s.jobs) ≡ some st
    → At w id idle failed (gives_up w true id e s)
unfolding mark_failed
gives_up-At w id e st s h = (
  own_phase w idle s.phases,
  (status-update_job id _ (λ _. failed) s.jobs st (λ _. refl) (λ _. refl) h),
)

pub by_phase :
    (w : ℕ) (p : Phase) (s : System) (Q : System → Type 0) (f : Phase → System → System)
    → s.phases w ≡ p
    → Q (f p s)
    → Q (f (s.phases w) s)
by_phase w p s Q f e q = subst (λ (x : Phase). Q (f x s)) (sym e) q

loaded-At :
    (w : ℕ) (id : String) (s : System) (o : Option IngestionJob)
    → find_job id s.jobs ≡ o
    → status_of o ≡ some queued
    → (sha : String) × At w id (loaded id sha) queued (after_load w id o s)
loaded-At w id s none e h = cc
loaded-At w id s (some j) e h =
    let plain : is_superseded_status j.status ≡ false = ground arith in
    (j.commit_sha, rw plain (own_phase w (loaded id j.commit_sha) s.phases, (ap status_of e ∙ h)))

pub load_job-At :
    (w : ℕ) (id : String) (s : System)
    → At w id (popped id) queued s
    → (sha : String) × At w id (loaded id sha) queued (step (loads w true) s)
unfolding step load_job
load_job-At w id s (e, h) =
    by_phase w (popped id) s (λ s'. (sha : String) × At w id (loaded id sha) queued s')
      (load_job w true) e (loaded-At w id s (find_job id s.jobs) refl h)

queued_job : (o : Option IngestionJob) → status_of o ≡ some queued → is_queued_job o ≡ true
queued_job none h = cc
queued_job (some j) h = ground arith

pub start_job-At :
    (w : ℕ) (id sha : String) (s : System)
    → At w id (loaded id sha) queued s
    → At w id (started id sha) running (step (starts w true) s)
unfolding step start_job mark_running
start_job-At w id sha s (e, h) =
    by_phase w (loaded id sha) s (At w id (started id sha) running) (start_job w true) e (
      subst
        (λ (b : Bool). At w id (started id sha) running (
          after_mark w id sha s (
            if b
            then (update_job id (run_by w) s.jobs, none)
            else (s.jobs, some (why_not (find_job id s.jobs))))))
        (sym (queued_job (find_job id s.jobs) h))
        (
          own_phase w (started id sha) s.phases,
          (status-update_job id (run_by w) (λ _. running) s.jobs queued (λ _. refl) (λ _. refl) h),
        ))

-- Progress and commits do not change the status.
update_progress-status :
    (id stage : String) (n : ℕ) (total : Option ℕ) (jobs : List IngestionJob) (st : JobStatus)
    → status_of (find_job id jobs) ≡ some st
    → status_of (find_job id (update_progress true id stage n total jobs)) ≡ some st
unfolding update_progress
update_progress-status id stage n total jobs st h =
    status-update_job id _ (λ x. x) jobs st (λ _. refl) (λ _. refl) h

resolve_commit-status :
    (id sha commit : String) (jobs : List IngestionJob) (st : JobStatus)
    → status_of (find_job id jobs) ≡ some st
    → status_of (find_job id (resolve_commit true id sha commit jobs)) ≡ some st
unfolding resolve_commit update_commit_sha
resolve_commit-status id sha commit jobs st h =
    if-lift (λ jobs'. status_of (find_job id jobs') ≡ some st)
      (not (commit == sha) && not (commit == "")) _ jobs
      (λ _. status-update_job id _ (λ x. x) jobs st (λ _. refl) (λ _. refl) h) (λ _. h)

-- A part goes on, or its job has failed.
abbrev pub Went : ℕ → String → Phase → Bool → System → Type 0
Went w id p ok s = if ok then At w id p running s else At w id idle failed s

pub clone_job-At :
    (w : ℕ) (id sha : String) (lookup_error : Option String) (c : CloneResult) (s : System)
    → At w id (started id sha) running s
    → Went w id
        (cloned id)
        (is_absent lookup_error && is_resolved c)
        (step (clones w lookup_error true true c) s)
unfolding step clone_job
clone_job-At w id sha lookup_error c s (e, h) =
    by_phase w (started id sha) s (Went w id (cloned id) (is_absent lookup_error && is_resolved c))
      (clone_job w lookup_error true true c) e (went lookup_error c)
  where
    s' : System
    s' = record s { jobs = update_progress true id "cloning" 0 none s.jobs }

    h' : status_of (find_job id s'.jobs) ≡ some running
    h' = update_progress-status id "cloning" 0 none s.jobs running h

    went :
        (lookup_error : Option String) (c : CloneResult)
        → Went w id
            (cloned id)
            (is_absent lookup_error && is_resolved c)
            (clone_job w lookup_error true true c (started id sha) s)
    went (some x) c = gives_up-At w id x running s h
    went none (clone_failed x) = gives_up-At w id x running s' h'
    went none (resolved commit) =
        (own_phase w (cloned id) s.phases, (resolve_commit-status id sha commit s'.jobs running h'))

checked-At :
    (w : ℕ) (id : String) (s : System) (o : Option IngestionJob)
    → find_job id s.jobs ≡ o
    → status_of o ≡ some running
    → At w id (checked id) running (after_check w true id o s)
checked-At w id s none e h = cc
checked-At w id s (some j) e h =
    let plain : is_superseded_status j.status ≡ false = ground arith in
    rw plain (own_phase w (checked id) s.phases, (ap status_of e ∙ h))

pub check_job-At :
    (w : ℕ) (id : String) (s : System)
    → At w id (cloned id) running s
    → At w id (checked id) running (step (checks w true true) s)
unfolding step check_job
check_job-At w id s (e, h) =
    by_phase w (cloned id) s (At w id (checked id) running) (check_job w true true) e
      (checked-At w id s (find_job id s.jobs) refl h)

pub call_agent-At :
    (w : ℕ) (id : String) (sign_ok : Bool) (s : System)
    → At w id (checked id) running s
    → Went w id (ingesting id) sign_ok (step (calls_agent w sign_ok true) s)
unfolding step call_agent
call_agent-At w id sign_ok s (e, h) =
    by_phase w (checked id) s (Went w id (ingesting id) sign_ok) (call_agent w sign_ok true) e
      (went sign_ok)
  where
    went : (ok : Bool) → Went w id (ingesting id) ok (call_agent w ok true (checked id) s)
    went true = (own_phase w (ingesting id) s.phases, h)
    went false = gives_up-At w id "failed to sign agent token" running s h

take_events-status :
    (id : String) (es : List ProgressEvent) (p : Progress) (jobs : List IngestionJob)
    (st : JobStatus)
    → status_of (find_job id jobs) ≡ some st
    → status_of (find_job id (take_events id (stored es) p jobs).0) ≡ some st
unfolding take_events
take_events-status id [] p jobs st h = h
take_events-status id (progress stage processed total ∷ es) p jobs st h =
    take_events-status id es _ _ st (update_progress-status id stage processed _ jobs st h)
take_events-status id (finished total ∷ es) p jobs st h = take_events-status id es _ jobs st h
take_events-status id (agent_error e ∷ es) p jobs st h = take_events-status id es _ jobs st h

-- The error of the callback's variable is there exactly when the agent reported one.
take_events-failure :
    (id : String) (es : List ProgressEvent) (p : Progress) (jobs : List IngestionJob)
    → is_absent (take_events id (stored es) p jobs).1.failure
      ≡ (has_no_error es && is_absent p.failure)
unfolding take_events
take_events-failure id [] p jobs = refl
take_events-failure id (progress stage processed total ∷ es) p jobs = take_events-failure id es _ _
take_events-failure id (finished total ∷ es) p jobs = take_events-failure id es _ jobs
take_events-failure id (agent_error e ∷ es) p jobs =
    take_events-failure id es _ jobs ∙ and_false (has_no_error es)
  where
    and_false : (b : Bool) → (b && false) ≡ false
    and_false true = refl
    and_false false = refl

mark_done-status :
    (id : String) (n : ℕ) (jobs : List IngestionJob) (st : JobStatus)
    → status_of (find_job id jobs) ≡ some st
    → status_of (find_job id (mark_done true id n jobs)) ≡ some done
unfolding mark_done
mark_done-status id n jobs st h =
    status-update_job id _ (λ _. done) jobs st (λ _. refl) (λ _. refl) h

conclude_job-At :
    (w : ℕ) (stream_ok : Bool) (id : String) (p : Progress) (st : JobStatus) (s : System)
    → status_of (find_job id s.jobs) ≡ some st
    → At w id idle
        (outcome (stream_ok && is_absent p.failure))
        (conclude_job w true stream_ok id p s)
conclude_job-At w false id p st s h = gives_up-At w id "agent ingest failed" st s h
conclude_job-At w true id p st s h = by_failure p.failure
  where
    by_failure :
        (f : Option String)
        → At w id idle (outcome (is_absent f)) (elim f [
          | some message ↦ gives_up w true id message s
          | none ↦
              goes_to w idle (record s { jobs = mark_done true id p.final_total_chunks s.jobs })
        ])
    by_failure none =
        (own_phase w idle s.phases, mark_done-status id p.final_total_chunks s.jobs st h)
    by_failure (some e) = gives_up-At w id e st s h

-- From the agent's stream the job is done or failed, whatever its status has become.
pub end_job-At :
    (w : ℕ) (id : String) (stream_ok : Bool) (es : List ProgressEvent) (st : JobStatus) (s : System)
    → At w id (ingesting id) st s
    → At w id idle
        (outcome (stream_ok && has_no_error es))
        (step (ends w stream_ok (stored es) true) s)
unfolding step end_job
end_job-At w id stream_ok es st s (e, h) =
    by_phase w (ingesting id) s (At w id idle (outcome (stream_ok && has_no_error es)))
      (end_job w stream_ok (stored es) true) e
      (subst
        (λ b.
          At w id idle (outcome (stream_ok && b))
            (end_job w stream_ok (stored es) true (ingesting id) s))
        (take_events-failure id es start s.jobs ∙ and_true (has_no_error es))
        (conclude_job-At w stream_ok id r.1 st (record s { jobs = r.0 })
          (take_events-status id es start s.jobs st h)))
  where
    start : Progress
    start = record { last_total = 0; final_total_chunks = 0; failure = none }

    r : List IngestionJob × Progress
    r = take_events id (stored es) start s.jobs

    and_true : (b : Bool) → (b && true) ≡ b
    and_true true = refl
    and_true false = refl
