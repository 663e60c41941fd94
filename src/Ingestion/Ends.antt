-- ===== src/Ingestion/Ends.antt =====
-- How a job ends.
use forge_engine.Prelude.{◌≡◌, refl, ap, ◌∙◌, String, Bool, true, false, ◌&&◌, some, List, ◌==◌, ℕ}
use mathlib.Core.Option
use forge_engine.Ingestion.{
  IngestionJob, find_job, JobStatus, queued, running, failed, superseded, supersede_older,
  supersede, is_open,
}
use forge_engine.Ingestion.Enqueue.{status_of}
use forge_engine.Ingestion.Rows.{find_job-supersede_older}
use forge_engine.Ingestion.Worker.{
  System, loads, starts, checks, clones, calls_agent, ends, supersedes, idle, popped, cloned,
  ingesting, check_job, call_agent, end_job, step, run, ProgressEvent,
}
use forge_engine.Ingestion.Process.{
  Answers, stored, uninterrupted, is_absent, is_resolved, has_no_error, outcome, At, by_phase, Went,
  load_job-At, start_job-At, clone_job-At, check_job-At, call_agent-At, end_job-At,
}

-- Every answer lets the worker go on.
abbrev pub is_success : Answers → Bool
is_success ans =
    (is_absent ans.lookup_error && is_resolved ans.clone)
    && (ans.sign_ok && (ans.stream_ok && has_no_error ans.events))

module _ (w : ℕ) (id : String) (ans : Answers) where
  -- A worker that has given up does nothing with the parts that remain.
  ends-idle :
      (st : JobStatus) (s : System)
      → At w id idle st s
      → At w id idle st (step (ends w ans.stream_ok (stored ans.events) true) s)
  unfolding step end_job
  ends-idle st s h =
      by_phase w idle s (At w id idle st) (end_job w ans.stream_ok (stored ans.events) true) h.0 h

  calls_agent-idle :
      (st : JobStatus) (s : System)
      → At w id idle st s
      → At w id idle st (step (calls_agent w ans.sign_ok true) s)
  unfolding step call_agent
  calls_agent-idle st s h =
      by_phase w idle s (At w id idle st) (call_agent w ans.sign_ok true) h.0 h

  checks-idle :
      (st : JobStatus) (s : System)
      → At w id idle st s
      → At w id idle st (step (checks w true true) s)
  unfolding step check_job
  checks-idle st s h = by_phase w idle s (At w id idle st) (check_job w true true) h.0 h

  from_agent :
      (ok : Bool) (s : System)
      → Went w id (ingesting id) ok s
      → At w id idle
          (outcome (ok && (ans.stream_ok && has_no_error ans.events)))
          (step (ends w ans.stream_ok (stored ans.events) true) s)
  from_agent true s h = end_job-At w id ans.stream_ok ans.events running s h
  from_agent false s h = ends-idle failed s h

  from_clone :
      (ok : Bool) (s : System)
      → Went w id (cloned id) ok s
      → At w id idle (outcome (ok && (ans.sign_ok && (ans.stream_ok && has_no_error ans.events)))) (
          step
            (ends w ans.stream_ok (stored ans.events) true)
            (step (calls_agent w ans.sign_ok true) (step (checks w true true) s)))
  from_clone true s h =
      from_agent ans.sign_ok (step (calls_agent w ans.sign_ok true) (step (checks w true true) s))
        (call_agent-At w id ans.sign_ok (step (checks w true true) s) (check_job-At w id s h))
  from_clone false s h =
      ends-idle failed (step (calls_agent w ans.sign_ok true) (step (checks w true true) s))
        (calls_agent-idle failed (step (checks w true true) s) (checks-idle failed s h))

  -- A worker that took a queued job off the queue, and whose queries and statements on the table
  -- run undisturbed, ends it and is idle again: the job is done exactly when the lookups, the clone
  -- and the token for the agent succeed and the agent's stream ends well with no error, and else it
  -- is failed.
  pub uninterrupted_ends :
      (s : System)
      → At w id (popped id) queued s
      → At w id idle (outcome (is_success ans)) (run (uninterrupted w ans) s)
  unfolding run
  uninterrupted_ends s h =
      let s₁ : System = step (loads w true) s in
      let s₂ : System = step (starts w true) s₁ in
      let s₃ : System = step (clones w ans.lookup_error true true ans.clone) s₂ in
      let (sha, l) = load_job-At w id s h in
      from_clone (is_absent ans.lookup_error && is_resolved ans.clone) s₃
        (clone_job-At w id sha ans.lookup_error ans.clone s₂ (start_job-At w id sha s₁ l))

supersedes-status :
    (repo other id : String) (jobs : List IngestionJob) (j : IngestionJob)
    → find_job id jobs ≡ some j
    → (j.repo_id == repo) ≡ true
    → (j.id == other) ≡ false
    → is_open j.status ≡ true
    → status_of (find_job id (supersede_older true repo other jobs)) ≡ some superseded
supersedes-status repo other id jobs j e r n o =
    ap status_of
      (find_job-supersede_older repo other id jobs ∙ ap (Option.map (supersede repo other)) e)
    ∙ rw (r, n, o) refl

-- A job that a newer one supersedes while the agent ingests it is marked done all the same where the
-- agent reports no error, and failed otherwise: it does not stay superseded.
pub superseded_revived :
    (w : ℕ) (repo other id : String) (s : System) (j : IngestionJob) (stream_ok : Bool)
    (es : List ProgressEvent)
    → s.phases w ≡ ingesting id
    → find_job id s.jobs ≡ some j
    → (j.repo_id == repo) ≡ true
    → (j.id == other) ≡ false
    → is_open j.status ≡ true
    → let s' = step (supersedes true repo other) s in
      (status_of (find_job id s'.jobs) ≡ some superseded)
      × (status_of (find_job id (step (ends w stream_ok (stored es) true) s').jobs)
          ≡ some (outcome (stream_ok && has_no_error es)))
unfolding step
superseded_revived w repo other id s j stream_ok es e f r n o =
    let gone = supersedes-status repo other id s.jobs j f r n o in
    (
      gone,
      (end_job-At w id stream_ok es superseded (step (supersedes true repo other) s) (e, gone)).1,
    )
