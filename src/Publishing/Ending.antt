-- ===== src/Publishing/Ending.antt =====
-- How a run of the pipeline ends.
use forge_engine.Prelude.{
  ℕ, ◌≡◌, refl, sym, ap, ◌∙◌, inl, inr, String, Bool, true, Option, none, some, List, ◌∷◌, if-lift,
  Bool-cases, Bytes, arith,
}
use forge_engine.Publishing.Rows.{
  create_pull_request, creating_pr, syncing, verifying, branching, committing, conflict_check,
  pushing, State, SessionStatus, completed, failed, newest, name_or_empty, or_zero, GitBranch,
  update_session_pr, update_session_step, mark_session_completed, mark_session_failed, PullRequest,
}
use forge_engine.Publishing.Steps.{
  Outcome, goes, stops, panics, hangs, PublishRequest, Env, verify_workspace, step_create_branch,
  step_create_commits,
}
use forge_engine.Publishing.Push.{
  step_check_conflicts, step_push_branch, step_create_pr, open_pr, record_pr, step_sync_github,
  after_state, sync_pr, is_live_pr,
}
use forge_engine.Publishing.Run.{
  RunEnv, Ending, returns_nil, returns_error, crashes, waits, run_publishing, run_steps, pipeline,
  after_step, finish_run, start_session,
}
use forge_engine.Publishing.Progress.{
  NoItem, NoChannel, Post, Any, verify-Post, branch-Post, commits-Post, conflicts-Post,
}
use forge_engine.Publishing.Pushing.{IsPushed, push-Post}

abbrev HasPr : State → Type 0
HasPr st = (pr : PullRequest) × (st.pr ≡ some pr)

abbrev IsOffered : Env → State → Type 0
IsOffered env st = IsPushed env st × HasPr st

update_session_pr-branch_name :
    (db : Bool) (n : ℕ) (url : String) (st : State)
    → (update_session_pr db n url st).branch_name ≡ st.branch_name
unfolding update_session_pr
update_session_pr-branch_name db n url st = ground arith

update_session_pr-pr :
    (db : Bool) (n : ℕ) (url : String) (st : State) → (update_session_pr db n url st).pr ≡ st.pr
unfolding update_session_pr
update_session_pr-pr db n url st = ground arith

record_pr-Post :
    (env : Env) (pr : PullRequest) (st : State)
    → IsPushed env st
    → Post env (IsOffered env) (record_pr env pr st)
unfolding record_pr
record_pr-Post env pr st ((name, e, f), attempt) =
    by_branch (newest env.pr_branch_query_ok st.branches)
  where
    st' : State
    st' = record st { prs = create_pull_request env.pr_insert_ok pr st.prs; pr = some pr }

    by_branch :
        (o : Option GitBranch)
        → Post env (IsOffered env) (elim o [
          | none ↦ stops "branch record not found" st
          | some b ↦ goes (update_session_pr env.pr_update_ok pr.pr_number pr.url st')
        ])
    by_branch none = tt
    by_branch (some b) = (
      (
        (name, update_session_pr-branch_name env.pr_update_ok pr.pr_number pr.url st' ∙ e, f),
        attempt,
      ),
      (pr, update_session_pr-pr env.pr_update_ok pr.pr_number pr.url st'),
    )

open_pr-Post :
    (env : Env) (st : State) → IsPushed env st → Post env (IsOffered env) (open_pr env st)
unfolding open_pr
open_pr-Post env st p = by_intent env.pr_intent refl
  where
    by_created :
        (o : Option PullRequest)
        → Post env (IsOffered env) (elim o [
          | none ↦ stops "create PR" st
          | some pr ↦ record_pr env pr (record st { opened = pr.pr_number ∷ st.opened })
        ])
    by_created none = tt
    by_created (some pr) = record_pr-Post env pr _ p

    by_intent :
        (o : Option Bytes)
        → env.pr_intent ≡ o
        → Post env (IsOffered env) (elim o [
          | none ↦ panics st
          | some intent ↦ elim env.pr_created [
            | none ↦ stops "create PR" st
            | some pr ↦ record_pr env pr (record st { opened = pr.pr_number ∷ st.opened })
          ]
        ])
    by_intent none e = inr e
    by_intent (some intent) e = by_created env.pr_created

live_is_there : (o : Option PullRequest) → is_live_pr o ≡ true → (pr : PullRequest) × (o ≡ some pr)
live_is_there none h = cc
live_is_there (some pr) h = (pr, refl)

create_pr-Post :
    (env : Env) (st : State) → IsPushed env st → Post env (IsOffered env) (step_create_pr env st)
unfolding step_create_pr
create_pr-Post env st p =
    if-lift (Post env (IsOffered env)) (is_live_pr (newest env.pr_query_ok st.prs)) _ _
      (λ live. (p, live_is_there (newest env.pr_query_ok st.prs) live)) (λ _. open_pr-Post env st p)

after_state-Post :
    (env : Env) (o : Option String) (st : State)
    → IsOffered env st
    → Post env (IsOffered env) (after_state env o st)
after_state-Post env none st h = h
after_state-Post env (some state) st h =
    if-lift (Post env (IsOffered env)) env.sync_query_ok _ (goes st) (λ _. h) (λ _. h)

sync_pr-Post :
    (env : Env) (o : Option PullRequest) (st : State)
    → IsOffered env st
    → Post env (IsOffered env) (sync_pr env o st)
sync_pr-Post env none st h = h
sync_pr-Post env (some pr) st h = after_state-Post env env.pr_state st h

sync-Post :
    (env : Env) (st : State) → IsOffered env st → Post env (IsOffered env) (step_sync_github env st)
unfolding step_sync_github
sync-Post env st h = sync_pr-Post env st.pr st h

-- What a run that returns without an error has done.
abbrev pub Published : RunEnv → Env → State → Type 0
Published db env st =
    IsPushed env st
    × ((pr : PullRequest) × (st.pr ≡ some pr)
        × (db.completed_ok ≡ true
            → (st.row.status ≡ completed)
              × (st.row.branch_name ≡ st.branch_name)
              × (st.row.pr_number ≡ some pr.pr_number)))

abbrev pub IsFailed : RunEnv → SessionStatus → String → State → Type 0
IsFailed db step message st =
    db.failed_ok ≡ true
    → (st.row.status ≡ failed)
      × (st.row.current_step ≡ some step)
      × (st.row.error_message ≡ some message)

abbrev pub Fine : RunEnv → Env → Ending → Type 0
Fine db env (returns_nil st) = Published db env st
Fine db env (returns_error step message st) = IsFailed db step message st
Fine db env (crashes st) = NoItem env
Fine db env (waits st) = NoChannel env

after_step-Fine :
    (db : RunEnv) (env : Env) (P : State → Type 0) (status : SessionStatus) (next : State → Ending)
    (o : Outcome)
    → Post env P o
    → ((st : State) → P st → Fine db env (next st))
    → Fine db env (after_step db status next o)
unfolding mark_session_failed
after_step-Fine db env P status next (goes st) h k = k st h
after_step-Fine db env P status next (stops e st) h k = λ y. rw y (refl, refl, refl)
after_step-Fine db env P status next (panics st) h k = h
after_step-Fine db env P status next (hangs st) h k = h

finish-Fine :
    (db : RunEnv) (env : Env) (st : State) → IsOffered env st → Fine db env (finish_run db st)
unfolding mark_session_completed
finish-Fine db env st (p, (pr, g)) = elim (Bool-cases db.completed_ok) [
  | inl y ↦ rw y (
    p,
    (
      pr,
      g,
      (λ _. (
        refl,
        ap (λ o. some (name_or_empty o)) p.0.1 ∙ sym p.0.1,
        ap (λ o. some (or_zero o).pr_number) g,
      )),
    ),
  )
  | inr n ↦ rw n (p, (pr, g, (λ y. absurd (cc))))
]

step-branch_name :
    (db : Bool) (step : SessionStatus) (st : State)
    → (update_session_step db step st).branch_name ≡ st.branch_name
unfolding update_session_step
step-branch_name db step st = ground arith

step-pr :
    (db : Bool) (step : SessionStatus) (st : State) → (update_session_step db step st).pr ≡ st.pr
unfolding update_session_step
step-pr db step st = ground arith

step-Pushed :
    (env : Env) (db : Bool) (step : SessionStatus) (st : State)
    → IsPushed env st
    → IsPushed env (update_session_step db step st)
step-Pushed env db step st ((name, e, f), attempt) =
    ((name, step-branch_name db step st ∙ e, f), attempt)

step-Offered :
    (env : Env) (db : Bool) (step : SessionStatus) (st : State)
    → IsOffered env st
    → IsOffered env (update_session_step db step st)
step-Offered env db step st (p, (pr, g)) =
    (step-Pushed env db step st p, (pr, step-pr db step st ∙ g))

-- What the rest of the steps needs for a fine ending.
record Needs (db : RunEnv) (env : Env) (P : State → Type 0)
    (steps : List (SessionStatus × (State → Outcome))) : Type 0 where
  ends : (st : State) → P st → Fine db env (run_steps db steps (finish_run db) st)

module _ (db : RunEnv) (env : Env) where
  round :
      (P Q : State → Type 0) (status : SessionStatus) (fn : State → Outcome)
      {steps : List (SessionStatus × (State → Outcome))}
      → ((st : State) → P st → P (update_session_step (db.step_ok status) status st))
      → ((st : State) → P st → Post env Q (fn st))
      → Needs db env Q steps
      → Needs db env P ((status, fn) ∷ steps)
  round P Q status fn {steps} stable post rest = record {
    ends = λ st p.
        after_step-Fine db env Q status (run_steps db steps (finish_run db))
          (fn (update_session_step (db.step_ok status) status st)) (post _ (stable st p)) rest.ends;
  }

  pipeline-Needs : (req : PublishRequest) → Needs db env Any (pipeline env req)
  pipeline-Needs req =
      round Any Any verifying (verify_workspace env) (λ st p. p) (λ st p. verify-Post env st)
        (round Any Any branching (step_create_branch env req) (λ st p. p)
          (λ st p. branch-Post env req st)
          (round Any Any committing (step_create_commits env req) (λ st p. p)
            (λ st p. commits-Post env req st)
            (round Any Any conflict_check (step_check_conflicts env req) (λ st p. p)
              (λ st p. conflicts-Post env req st)
              (round Any (IsPushed env) pushing (step_push_branch env req) (λ st p. p)
                (λ st p. push-Post env req st)
                (round (IsPushed env) (IsOffered env) creating_pr (step_create_pr env)
                  (step-Pushed env (db.step_ok creating_pr) creating_pr) (create_pr-Post env)
                  (round (IsOffered env) (IsOffered env) syncing (step_sync_github env)
                    (step-Offered env (db.step_ok syncing) syncing) (sync-Post env)
                    (record { ends = finish-Fine db env })))))))

-- A run whose session was created ends in one of four ways. It returns without an error: then the
-- session has a branch, one of its first three pushes was answered by no exit code but 0, a pull
-- request is there, and the session is completed with both, if the update ran. It returns the error of a step: then the
-- session is failed at that step with that error, if the update ran. It panics: then the item did not
-- load for the commit or the pull request. Or it waits forever: then a command whose error is dropped
-- could not be started.
pub run_publishing-Fine :
    (db : RunEnv) (env : Env) (req : PublishRequest) (st : State)
    → Fine db env (run_publishing db env req st)
unfolding run_publishing
run_publishing-Fine db env req st = (pipeline-Needs db env req).ends (start_session st) tt
