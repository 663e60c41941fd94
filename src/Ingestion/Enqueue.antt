-- ===== src/Ingestion/Enqueue.antt =====
-- Requests that enqueue a job for a repository.
use forge_engine.Prelude.{
  ◌≡◌, refl, ap, ◌∙◌, String, Bool, true, false, ◌&&◌, not, Option, none, some, List, [], ◌∷◌, ◌++◌,
  All, if-lift, if◌then◌else◌, ◌==◌, ==_self, contains, arith,
}
use mathlib.Core.Option
use forge_engine.Ingestion.{
  IngestionJob, find_job, create, supersede, supersede_older, is_open, is_some_job, queued,
  superseded, new_job, JobStatus,
}
use forge_engine.Ingestion.Taken.{is_taken}
use forge_engine.Ingestion.Claims.{run_unclaimed, ==_flip}
use forge_engine.Ingestion.Rows.{find_job-supersede_older}
use forge_engine.Ingestion.Worker.{
  System, Act, creates, supersedes, pushes, step, run, enqueue_for_repo,
}

abbrev pub status_of : Option IngestionJob → Option JobStatus
status_of none = none
status_of (some j) = some j.status

create-fresh :
    (id repo sha : String) (jobs : List IngestionJob)
    → is_some_job (find_job id jobs) ≡ false
    → create true id repo sha jobs ≡ new_job id repo sha ∷ jobs
unfolding create
create-fresh id repo sha jobs fresh = rw fresh refl

find_job-cons :
    (j : IngestionJob) (id : String) (jobs : List IngestionJob)
    → find_job id (j ∷ jobs) ≡ (if j.id == id then some j else find_job id jobs)
unfolding find_job
find_job-cons j id jobs = refl

-- An open job of the repository is the one with the id.
abbrev pub IsOnlyOpen : String → String → IngestionJob → Type 0
IsOnlyOpen repo id j = (j.repo_id == repo) ≡ true → is_open j.status ≡ true → (j.id == id) ≡ true

supersede-IsOnlyOpen :
    (repo id : String) (j : IngestionJob) → IsOnlyOpen repo id (supersede repo id j)
supersede-IsOnlyOpen repo id j =
    if-lift (IsOnlyOpen repo id) (j.repo_id == repo && (not (j.id == id) && is_open j.status))
      (record j { status = superseded }) j (λ _ r o. cc)
      (λ n r o. last (j.repo_id == repo) (j.id == id) (is_open j.status) n r o)
  where
    last : (a b c : Bool) → (a && (not b && c)) ≡ false → a ≡ true → c ≡ true → b ≡ true
    last a b c n r o = ground arith

supersede_older-IsOnlyOpen :
    (repo id : String) (jobs : List IngestionJob)
    → All (IsOnlyOpen repo id) (supersede_older true repo id jobs)
unfolding supersede_older
supersede_older-IsOnlyOpen repo id [] = tt
supersede_older-IsOnlyOpen repo id (j ∷ jobs) =
    (supersede-IsOnlyOpen repo id j, supersede_older-IsOnlyOpen repo id jobs)

-- The job that is spared keeps its status.
supersede-spared :
    (repo id : String) (j : IngestionJob) → (j.id == id) ≡ true → supersede repo id j ≡ j
supersede-spared repo id j e =
    if-lift (λ j'. j' ≡ j) (j.repo_id == repo && (not (j.id == id) && is_open j.status)) _ j
      (λ y. absurd (never (j.repo_id == repo) (j.id == id) (is_open j.status) y e)) (λ _. refl)
  where
    never : (a b c : Bool) → (a && (not b && c)) ≡ true → b ≡ true → ⊥
    never a b c y e = ground arith

-- An undisturbed request whose statements run leaves its job queued, its id at the end of the queue,
-- and no other job of the repository open.
pub enqueue_for_repo-IsOnlyOpen :
    (id repo sha : String) (s : System)
    → is_some_job (find_job id s.jobs) ≡ false
    → let s' = run (enqueue_for_repo true true id repo sha) s in
      All (IsOnlyOpen repo id) s'.jobs
      × (status_of (find_job id s'.jobs) ≡ some queued)
      × (s'.queue ≡ s.queue ++ (id ∷ []))
unfolding run step
enqueue_for_repo-IsOnlyOpen id repo sha s fresh = (
  supersede_older-IsOnlyOpen repo id (create true id repo sha s.jobs),
  ap status_of (
        find_job-supersede_older repo id id (create true id repo sha s.jobs)
        ∙ ap (λ jobs. Option.map (supersede repo id) (find_job id jobs))
            (create-fresh id repo sha s.jobs fresh)
        ∙ ap (Option.map (supersede repo id)) found)
      ∙ ap (λ j. status_of (some j)) (supersede-spared repo id (new_job id repo sha) (==_self id)),
  refl,
)
  where
    found : find_job id (new_job id repo sha ∷ s.jobs) ≡ some (new_job id repo sha)
    found = find_job-cons (new_job id repo sha) id s.jobs ∙ rw (==_self id) refl

-- What two requests leave that both create their job before either supersedes the other's.
abbrev pub racing : String → String → String → String → String → List Act
racing a b repo sha sha' =
    creates true a repo sha
    ∷ creates true b repo sha'
    ∷ supersedes true repo a
    ∷ supersedes true repo b
    ∷ pushes a
    ∷ pushes b
    ∷ []

supersede_new :
    (repo exclude id sha : String)
    → (id == exclude) ≡ false
    → (supersede repo exclude (new_job id repo sha)).status ≡ superseded
supersede_new repo exclude id sha n = rw (==_self repo, n) refl

supersede_superseded :
    (repo exclude : String) (j : IngestionJob)
    → j.status ≡ superseded
    → (supersede repo exclude j).status ≡ superseded
supersede_superseded repo exclude j e =
    if-lift (λ (j' : IngestionJob). j'.status ≡ superseded)
      (j.repo_id == repo && (not (j.id == exclude) && is_open j.status))
      (record j { status = superseded }) j (λ _. refl) (λ _. e)

twice_superseded :
    (a b repo id : String) (j : IngestionJob) (jobs : List IngestionJob)
    → find_job id jobs ≡ some j
    → (supersede repo b (supersede repo a j)).status ≡ superseded
    → status_of (find_job id (supersede_older true repo b (supersede_older true repo a jobs)))
      ≡ some superseded
twice_superseded a b repo id j jobs e h =
    ap status_of (
      find_job-supersede_older repo b id (supersede_older true repo a jobs)
      ∙ ap (Option.map (supersede repo b))
          (find_job-supersede_older repo a id jobs ∙ ap (Option.map (supersede repo a)) e))
    ∙ ap some h

created_both :
    (a b repo sha sha' : String) (jobs : List IngestionJob)
    → is_some_job (find_job a jobs) ≡ false
    → is_some_job (find_job b jobs) ≡ false
    → (a == b) ≡ false
    → create true b repo sha' (create true a repo sha jobs)
      ≡ new_job b repo sha' ∷ new_job a repo sha ∷ jobs
created_both a b repo sha sha' jobs fa fb n =
    ap (create true b repo sha') (create-fresh a repo sha jobs fa)
    ∙ create-fresh b repo sha' (new_job a repo sha ∷ jobs)
        (ap is_some_job (find_job-cons (new_job a repo sha) b jobs ∙ rw n refl) ∙ fb)

status-IsTaken : (o : Option IngestionJob) → status_of o ≡ some superseded → is_taken o ≡ true
status-IsTaken none e = cc
status-IsTaken (some j) e = ground arith

module _ (a b repo sha sha' : String) (s : System)
    (fresh_a : is_some_job (find_job a s.jobs) ≡ false)
    (fresh_b : is_some_job (find_job b s.jobs) ≡ false) (distinct : (a == b) ≡ false) where
  table : List IngestionJob
  table = new_job b repo sha' ∷ new_job a repo sha ∷ s.jobs

  raced :
      (run (racing a b repo sha sha') s).jobs
      ≡ supersede_older true repo b (supersede_older true repo a table)
  unfolding run step table
  raced =
      ap (λ jobs. supersede_older true repo b (supersede_older true repo a jobs))
        (created_both a b repo sha sha' s.jobs fresh_a fresh_b distinct)

  raced_a : status_of (find_job a (run (racing a b repo sha sha') s).jobs) ≡ some superseded
  unfolding table
  raced_a =
      ap (λ jobs. status_of (find_job a jobs)) raced
      ∙ twice_superseded a b repo a (new_job a repo sha) table
          (find_job-cons (new_job b repo sha') a _
            ∙ rw (==_flip a b distinct)
                (find_job-cons (new_job a repo sha) a _ ∙ rw (==_self a) refl))
          (ap (λ (j : IngestionJob). (supersede repo b j).status)
              (supersede-spared repo a (new_job a repo sha) (==_self a))
            ∙ supersede_new repo b a sha distinct)

  raced_b : status_of (find_job b (run (racing a b repo sha sha') s).jobs) ≡ some superseded
  unfolding table
  raced_b =
      ap (λ jobs. status_of (find_job b jobs)) raced
      ∙ twice_superseded a b repo b (new_job b repo sha') table
          (find_job-cons (new_job b repo sha') b _ ∙ rw (==_self b) refl)
          (supersede_superseded repo b (supersede repo a (new_job b repo sha'))
            (supersede_new repo a b sha' (==_flip a b distinct)))

  -- Where two requests for a repository both create their job before either supersedes the
  -- other's, both jobs are superseded, and whatever happens afterwards, neither of the two jobs is
  -- marked running. The ids are new and distinct.
  pub racing_starves :
      (acts : List Act)
      → let s' = run (racing a b repo sha sha') s in
        (status_of (find_job a s'.jobs) ≡ some superseded)
        × (status_of (find_job b s'.jobs) ≡ some superseded)
        × (contains (run acts s').claims a ≡ contains s'.claims a)
        × (contains (run acts s').claims b ≡ contains s'.claims b)
        × (s'.claims ≡ s.claims)
  unfolding run step
  racing_starves acts = (
    raced_a,
    raced_b,
    run_unclaimed acts (run (racing a b repo sha sha') s) a (status-IsTaken _ raced_a),
    run_unclaimed acts (run (racing a b repo sha sha') s) b (status-IsTaken _ raced_b),
    refl,
  )
