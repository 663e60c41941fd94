-- ===== src/Ingestion/Rows.antt =====
-- The row of a job, after the statements on the table.
use forge_engine.Prelude.{
  ◌≡◌, refl, sym, subst, ap, String, true, false, ◌&&◌, not, some, List, [], ◌∷◌, if-lift, ◌==◌,
  Bool-cases, inl, inr,
}
use mathlib.Core.Option
use forge_engine.Ingestion.{
  IngestionJob, find_job, update_job, supersede, supersede_older, is_open, superseded,
}

-- An update leaves the key.
abbrev pub KeepsId : (IngestionJob → IngestionJob) → Type 0
KeepsId f = (j : IngestionJob) → (f j).id ≡ j.id

head_job :
    (j j' : IngestionJob) (jobs jobs' : List IngestionJob) (id : String)
    (f : IngestionJob → IngestionJob)
    → j'.id ≡ j.id
    → ((j.id == id) ≡ true → j' ≡ f j)
    → find_job id jobs' ≡ Option.map f (find_job id jobs)
    → find_job id (j' ∷ jobs') ≡ Option.map f (find_job id (j ∷ jobs))
unfolding find_job
head_job j j' jobs jobs' id f e h rest = elim (Bool-cases (j.id == id)) [
  | inl y ↦ rw (y, subst (λ x. (x == id) ≡ true) (sym e) y) (ap some (h y))
  | inr n ↦ rw (n, subst (λ x. (x == id) ≡ false) (sym e) n) rest
]

pub find_job-update_job :
    (id : String) (f : IngestionJob → IngestionJob) (jobs : List IngestionJob)
    → KeepsId f
    → find_job id (update_job id f jobs) ≡ Option.map f (find_job id jobs)
unfolding find_job update_job
find_job-update_job id f [] k = refl
find_job-update_job id f (j ∷ jobs) k = elim (Bool-cases (j.id == id)) [
  | inl y ↦ rw (y, subst (λ x. (x == id) ≡ true) (sym (k j)) y) refl
  | inr n ↦ rw (n, n) (find_job-update_job id f jobs k)
]

supersede-id : (repo exclude : String) (j : IngestionJob) → (supersede repo exclude j).id ≡ j.id
supersede-id repo exclude j =
    if-lift (λ (j' : IngestionJob). j'.id ≡ j.id)
      (j.repo_id == repo && (not (j.id == exclude) && is_open j.status))
      (record j { status = superseded }) j (λ _. refl) (λ _. refl)

pub find_job-supersede_older :
    (repo exclude id : String) (jobs : List IngestionJob)
    → find_job id (supersede_older true repo exclude jobs)
      ≡ Option.map (supersede repo exclude) (find_job id jobs)
unfolding supersede_older find_job
find_job-supersede_older repo exclude id [] = refl
find_job-supersede_older repo exclude id (j ∷ jobs) =
    head_job j (supersede repo exclude j) jobs (supersede_older true repo exclude jobs) id
      (supersede repo exclude) (supersede-id repo exclude j) (λ _. refl)
      (find_job-supersede_older repo exclude id jobs)
