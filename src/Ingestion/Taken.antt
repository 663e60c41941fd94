-- ===== src/Ingestion/Taken.antt =====
-- The rows that have left the queue, under every statement on the table.
use forge_engine.Prelude.{
  ◌≡◌, refl, sym, subst, String, Bool, true, false, ◌&&◌, not, Option, none, some, List, [], ◌∷◌,
  if-lift, if◌then◌else◌, ◌==◌, ==→≡, Bool-cases, inl, inr, ℕ,
}
use forge_engine.Ingestion.{
  IngestionJob, find_job, update_job, create, update_progress, update_commit_sha, mark_done,
  mark_failed, supersede, supersede_older, is_queued, is_queued_job, is_some_job, run_by,
  superseded, is_open,
}
use forge_engine.Ingestion.Worker.{resolve_commit}

-- The row is there and has left the queue.
abbrev pub is_taken : Option IngestionJob → Bool
is_taken none = false
is_taken (some j) = not (is_queued j.status)

abbrev pub IsTaken : List IngestionJob → String → Type 0
IsTaken jobs id = is_taken (find_job id jobs) ≡ true

-- What was taken stays taken.
abbrev pub Keeps : List IngestionJob → List IngestionJob → Type 0
Keeps jobs jobs' = (id : String) → IsTaken jobs id → IsTaken jobs' id

-- An update that leaves the key and puts nothing back into the queue.
abbrev pub Advances : (IngestionJob → IngestionJob) → Type 0
Advances f =
    (j : IngestionJob)
    → ((f j).id ≡ j.id) × (not (is_queued j.status) ≡ true → not (is_queued (f j).status) ≡ true)

head-IsTaken :
    (j j' : IngestionJob) (jobs jobs' : List IngestionJob) (id : String)
    → j'.id ≡ j.id
    → (not (is_queued j.status) ≡ true → not (is_queued j'.status) ≡ true)
    → (IsTaken jobs id → IsTaken jobs' id)
    → IsTaken (j ∷ jobs) id
    → IsTaken (j' ∷ jobs') id
unfolding find_job
head-IsTaken j j' jobs jobs' id e f rest h = elim (Bool-cases (j.id == id)) [
  | inl y ↦
      rw (subst (λ x. (x == id) ≡ true) (sym e) y)
        (f (subst (λ b. is_taken (if b then some j else find_job id jobs) ≡ true) y h))
  | inr n ↦
      rw (subst (λ x. (x == id) ≡ false) (sym e) n)
        (rest (subst (λ b. is_taken (if b then some j else find_job id jobs) ≡ true) n h))
]

update_job-Keeps :
    (k : String) (f : IngestionJob → IngestionJob) (jobs : List IngestionJob)
    → Advances f
    → Keeps jobs (update_job k f jobs)
unfolding update_job
update_job-Keeps k f [] a id h = h
update_job-Keeps k f (j ∷ jobs) a id h =
    if-lift (λ jobs'. IsTaken jobs' id) (j.id == k) (f j ∷ jobs) (j ∷ update_job k f jobs)
      (λ _. head-IsTaken j (f j) jobs jobs id (a j).0 (a j).1 (λ t. t) h)
      (λ _.
        head-IsTaken j j jobs (update_job k f jobs) id refl (λ t. t)
          (update_job-Keeps k f jobs a id) h)

guarded-Keeps :
    (db : Bool) (jobs jobs' : List IngestionJob)
    → Keeps jobs jobs'
    → Keeps jobs (if db then jobs' else jobs)
guarded-Keeps true jobs jobs' k id h = k id h
guarded-Keeps false jobs jobs' k id h = h

pub update_progress-Keeps :
    (db : Bool) (id stage : String) (n : ℕ) (total : Option ℕ) (jobs : List IngestionJob)
    → Keeps jobs (update_progress db id stage n total jobs)
unfolding update_progress
update_progress-Keeps db id stage n total jobs =
    guarded-Keeps db jobs _ (update_job-Keeps id _ jobs (λ j. (refl, (λ t. t))))

pub resolve_commit-Keeps :
    (db : Bool) (id sha commit : String) (jobs : List IngestionJob)
    → Keeps jobs (resolve_commit db id sha commit jobs)
unfolding resolve_commit update_commit_sha
resolve_commit-Keeps db id sha commit jobs =
    guarded-Keeps (not (commit == sha) && not (commit == "")) jobs _
      (guarded-Keeps db jobs _ (update_job-Keeps id _ jobs (λ j. (refl, (λ t. t)))))

pub mark_done-Keeps :
    (db : Bool) (id : String) (n : ℕ) (jobs : List IngestionJob)
    → Keeps jobs (mark_done db id n jobs)
unfolding mark_done
mark_done-Keeps db id n jobs =
    guarded-Keeps db jobs _ (update_job-Keeps id _ jobs (λ j. (refl, (λ t. refl))))

pub mark_failed-Keeps :
    (db : Bool) (id e : String) (jobs : List IngestionJob) → Keeps jobs (mark_failed db id e jobs)
unfolding mark_failed
mark_failed-Keeps db id e jobs =
    guarded-Keeps db jobs _ (update_job-Keeps id _ jobs (λ j. (refl, (λ t. refl))))

supersede-Advances : (repo exclude : String) → Advances (supersede repo exclude)
supersede-Advances repo exclude j =
    if-lift
      (λ (j' : IngestionJob).
        (j'.id ≡ j.id) × (not (is_queued j.status) ≡ true → not (is_queued j'.status) ≡ true))
      (j.repo_id == repo && (not (j.id == exclude) && is_open j.status))
      (record j { status = superseded }) j (λ _. (refl, (λ _. refl))) (λ _. (refl, (λ t. t)))

pub supersede_older-Keeps :
    (db : Bool) (repo exclude : String) (jobs : List IngestionJob)
    → Keeps jobs (supersede_older db repo exclude jobs)
unfolding supersede_older
supersede_older-Keeps db repo exclude [] id h = h
supersede_older-Keeps true repo exclude (j ∷ jobs) id h =
    head-IsTaken j (supersede repo exclude j) jobs (supersede_older true repo exclude jobs) id
      (supersede-Advances repo exclude j).0 (supersede-Advances repo exclude j).1
      (supersede_older-Keeps true repo exclude jobs id) h
supersede_older-Keeps false repo exclude (j ∷ jobs) id h =
    head-IsTaken j j jobs (supersede_older false repo exclude jobs) id refl (λ t. t)
      (supersede_older-Keeps false repo exclude jobs id) h

-- A key that is taken is not created again.
fresh_other :
    (k id : String) (jobs : List IngestionJob)
    → is_some_job (find_job k jobs) ≡ false
    → IsTaken jobs id
    → (k == id) ≡ false
fresh_other k id jobs fresh t = elim (Bool-cases (k == id)) [
  | inr n ↦ n
  | inl y ↦ absurd (
      nowhere (find_job id jobs)
        (subst (λ x. is_some_job (find_job x jobs) ≡ false) (==→≡ k id y) fresh) t)
]
  where
    nowhere : (o : Option IngestionJob) → is_some_job o ≡ false → is_taken o ≡ true → ⊥
    nowhere none f t = cc
    nowhere (some j) f t = cc

pub create-Keeps :
    (db : Bool) (k repo sha : String) (jobs : List IngestionJob)
    → Keeps jobs (create db k repo sha jobs)
unfolding create find_job
create-Keeps false k repo sha jobs id h = h
create-Keeps true k repo sha jobs id h = elim (Bool-cases (is_some_job (find_job k jobs))) [
  | inl y ↦ rw y h
  | inr n ↦ rw (n, fresh_other k id jobs n h) h
]

pub run_by-Keeps :
    (id : String) (w : ℕ) (jobs : List IngestionJob) → Keeps jobs (update_job id (run_by w) jobs)
run_by-Keeps id w jobs = update_job-Keeps id (run_by w) jobs (λ j. (refl, (λ _. refl)))

-- The row that `MarkRunning` changed is taken.
pub run_by-IsTaken :
    (id : String) (w : ℕ) (jobs : List IngestionJob)
    → is_queued_job (find_job id jobs) ≡ true
    → IsTaken (update_job id (run_by w) jobs) id
unfolding find_job update_job
run_by-IsTaken id w [] h = cc
run_by-IsTaken id w (j ∷ jobs) h = elim (Bool-cases (j.id == id)) [
  | inl y ↦ rw y (rw y refl)
  | inr n ↦ rw n (
      rw n (
        run_by-IsTaken id w jobs
          (subst (λ b. is_queued_job (if b then some j else find_job id jobs) ≡ true) n h)))
]

pub queued_not_taken : (o : Option IngestionJob) → is_queued_job o ≡ true → is_taken o ≡ false
queued_not_taken none h = refl
queued_not_taken (some j) h = rw h refl
