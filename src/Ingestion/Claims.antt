-- ===== src/Ingestion/Claims.antt =====
-- A job is given to one worker: `MarkRunning` against everything else that happens.
use forge_engine.Prelude.{
  ◌≡◌, refl, sym, subst, ap, ◌∙◌, String, Bool, true, false, ◌||◌, not, ◌⊎◌, contains-cons, Option,
  none, some, List, [], ◌∷◌, All, All-map, if-lift, ◌==◌, ==→≡, ==_self, Bool-cases, inl, inr,
  contains, Nodup-cons_new, ℕ,
}
use mathlib.Core.List.{Nodup}
use forge_engine.Ingestion.{
  IngestionJob, find_job, update_job, mark_running, update_progress, mark_done, is_queued_job,
  run_by, statement_failed, why_not,
}
use forge_engine.Ingestion.Taken.{
  IsTaken, Keeps, update_progress-Keeps, resolve_commit-Keeps, mark_done-Keeps, mark_failed-Keeps,
  supersede_older-Keeps, create-Keeps, run_by-Keeps, run_by-IsTaken, queued_not_taken,
}
use forge_engine.Ingestion.Worker.{
  System, Act, creates, supersedes, pushes, pops, loads, starts, checks, clones, calls_agent, ends,
  Phase, idle, popped, loaded, started, cloned, checked, ingesting, goes_to, gives_up, pop_job,
  load_job, start_job, clone_job, check_job, call_agent, take_events, conclude_job, end_job, step,
  run, ProgressEvent, progress, finished, agent_error, Progress, CloneResult, resolved,
  clone_failed, after_load, after_check, after_clone, after_mark,
}

-- The jobs that were marked running are distinct, and have left the queue.
abbrev pub IsSound : System → Type 0
IsSound s = Nodup s.claims × All (IsTaken s.jobs) s.claims

-- A part that marks nothing running, and puts no job back into the queue.
abbrev Calm : System → System → Type 0
Calm s s' = (s'.claims ≡ s.claims) × Keeps s.jobs s'.jobs

pub ==_flip : (x y : String) → (x == y) ≡ false → (y == x) ≡ false
==_flip x y n = elim (Bool-cases (y == x)) [
  | inr m ↦ m
  | inl e ↦ absurd (cc (n, subst (λ z. (x == z) ≡ true) (sym (==→≡ y x e)) (==_self x)))
]

Calm-then : (r s t : System) → Calm r s → Calm s t → Calm r t
Calm-then r s t (e, k) (f, l) = (f ∙ e, (λ id h. l id (k id h)))

gives_up-Calm : (w : ℕ) (db : Bool) (id e : String) (s : System) → Calm s (gives_up w db id e s)
gives_up-Calm w db id e s = (refl, mark_failed-Keeps db id e s.jobs)

pop_job-Calm : (w : ℕ) (p : Phase) (s : System) → Calm s (pop_job w p s)
pop_job-Calm w idle s = by_queue s.queue
  where
    by_queue :
        (queue : List String)
        → Calm s
            (elim queue [ [] ↦ s | id ∷ rest ↦ goes_to w (popped id) (record s { queue = rest }) ])
    by_queue [] = (refl, (λ id h. h))
    by_queue (id ∷ rest) = (refl, (λ id h. h))
pop_job-Calm w _ s = (refl, (λ id h. h))

after_load-Calm :
    (w : ℕ) (id : String) (o : Option IngestionJob) (s : System) → Calm s (after_load w id o s)
after_load-Calm w id none s = (refl, (λ id h. h))
after_load-Calm w id (some j) s =
    if-lift (Calm s) _ (goes_to w idle s) (goes_to w (loaded id j.commit_sha) s)
      (λ _. (refl, (λ id h. h))) (λ _. (refl, (λ id h. h)))

load_job-Calm : (w : ℕ) (get_ok : Bool) (p : Phase) (s : System) → Calm s (load_job w get_ok p s)
unfolding load_job
load_job-Calm w get_ok (popped id) s = after_load-Calm w id _ s
load_job-Calm w get_ok _ s = (refl, (λ id h. h))

after_clone-Calm :
    (w : ℕ) (db : Bool) (id sha : String) (c : CloneResult) (s : System)
    → Calm s (after_clone w db id sha c s)
after_clone-Calm w db id sha (clone_failed e) s = gives_up-Calm w db id e s
after_clone-Calm w db id sha (resolved commit) s =
    (refl, resolve_commit-Keeps db id sha commit s.jobs)

clone_job-Calm :
    (w : ℕ) (lookup_error : Option String) (db progress_ok : Bool) (c : CloneResult) (p : Phase)
    (s : System)
    → Calm s (clone_job w lookup_error db progress_ok c p s)
unfolding clone_job
clone_job-Calm w (some e) db progress_ok c (started id sha) s = gives_up-Calm w db id e s
clone_job-Calm w none db progress_ok c (started id sha) s =
    Calm-then s s' (after_clone w db id sha c s')
      (refl, update_progress-Keeps progress_ok id "cloning" 0 none s.jobs)
      (after_clone-Calm w db id sha c s')
  where
    s' : System
    s' = record s { jobs = update_progress progress_ok id "cloning" 0 none s.jobs }
clone_job-Calm w lookup_error db progress_ok c _ s = (refl, (λ id h. h))

after_check-Calm :
    (w : ℕ) (db : Bool) (id : String) (o : Option IngestionJob) (s : System)
    → Calm s (after_check w db id o s)
after_check-Calm w db id none s = gives_up-Calm w db id _ s
after_check-Calm w db id (some j) s =
    if-lift (Calm s) _ (goes_to w idle s) (goes_to w (checked id) s) (λ _. (refl, (λ id h. h)))
      (λ _. (refl, (λ id h. h)))

check_job-Calm :
    (w : ℕ) (get_ok mark_ok : Bool) (p : Phase) (s : System)
    → Calm s (check_job w get_ok mark_ok p s)
unfolding check_job
check_job-Calm w get_ok mark_ok (cloned id) s = after_check-Calm w mark_ok id _ s
check_job-Calm w get_ok mark_ok _ s = (refl, (λ id h. h))

call_agent-Calm :
    (w : ℕ) (sign_ok db : Bool) (p : Phase) (s : System) → Calm s (call_agent w sign_ok db p s)
unfolding call_agent
call_agent-Calm w sign_ok db (checked id) s =
    if-lift (Calm s) sign_ok _ _ (λ _. (refl, (λ id h. h)))
      (λ _. gives_up-Calm w db id "failed to sign agent token" s)
call_agent-Calm w sign_ok db _ s = (refl, (λ id h. h))

take_events-Keeps :
    (id : String) (es : List (ProgressEvent × Bool)) (p : Progress) (jobs : List IngestionJob)
    → Keeps jobs (take_events id es p jobs).0
unfolding take_events
take_events-Keeps id [] p jobs k h = h
take_events-Keeps id ((progress stage processed total, db) ∷ es) p jobs k h =
    take_events-Keeps id es _ _ k (update_progress-Keeps db id stage processed _ jobs k h)
take_events-Keeps id ((finished total, db) ∷ es) p jobs k h = take_events-Keeps id es _ jobs k h
take_events-Keeps id ((agent_error e, db) ∷ es) p jobs k h = take_events-Keeps id es _ jobs k h

conclude_job-Calm :
    (w : ℕ) (db stream_ok : Bool) (id : String) (p : Progress) (s : System)
    → Calm s (conclude_job w db stream_ok id p s)
conclude_job-Calm w db false id p s = gives_up-Calm w db id "agent ingest failed" s
conclude_job-Calm w db true id p s = by_failure p.failure
  where
    by_failure :
        (f : Option String)
        → Calm s (elim f [
          | some message ↦ gives_up w db id message s
          | none ↦ goes_to w idle (record s { jobs = mark_done db id p.final_total_chunks s.jobs })
        ])
    by_failure none = (refl, mark_done-Keeps db id p.final_total_chunks s.jobs)
    by_failure (some e) = gives_up-Calm w db id e s

end_job-Calm :
    (w : ℕ) (stream_ok : Bool) (es : List (ProgressEvent × Bool)) (db : Bool) (p : Phase)
    (s : System)
    → Calm s (end_job w stream_ok es db p s)
unfolding end_job
end_job-Calm w stream_ok es db (ingesting id) s =
    Calm-then s (record s { jobs = r.0 })
      (conclude_job w db stream_ok id r.1 (record s { jobs = r.0 }))
      (refl, take_events-Keeps id es _ s.jobs)
      (conclude_job-Calm w db stream_ok id r.1 (record s { jobs = r.0 }))
  where
    r : List IngestionJob × Progress
    r = take_events id es (record { last_total = 0; final_total_chunks = 0; failure = none }) s.jobs
end_job-Calm w stream_ok es db _ s = (refl, (λ id h. h))

-- A part that marks a queued job running.
abbrev Claim : System → System → Type 0
Claim s s' =
    (id : String) × (w : ℕ) × (is_queued_job (find_job id s.jobs) ≡ true)
    × (s'.claims ≡ id ∷ s.claims)
    × (s'.jobs ≡ update_job id (run_by w) s.jobs)

start_job-cases :
    (w : ℕ) (db : Bool) (p : Phase) (s : System)
    → Calm s (start_job w db p s) ⊎ Claim s (start_job w db p s)
unfolding start_job mark_running
start_job-cases w db (loaded id sha) s =
    if-lift (λ r. Calm s (after_mark w id sha s r) ⊎ Claim s (after_mark w id sha s r)) (not db)
      (s.jobs, some statement_failed) _ (λ _. inl (refl, (λ id h. h)))
      (λ _.
        if-lift (λ r. Calm s (after_mark w id sha s r) ⊎ Claim s (after_mark w id sha s r))
          (is_queued_job (find_job id s.jobs)) (update_job id (run_by w) s.jobs, none)
          (s.jobs, some (why_not (find_job id s.jobs))) (λ q. inr (id, w, q, refl, refl))
          (λ _. inl (refl, (λ id h. h))))
start_job-cases w db _ s = inl (refl, (λ id h. h))

step-cases : (a : Act) (s : System) → Calm s (step a s) ⊎ Claim s (step a s)
unfolding step
step-cases (creates db id repo sha) s = inl (refl, create-Keeps db id repo sha s.jobs)
step-cases (supersedes db repo exclude) s = inl (refl, supersede_older-Keeps db repo exclude s.jobs)
step-cases (pushes id) s = inl (refl, (λ id h. h))
step-cases (pops w) s = inl (pop_job-Calm w (s.phases w) s)
step-cases (loads w ok) s = inl (load_job-Calm w ok (s.phases w) s)
step-cases (starts w ok) s = start_job-cases w ok (s.phases w) s
step-cases (checks w get_ok mark_ok) s = inl (check_job-Calm w get_ok mark_ok (s.phases w) s)
step-cases (clones w e db progress_ok c) s =
    inl (clone_job-Calm w e db progress_ok c (s.phases w) s)
step-cases (calls_agent w sign_ok db) s = inl (call_agent-Calm w sign_ok db (s.phases w) s)
step-cases (ends w stream_ok es db) s = inl (end_job-Calm w stream_ok es db (s.phases w) s)

-- A job that has left the queue is not the one that is marked running.
taken_not_claimed :
    (jobs : List IngestionJob) (k id : String)
    → is_queued_job (find_job k jobs) ≡ true
    → IsTaken jobs id
    → (k == id) ≡ false
taken_not_claimed jobs k id q t = elim (Bool-cases (k == id)) [
  | inr n ↦ n
  | inl y ↦
      absurd (
        cc
          (queued_not_taken (find_job k jobs) q, subst (λ x. IsTaken jobs x) (sym (==→≡ k id y)) t))
]

unclaimed :
    (jobs : List IngestionJob) (ids : List String) (k : String)
    → is_queued_job (find_job k jobs) ≡ true
    → All (IsTaken jobs) ids
    → contains ids k ≡ false
unfolding contains
unclaimed jobs [] k q a = refl
unclaimed jobs (x ∷ ids) k q (t, a) =
    rw (==_flip k x (taken_not_claimed jobs k x q t)) (unclaimed jobs ids k q a)

step-IsSound : (a : Act) (s : System) → IsSound s → IsSound (step a s)
step-IsSound a s (n, h) = elim (step-cases a s) [
  | inl (e, k) ↦ (
    subst Nodup (sym e) n,
    subst (λ ids. All (IsTaken (step a s).jobs) ids) (sym e)
        (All-map (IsTaken s.jobs) (IsTaken (step a s).jobs) s.claims k h),
  )
  | inr (id, w, q, e, j) ↦ (
    subst Nodup (sym e) (Nodup-cons_new id s.claims (unclaimed s.jobs s.claims id q h) n),
    subst (λ ids. All (IsTaken (step a s).jobs) ids) (sym e)
        (subst (λ jobs. All (IsTaken jobs) (id ∷ s.claims)) (sym j)
          (
            run_by-IsTaken id w s.jobs q,
            All-map (IsTaken s.jobs) (IsTaken (update_job id (run_by w) s.jobs)) s.claims
                (run_by-Keeps id w s.jobs) h,
          )),
  )
]

-- In every interleaving of any number of workers and requests, with every answer of the database,
-- each job is marked running at most once, and a job that was marked running is in the table and
-- is not queued: the two hold after a run where they hold before it.
pub run-IsSound : (acts : List Act) (s : System) → IsSound s → IsSound (run acts s)
unfolding run
run-IsSound [] s h = h
run-IsSound (a ∷ acts) s h = run-IsSound acts (step a s) (step-IsSound a s h)

step_unclaimed :
    (a : Act) (s : System) (id : String)
    → IsTaken s.jobs id
    → IsTaken (step a s).jobs id × (contains (step a s).claims id ≡ contains s.claims id)
step_unclaimed a s id t = elim (step-cases a s) [
  | inl (e, k) ↦ (k id t, ap (λ ids. contains ids id) e)
  | inr (k, w, q, e, j) ↦ (
    subst (λ jobs. IsTaken jobs id) (sym j) (run_by-Keeps k w s.jobs id t),
    ap (λ ids. contains ids id) e
        ∙ contains-cons k id s.claims
        ∙ ap (λ b. b || contains s.claims id) (taken_not_claimed s.jobs k id q t),
  )
]

-- A job that has left the queue is never marked running again.
pub run_unclaimed :
    (acts : List Act) (s : System) (id : String)
    → IsTaken s.jobs id
    → contains (run acts s).claims id ≡ contains s.claims id
unfolding run
run_unclaimed [] s id t = refl
run_unclaimed (a ∷ acts) s id t =
    let (t', e) = step_unclaimed a s id t in run_unclaimed acts (step a s) id t' ∙ e
