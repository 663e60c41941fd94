-- ===== src/Examples/Ingestions.antt =====
-- Two requests and a worker, and the theorems on them.
use forge_engine.Prelude.{◌≡◌, refl, true, some, none, List, [], ◌∷◌, ◌++◌, All, contains}
use mathlib.Core.List.{Nodup-nil}
use forge_engine.Ingestion.{queued, running, done, superseded, find_job, new_job, IngestionJob}
use forge_engine.Ingestion.Worker.{
  System, Act, idle, popped, ingesting, run, enqueue_for_repo, pops, loads, starts, creates, pushes,
  resolved, progress, finished,
}
use forge_engine.Ingestion.Enqueue.{
  status_of, IsOnlyOpen, enqueue_for_repo-IsOnlyOpen, racing, racing_starves,
}
use forge_engine.Ingestion.Claims.{IsSound, run-IsSound}
use forge_engine.Ingestion.Process.{Answers, uninterrupted, outcome, At}
use forge_engine.Ingestion.Ends.{is_success, uninterrupted_ends}

abbrev empty : System
empty = record { jobs = []; queue = []; phases = λ w. idle; claims = []; ingested = [] }

abbrev older : IngestionJob
older = record (new_job "old" "repo" "abc") { status = running; worker_id = some 0 }

abbrev busy : System
busy = record {
  jobs = older ∷ [];
  queue = [];
  phases = λ w. ingesting "old";
  claims = "old" ∷ [];
  ingested = "old" ∷ [];
}

-- Two workers that both took the id of the one job off the queue.
abbrev two_pickups : List Act
two_pickups =
    creates true "j" "repo" "abc"
    ∷ pushes "j"
    ∷ pushes "j"
    ∷ pops 0
    ∷ pops 1
    ∷ loads 0 true
    ∷ loads 1 true
    ∷ starts 1 true
    ∷ starts 0 true
    ∷ []

two_pickups-run : (run two_pickups empty).claims ≡ "j" ∷ []
unfolding run
two_pickups-run = refl

run-IsSound_example : IsSound (run two_pickups empty)
run-IsSound_example = run-IsSound two_pickups empty (Nodup-nil, tt)

enqueue_for_repo-IsOnlyOpen_example :
    let s' = run (enqueue_for_repo true true "new" "repo" "def") busy in
    All (IsOnlyOpen "repo" "new") s'.jobs
    × (status_of (find_job "new" s'.jobs) ≡ some queued)
    × (s'.queue ≡ [] ++ ("new" ∷ []))
unfolding find_job
enqueue_for_repo-IsOnlyOpen_example = enqueue_for_repo-IsOnlyOpen "new" "repo" "def" busy refl

racing_starves_example :
    let s' = run (racing "a" "b" "repo" "abc" "def") busy in
    (status_of (find_job "a" s'.jobs) ≡ some superseded)
    × (status_of (find_job "b" s'.jobs) ≡ some superseded)
    × (contains (run two_pickups s').claims "a" ≡ contains s'.claims "a")
    × (contains (run two_pickups s').claims "b" ≡ contains s'.claims "b")
    × (s'.claims ≡ "old" ∷ [])
unfolding find_job
racing_starves_example = racing_starves "a" "b" "repo" "abc" "def" busy refl refl refl two_pickups

abbrev answers : Answers
answers = record {
  lookup_error = none;
  clone = resolved "abcdef";
  sign_ok = true;
  stream_ok = true;
  events = progress "embedding" 2 4 ∷ finished 4 ∷ [];
}

abbrev waiting : System
waiting = record empty { jobs = new_job "j" "repo" "" ∷ []; phases = λ w. popped "j" }

job_run :
    find_job "j" (run (uninterrupted 0 answers) waiting).jobs
    ≡ some (record (new_job "j" "repo" "abcdef") {
      status = done;
      progress_stage = some "completed";
      total_chunks = some 4;
      processed_chunks = 4;
      worker_id = some 0;
    })
unfolding run find_job
job_run = refl

uninterrupted_ends_example :
    At 0 "j" idle (outcome (is_success answers)) (run (uninterrupted 0 answers) waiting)
unfolding find_job
uninterrupted_ends_example = uninterrupted_ends 0 "j" answers waiting (refl, refl)
