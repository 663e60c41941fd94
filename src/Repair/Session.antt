-- ===== src/Repair/Session.antt =====
-- `Orchestrator.Run` of backend/internal/repair/orchestrator.go and the session methods of
-- repair/repository.go: the bounded repair loop, on the session's row and the work item's row. What
-- comes from outside is an argument: the agent, the validation runs, the clock, and whether each
-- statement of the database ran. Events, logs and the attempt's own row are left out.
use forge_engine.Prelude.{
  ℕ, zero, suc, String, Bool, true, false, ◌&&◌, Option, none, some, List, [], ◌∷◌, if◌then◌else◌,
  ltb,
}
use forge_engine.WorkItem.{
  WorkItem, transition_to_repairing, transition_to_done, transition_to_failed,
}
use forge_engine.Repair.{
  ValidationRun, Outcome, passed, improved, no_change, regressed, error, evaluate,
  compare_validation_outcomes,
}

pub data SessionStatus : Type 0 where
  running completed exhausted escalated cancelled : SessionStatus

-- A row of `repair_sessions`.
pub record RepairSession : Type 0 where
  pub status : SessionStatus
  pub max_attempts : ℕ
  pub attempts_used : ℕ
  pub max_duration_secs : ℕ
  pub final_validation_run_id : Option String
  pub escalation_reason : Option String

unfoldable pub create_session : ℕ → ℕ → RepairSession
create_session max_attempts max_duration_secs = record {
  status = running;
  max_attempts = max_attempts;
  attempts_used = 0;
  max_duration_secs = max_duration_secs;
  final_validation_run_id = none;
  escalation_reason = none;
}

-- The UPDATE statements name the row alone; the first argument says whether the statement ran.
unfoldable pub increment_attempts : Bool → RepairSession → RepairSession
increment_attempts db s = if db then record s { attempts_used = suc s.attempts_used } else s

unfoldable pub mark_completed : Bool → String → RepairSession → RepairSession
mark_completed db run_id s =
    if db then record s { status = completed; final_validation_run_id = some run_id } else s

unfoldable pub mark_exhausted : Bool → String → RepairSession → RepairSession
mark_exhausted db run_id s =
    if db then record s { status = exhausted; final_validation_run_id = some run_id } else s

unfoldable pub mark_escalated : Bool → String → RepairSession → RepairSession
mark_escalated db reason s =
    if db then record s { status = escalated; escalation_reason = some reason } else s

abbrev pub mark_cancelled : Bool → RepairSession → RepairSession
mark_cancelled db s = if db then record s { status = cancelled } else s

-- `RepairAttemptResult`, or the error of `executeRepairAttempt`.
pub data AttemptResult : Type 0 where
  attempt_error repaired : AttemptResult
  cannot_repair : String → AttemptResult

-- What one round of the loop meets.
pub record Round : Type 0 where
  -- A cancel request arrives before the poll, or while the attempt runs.
  pub cancels_before : Bool
  pub cancels_during : Bool
  pub poll_ok : Bool
  pub elapsed : ℕ
  pub increment_ok : Bool
  pub attempt : AttemptResult
  pub validation : Option ValidationRun
  -- Whether the statements that end the session and the work item run.
  pub mark_ok : Bool
  pub item_ok : Bool

pub record State : Type 0 where
  pub session : RepairSession
  pub item : WorkItem
  pub last_validation_run_id : String
  -- The attempts given to the agent, and those rolled back, newest first.
  pub attempted : List ℕ
  pub rolled_back : List ℕ

pub data RunResult : Type 0 where
  load_failed not_permitted transition_failed session_failed : RunResult
  repair_passed session_cancelled time_exhausted attempts_exhausted : RunResult
  attempt_failed agent_gave_up validation_failed no_improvement regression outcome_error : RunResult

abbrev pub is_cancelled : SessionStatus → Bool
is_cancelled cancelled = true
is_cancelled running = false
is_cancelled completed = false
is_cancelled exhausted = false
is_cancelled escalated = false

-- `isCancelled`, which takes a failed query for a session that goes on.
unfoldable pub polls_cancelled : Bool → RepairSession → Bool
polls_cancelled poll_ok s = poll_ok && is_cancelled s.status

abbrev pub cancel_if : Bool → State → State
cancel_if b st = record st { session = mark_cancelled b st.session }

-- The pairs of calls that end the session and fail the work item.
unfoldable pub escalate : Round → String → String → State → State
unfolding mark_escalated transition_to_failed
escalate r reason message st = record st {
  session = mark_escalated r.mark_ok reason st.session;
  item = (transition_to_failed r.item_ok message st.item).0;
}

unfoldable pub exhaust : Round → String → State → State
unfolding mark_exhausted transition_to_failed
exhaust r message st = record st {
  session = mark_exhausted r.mark_ok st.last_validation_run_id st.session;
  item = (transition_to_failed r.item_ok message st.item).0;
}

unfoldable pub complete : Round → String → State → State
unfolding mark_completed transition_to_done
complete r run_id st = record st {
  session = mark_completed r.mark_ok run_id st.session;
  item = (transition_to_done r.item_ok st.item).0;
}

-- The round ends the loop, or it goes on.
pub data Step : Type 0 where
  returns : State → RunResult → Step
  continues : State → Step

-- The `switch outcome`.
unfoldable pub handle_outcome : Round → ℕ → ValidationRun → Outcome → State → Step
unfolding complete escalate
handle_outcome r attempt_num run passed st = returns (complete r run.id st) repair_passed
handle_outcome r attempt_num run improved st = continues st
handle_outcome r attempt_num run no_change st =
    returns
      (escalate r "repair strategy ineffective (no change)" "repair escalated: no improvement" st)
      no_improvement
handle_outcome r attempt_num run regressed st =
    returns
      (escalate r "repair caused regression" "repair escalated: regression"
        (record st { rolled_back = attempt_num ∷ st.rolled_back }))
      regression
handle_outcome r attempt_num run error st =
    returns (escalate r "error classifying repair outcome" "repair escalated: outcome error" st)
      outcome_error

-- From the attempt's result on.
unfoldable pub finish_attempt : ValidationRun → Round → ℕ → State → Step
unfolding escalate handle_outcome compare_validation_outcomes
finish_attempt trigger r attempt_num st = elim r.attempt [
  | attempt_error ↦ returns (escalate r "attempt error" "repair failed" st) attempt_failed
  | cannot_repair reason ↦ returns (escalate r reason "repair escalated" st) agent_gave_up
  | repaired ↦ elim r.validation [
    | none ↦ returns (escalate r "validation error" "validation error" st) validation_failed
    | some run ↦
        handle_outcome r attempt_num run (compare_validation_outcomes trigger run)
          (record st { last_validation_run_id = run.id })
  ]
]

-- The body of the loop.
unfoldable pub run_attempt : ValidationRun → Round → ℕ → State → Step
unfolding polls_cancelled exhaust increment_attempts finish_attempt
run_attempt trigger r attempt_num st₀ =
    let st = cancel_if r.cancels_before st₀ in
    if polls_cancelled r.poll_ok st.session
    then returns st session_cancelled
    else if ltb st.session.max_duration_secs r.elapsed
    then returns (exhaust r "repair budget exhausted (time)" st) time_exhausted
    else finish_attempt trigger r attempt_num (
        cancel_if r.cancels_during (record st {
          session = increment_attempts r.increment_ok st.session;
          attempted = attempt_num ∷ st.attempted;
        }))

abbrev pub follow : Step → (State → State × RunResult) → State × RunResult
follow (returns st result) next = (st, result)
follow (continues st) next = next st

-- The loop with `left` rounds left; round n meets `rounds n`, and the return after the loop
-- `rounds 0`.
unfoldable pub attempts : (ℕ → Round) → ValidationRun → ℕ → ℕ → State → State × RunResult
unfolding exhaust run_attempt
attempts rounds trigger zero attempt_num st =
    (exhaust (rounds 0) "repair budget exhausted (max attempts)" st, attempts_exhausted)
attempts rounds trigger (suc left) attempt_num st =
    follow (run_attempt trigger (rounds attempt_num) attempt_num st)
      (attempts rounds trigger left (suc attempt_num))

abbrev pub default_max_attempts : ℕ
default_max_attempts = 3

abbrev pub default_max_duration_secs : ℕ
default_max_duration_secs = 1800

-- From `CreateSession` on.
unfoldable pub start_session :
    (ℕ → Round) → ValidationRun → Bool → WorkItem → WorkItem × Option State × RunResult
unfolding create_session attempts
start_session rounds trigger false item = (item, none, session_failed)
start_session rounds trigger true item =
    let (st, result) = attempts rounds trigger default_max_attempts 1 (record {
      session = create_session default_max_attempts default_max_duration_secs;
      item = item;
      last_validation_run_id = trigger.id;
      attempted = [];
      rolled_back = [];
    }) in
    (st.item, some st, result)

-- `Run`: the gate, the transition and the session. The trigger run is `none` when one of the rows
-- does not load; without a session there is no state to return but the item.
unfoldable pub run_repair :
    (ℕ → Round)
    → Option ValidationRun
    → Bool
    → Bool
    → WorkItem
    → WorkItem × Option State × RunResult
unfolding evaluate transition_to_failed transition_to_repairing start_session
run_repair rounds none item_ok session_ok item = (item, none, load_failed)
run_repair rounds (some trigger) item_ok session_ok item =
    let (item', failure) = transition_to_repairing item_ok item in
    if (evaluate trigger).allowed
    then elim failure [
      | some e ↦ (item', none, transition_failed)
      | none ↦ start_session rounds trigger session_ok item'
    ]
    else ((transition_to_failed item_ok "repair not permitted" item).0, none, not_permitted)
