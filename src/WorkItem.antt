-- ===== src/WorkItem.antt =====
-- backend/internal/repository/work_item_repository.go: the status transitions of a work item, each
-- an UPDATE guarded by a WHERE clause, on the row that the id names. The constants are those of
-- backend/internal/models/models.go. Whether the database ran a statement at all is an argument;
-- timestamps, the plan tables and the SELECT queries are left out.
pub mod Gate
pub mod Graph
use forge_engine.Prelude.{
  Bool, true, false, ◌&&◌, ◌||◌, not, String, Option, none, some, List, [], ◌∷◌, if◌then◌else◌,
  ◌==◌, ℕ, nat_eq,
}

-- `publishing` is written as a literal; the other statuses have constants.
pub data Status : Type 0 where
  draft planning planning_failed plan_ready plan_approved executing repairing done failed cancelled
        publishing :
      Status

pub data Approval : Type 0 where
  pending_review approved auto_approved blocked changes_requested : Approval

pub record WorkItem : Type 0 where
  pub org_id : String
  pub intent : String
  pub status : Status
  pub approval_status : Approval
  pub error : Option String

pub data OpError : Type 0 where
  db_error invalid_status not_found : OpError

abbrev pub index : Status → ℕ
index draft = 0
index planning = 1
index planning_failed = 2
index plan_ready = 3
index plan_approved = 4
index executing = 5
index repairing = 6
index done = 7
index failed = 8
index cancelled = 9
index publishing = 10

-- `status IN (…)`
abbrev pub is_one_of : List Status → Status → Bool
is_one_of [] s = false
is_one_of (t ∷ ts) s = nat_eq (index t) (index s) || is_one_of ts s

-- What `ExecContext` reports: the statement failed, or how many rows it changed.
pub data Rows : Type 0 where
  failed_statement : Rows
  affected : ℕ → Rows

-- An UPDATE of the row, if the statement runs and the WHERE clause holds.
abbrev pub update : Bool → Bool → WorkItem → WorkItem → WorkItem × Rows
update false test new old = (old, failed_statement)
update true false new old = (old, affected 0)
update true true new old = (new, affected 1)

-- The error of a method that looks at the statement's error alone.
abbrev pub ignore_rows : Rows → Option OpError
ignore_rows failed_statement = some db_error
ignore_rows (affected n) = none

-- The error of a method that also wants a row.
abbrev pub want_row : OpError → Rows → Option OpError
want_row e failed_statement = some db_error
want_row e (affected n) = if nat_eq n 0 then some e else none

-- `Create`
unfoldable pub create : String → String → WorkItem
create org_id intent = record {
  org_id = org_id;
  intent = intent;
  status = draft;
  approval_status = pending_review;
  error = none;
}

transition : Bool → Status → List Status → WorkItem → WorkItem × Option OpError
transition db new [] item = (item, some invalid_status)
transition db new (s ∷ ss) item =
    let (item', rows) =
      update db (is_one_of (s ∷ ss) item.status) (record item { status = new }) item in
    (item', want_row invalid_status rows)

start_planning : Bool → WorkItem → WorkItem × Option OpError
unfolding transition
start_planning db item = transition db planning (draft ∷ []) item

mark_plan_ready : Bool → WorkItem → WorkItem × Option OpError
unfolding transition
mark_plan_ready db item = transition db plan_ready (planning ∷ []) item

mark_planning_failed : Bool → String → WorkItem → WorkItem × Option OpError
mark_planning_failed db err_msg item =
    let (item', rows) =
      update db (is_one_of (planning ∷ []) item.status)
        (record item { status = planning_failed; error = some err_msg }) item in
    (item', ignore_rows rows)

-- The missing row of `RETURNING` is the error of the scan.
approve : Bool → String → WorkItem → WorkItem × Option OpError
approve db org_id item =
    let (item', rows) =
      update db (item.org_id == org_id && is_one_of (plan_ready ∷ []) item.status)
        (record item { approval_status = approved; status = plan_approved }) item in
    (item', want_row not_found rows)

reset_for_replan : Bool → String → WorkItem → WorkItem × Option OpError
reset_for_replan db org_id item =
    let (item', rows) =
      update db (item.org_id == org_id && is_one_of (plan_ready ∷ planning_failed ∷ []) item.status)
        (record item { status = planning; approval_status = pending_review; error = none }) item in
    (item', want_row invalid_status rows)

cancel : Bool → String → WorkItem → WorkItem × Option OpError
cancel db org_id item =
    let (item', rows) =
      update db
        (item.org_id == org_id && not (is_one_of (done ∷ failed ∷ cancelled ∷ []) item.status))
        (record item { status = cancelled }) item in
    (item', want_row invalid_status rows)

-- The one UPDATE with no condition on the status.
reset_approval_after_edit : Bool → WorkItem → WorkItem × Option OpError
reset_approval_after_edit db item =
    let (item', rows) =
      update db true (record item { approval_status = pending_review; status = plan_ready }) item in
    (item', ignore_rows rows)

unfoldable pub transition_to_executing : Bool → WorkItem → WorkItem × Option OpError
transition_to_executing db item =
    let (item', rows) =
      update db (is_one_of (plan_approved ∷ []) item.status) (record item { status = executing })
        item in
    (item', ignore_rows rows)

unfoldable pub transition_to_repairing : Bool → WorkItem → WorkItem × Option OpError
transition_to_repairing db item =
    let (item', rows) =
      update db (is_one_of (executing ∷ []) item.status) (record item { status = repairing })
        item in
    (item', ignore_rows rows)

unfoldable pub transition_to_done : Bool → WorkItem → WorkItem × Option OpError
transition_to_done db item =
    let (item', rows) =
      update db (is_one_of (executing ∷ repairing ∷ []) item.status)
        (record item { status = done; error = none }) item in
    (item', ignore_rows rows)

transition_to_publishing : Bool → WorkItem → WorkItem × Option OpError
transition_to_publishing db item =
    let (item', rows) =
      update db (is_one_of (done ∷ []) item.status) (record item { status = publishing }) item in
    (item', ignore_rows rows)

unfoldable pub transition_to_failed : Bool → String → WorkItem → WorkItem × Option OpError
transition_to_failed db err_msg item =
    let (item', rows) =
      update db (is_one_of (executing ∷ repairing ∷ []) item.status)
        (record item { status = failed; error = some err_msg }) item in
    (item', ignore_rows rows)

-- A call of one of the methods.
pub data Op : Type 0 where
  starts_planning marks_plan_ready resets_after_edit to_executing to_repairing to_done
        to_publishing :
      Op
  marks_planning_failed to_failed : String → Op
  approves replans cancels : String → Op

unfoldable pub apply : Bool → Op → WorkItem → WorkItem × Option OpError
unfolding start_planning mark_plan_ready mark_planning_failed approve reset_for_replan cancel
    reset_approval_after_edit transition_to_executing transition_to_repairing transition_to_done
    transition_to_publishing transition_to_failed
apply db starts_planning item = start_planning db item
apply db marks_plan_ready item = mark_plan_ready db item
apply db (marks_planning_failed e) item = mark_planning_failed db e item
apply db (approves org) item = approve db org item
apply db (replans org) item = reset_for_replan db org item
apply db (cancels org) item = cancel db org item
apply db resets_after_edit item = reset_approval_after_edit db item
apply db to_executing item = transition_to_executing db item
apply db to_repairing item = transition_to_repairing db item
apply db to_done item = transition_to_done db item
apply db to_publishing item = transition_to_publishing db item
apply db (to_failed e) item = transition_to_failed db e item

-- A history of calls, with each statement's fate.
unfoldable pub run : WorkItem → List (Bool × Op) → WorkItem
unfolding apply
run item [] = item
run item ((db, op) ∷ ops) = run (apply db op item).0 ops
