-- ===== src/Lib.antt =====
-- Forge Engine, the backend: a model of its Go code and what holds of it.
--
-- The program turns a request into a change of a repository. A plan, a JSON object whose steps name
-- the steps they depend on, passes a gate and is stored with a work item. After the approval of the
-- item's organisation the execution gives the steps to an agent, one by one, in a workspace. When
-- it is through, the validation runs the stages of a profile there and classifies the run. A run
-- that failed in a way that can be repaired starts the repair: attempts of an agent, each followed
-- by a validation, until the item is done or failed. A workspace is a container with a clone of the
-- repository; the agent changes its files by tool calls, and a reaper destroys what is over its time.
-- Beside this, workers ingest the commits of the repositories, for which requests put jobs in a queue. An item
-- that is done is published: a branch, a commit, a push and a pull request.
--
-- The files, and the code they model (under backend/internal/):
--
--   Json         the JSON values that plans are decoded to, and the reads the code makes of them.
--   PlanBody     handlers/task_handlers.go, validatePlanBody: the gate before a plan is stored.
--                PlanBody/Ordered puts it together with Plan.
--   WorkItem     repository/work_item_repository.go: each method is a function on the item's row that
--                also gives its error; the first argument says whether the statement ran.
--                WorkItem/Graph has the diagram of the statuses, WorkItem/Gate what histories do.
--   Plan         execution/orchestrator.go, resolveOrderedSteps: the order of the steps.
--   Execution    execution/orchestrator.go, Run from the loop on, with handleStepEvent, trackArtifact,
--                findBlockingDep and appendUnique, and the status updates of
--                repository/execution_repository.go. A round of the loop is a function into a Step:
--                the return of Run, or the next state.
--                Execution/Start is StartExecution of handlers/execution_handlers.go: the checks, and
--                what is written before Run is launched.
--   Execution/Policy    execution/policy.go: the tool calls that are let through.
--   Diff         execution/diff.go: the edit script, the hunks and the counts of a unified diff.
--   Validation   validation/repository.go (computeSummary), validation/orchestrator.go (the result of
--                a run) and validation/environment (the detector). Validation/Stage is runStage,
--                Validation/Stages the loop of Run.
--   Repair       repair/policy.go, and compareValidationOutcomes of repair/orchestrator.go.
--                Repair/Session is Run with the session's row (repair/repository.go), in which the
--                methods of WorkItem end the item; Repair/Checkpoint is the capture of files during an
--                attempt and the rollback.
--   Workspace    workspace/manager.go (Provision, Exec, Destroy), workspace/reaper.go and
--                repository/workspace_repository.go, for one workspace: its row, its containers that
--                run and its log. Workspace/Driver has the events of a command, which Validation reads
--                too; Exec, Provision, Reaper and Listing are the operations, Frames and Docker the
--                driver (workspace/docker_driver.go), the other children their proofs.
--   Dispatch     handlers/execution_handlers.go, ToolDispatch and dispatchTool, on the files of a
--                workspace (workspace/manager.go), with the events and diffs that they store
--                (repository/execution_repository.go). It asks Execution/Policy and counts by Diff.
--   Ingestion    repository/ingestion_job_repository.go; Ingestion/Worker is
--                ingestion/job_worker.go, cut at each access to what is shared.
--   Publishing   publishing/orchestrator.go, Run and its steps, with the rows of
--                publishing/repository.go for one item, and the switch of StartPublish
--                (publishing/handlers.go) on the latest session. Steps and Push are the steps; a step
--                goes on, returns an error, panics, or waits forever.
--   Prelude, Examples   shared helpers; tests and concrete runs.
--
-- Conventions. Numbers are natural numbers; the code's counters and indices stay far from the
-- bounds of its integers, and an index of -1 is `none`. Texts that the code takes apart are lists
-- of bytes, other texts are strings. A row of the database is a record, and an UPDATE changes it
-- where its WHERE holds. What comes from outside is an argument: the events and answers of the
-- agents, the output of commands, the clock, the cancel requests, what a file holds, the tables of
-- package unicode, the JSON text of a checkpoint, and for each statement whether it ran. Loops over
-- the keys of a map, whose order Go leaves open, run in the order of the list that filled the map;
-- nothing that is proved depends on it. Where requests and workers interleave, a run is a list of
-- their actions in the order in which they happen.
--
-- Fuel. Where the code loops until something changes, the model counts down, and the count is proved
-- to be enough: resolveOrderedSteps has one round more than there are steps, since a round that goes
-- on orders a step; the depth of the search in validatePlanBody is at most the number of steps, since
-- a path of grey ids has no repetition; computeHunks has one round more than there are edits, since a
-- round consumes one. The reader of Docker's frames has a round for every byte, and a round reads
-- eight. The repair loop counts its attempts as the code does.
--
-- Left out: logs, metrics, events for clients, tokens and request ids, the texts of messages beyond
-- those that the code reads back, and the parts that only call other systems: HTTP handlers and
-- clients, the cloner, the schema. Docker is a parameter of the workspace driver, whose ReadFile and
-- WriteFile through tar archives are not modelled.
mod Prelude
pub mod Json
pub mod Plan
pub mod PlanBody
pub mod WorkItem
pub mod Diff
pub mod Workspace
pub mod Ingestion
pub mod Publishing
pub mod Execution
pub mod Dispatch
pub mod Repair
pub mod Validation
mod Examples
