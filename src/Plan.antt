-- ===== src/Plan.antt =====
-- resolveOrderedSteps of backend/internal/execution/orchestrator.go: the steps of a plan in the
-- order in which the execution loop runs them. A step is the JSON object that the plan holds.
pub mod Steps
pub mod Order
pub mod Table
pub mod Decision
pub mod Acyclic
use forge_engine.Prelude.{
  ℕ, zero, suc, String, Bool, true, false, List, [], ◌∷◌, ◌++◌, Option, none, some, length, ltb,
  if◌then◌else◌, contains, lookup,
}
use forge_engine.Json.{
  Json, Fields, str, arr, obj, get, put, as_str, as_arr, str_or_empty, objects,
  extract_string_slice, of_strings,
}

-- `idToStableID`
abbrev pub IdTable : Type 0
IdTable = List (String × String)

pub data PlanError : Type 0 where
  bad_json no_steps dependency_cycle out_of_fuel : PlanError

pub data Resolved : Type 0 where
  ok : List Fields → Resolved
  err : PlanError → Resolved

-- `sid, _ := step["stable_id"].(string)`
unfoldable pub stable_id : Fields → String
unfolding get str_or_empty
stable_id step = str_or_empty (get "stable_id" step)

-- `extractStringSlice(step["depends_on"])`
unfoldable pub depends_on : Fields → List String
unfolding get extract_string_slice
depends_on step = extract_string_slice (get "depends_on" step)

-- `extractStringSlice(step["_dep_stable_ids"])`
unfoldable pub dep_stable_ids : Fields → List String
unfolding get extract_string_slice
dep_stable_ids step = extract_string_slice (get "_dep_stable_ids" step)

-- One round of the loop that fills `idToStableID`.
add_id : IdTable → Fields → IdTable
unfolding as_str get
add_id ids step = elim (as_str (get "id" step)) [
  | none ↦ ids
  | some id ↦ elim (as_str (get "stable_id" step)) [ none ↦ ids | some sid ↦ (id, sid) ∷ ids ]
]

add_ids : IdTable → List Fields → IdTable
unfolding add_id
add_ids ids [] = ids
add_ids ids (step ∷ steps) = add_ids (add_id ids step) steps

unfoldable pub id_table : List Fields → IdTable
unfolding add_ids
id_table steps = add_ids [] steps

-- The loop over `deps` that decides `ready`: an id that the plan does not have is passed over.
unfoldable pub deps_ready : IdTable → List String → List String → Bool
unfolding lookup contains
deps_ready ids done [] = true
deps_ready ids done (id ∷ deps) =
    let rest = deps_ready ids done deps in
    elim (lookup id ids) [ none ↦ rest | some sid ↦ if contains done sid then rest else false ]

-- `depStableIDs`
unfoldable pub resolved_deps : IdTable → List String → List String
unfolding lookup
resolved_deps ids [] = []
resolved_deps ids (id ∷ deps) =
    let rest = resolved_deps ids deps in
    elim (lookup id ids) [ none ↦ rest | some sid ↦ sid ∷ rest ]

unfoldable pub annotate : IdTable → Fields → Fields
unfolding put of_strings resolved_deps depends_on
annotate ids step =
    put "_dep_stable_ids" (arr (of_strings (resolved_deps ids (depends_on step)))) step

-- The variables of the sort.
pub record Sort : Type 0 where
  pub done : List String
  pub ordered : List Fields
  pub progress : Bool

-- The body of the inner loop.
unfoldable pub visit : IdTable → Fields → Sort → Sort
unfolding contains stable_id deps_ready depends_on annotate
visit ids step s =
    if contains s.done (stable_id step)
    then s
    else if deps_ready ids s.done (depends_on step)
    then record {
      done = stable_id step ∷ s.done;
      ordered = s.ordered ++ (annotate ids step ∷ []);
      progress = true;
    }
    else s

unfoldable pub pass : IdTable → List Fields → Sort → Sort
unfolding visit
pass ids [] s = s
pass ids (step ∷ steps) s = pass ids steps (visit ids step s)

-- The outer loop, on fuel.
unfoldable pub rounds : ℕ → IdTable → List Fields → Sort → Resolved
unfolding pass
rounds zero ids steps s = err out_of_fuel
rounds (suc fuel) ids steps s =
    let s' = pass ids steps (record s { progress = false }) in
    let rest = rounds fuel ids steps s' in
    if ltb (length s.ordered) (length steps)
    then if s'.progress then rest else err dependency_cycle
    else ok s.ordered

abbrev pub start : Sort
start = record { done = []; ordered = []; progress = false }

-- A round that goes on adds a step, so one round more than there are steps is enough.
unfoldable pub sort_steps : List Fields → Resolved
unfolding id_table rounds
sort_steps steps = rounds (suc (length steps)) (id_table steps) steps start

-- `plan["steps"]` of a body that decodes to an object; `null` decodes to the empty map.
unfoldable pub plan_steps : Option Json → Resolved
unfolding as_arr objects get
plan_steps (some (obj plan)) = elim (as_arr (get "steps" plan)) [
  | none ↦ err no_steps
  | some xs ↦ ok (objects xs)
]
plan_steps (some Json.null) = err no_steps
plan_steps _ = err bad_json

unfoldable pub resolve_ordered_steps : Option Json → Resolved
unfolding plan_steps sort_steps
resolve_ordered_steps body = elim (plan_steps body) [ err e ↦ err e | ok steps ↦ sort_steps steps ]
