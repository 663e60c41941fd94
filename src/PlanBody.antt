-- ===== src/PlanBody.antt =====
-- validatePlanBody of backend/internal/handlers/task_handlers.go: the gate that a plan passes before
-- it is stored. The loops over a Go map run in any order; here they run in the order of the steps.
pub mod Depth
pub mod References
pub mod Gate
pub mod Ordered
use forge_engine.Prelude.{
  ℕ, zero, suc, String, Bool, true, false, ◌&&◌, ◌||◌, not, Option, none, some, List, [], ◌∷◌, ◌++◌,
  map, length, if◌then◌else◌, ◌==◌, contains, lookup,
}
use forge_engine.Json.{
  Json, null, obj, Items, nil, cons, Fields, end, get, as_str, as_arr, str_or_empty,
  extract_string_slice,
}

pub data BodyError : Type 0 where
  empty_body not_json bad_schema_version steps_not_array no_steps : BodyError
  missing_field step_not_object missing_step_field empty_id duplicate_id unknown_dependency
        dependency_cycle out_of_fuel :
      BodyError

-- `stepRef`
pub record StepRef : Type 0 where
  pub id : String
  pub depends_on : List String

-- `_, ok := m[f]`
unfoldable pub has_field : Fields → String → Bool
unfolding get
has_field m f = elim (get f m) [ none ↦ false | some v ↦ true ]

unfoldable pub has_fields : Fields → List String → Bool
unfolding has_field
has_fields m [] = true
has_fields m (f ∷ fs) = has_field m f && has_fields m fs

abbrev pub plan_required : List String
plan_required = "schema_version" ∷ "plan_type" ∷ "steps" ∷ "intent_summary" ∷ []

abbrev pub step_required : List String
step_required = "id" ∷ "stable_id" ∷ "order" ∷ "title" ∷ "type" ∷ []

-- The loop over the steps: the references, in order, or the first error. `seen` holds the keys of
-- `stepIDs`.
pub data Refs : Type 0 where
  refs : List StepRef → Refs
  bad : BodyError → Refs

abbrev pub add_ref : StepRef → Refs → Refs
add_ref r (refs rs) = refs (r ∷ rs)
add_ref r (bad e) = bad e

unfoldable pub step_refs : List String → Items → Refs
unfolding has_fields get str_or_empty extract_string_slice contains
step_refs seen nil = refs []
step_refs seen (cons (obj step) items) =
    let id = str_or_empty (get "id" step) in
    let rest = step_refs (id ∷ seen) items in
    if not (has_fields step step_required)
    then bad missing_step_field
    else if id == ""
    then bad empty_id
    else if contains seen id
    then bad duplicate_id
    else add_ref (record { id = id; depends_on = extract_string_slice (get "depends_on" step) })
        rest
step_refs seen (cons _ items) = bad step_not_object

abbrev pub ids : List StepRef → List String
ids [] = []
ids (r ∷ rs) = r.id ∷ ids rs

-- The loop that checks the references.
unfoldable pub all_known : List String → List String → Bool
unfolding contains
all_known known [] = true
all_known known (d ∷ ds) = contains known d && all_known known ds

unfoldable pub deps_known : List String → List StepRef → Bool
unfolding all_known
deps_known known [] = true
deps_known known (r ∷ rs) = all_known known r.depends_on && deps_known known rs

-- `depMap[id]`
unfoldable pub deps_of : List StepRef → String → List String
deps_of [] id = []
deps_of (r ∷ rs) id = if r.id == id then r.depends_on else deps_of rs id

-- The outcome of a search: a cycle, or the black ids.
pub data Search : Type 0 where
  cycle no_fuel : Search
  searched : List String → Search

-- The loop over the dependencies, with the search of one.
abbrev pub each : (List String → String → Search) → List String → List String → Search
each go black [] = searched black
each go black (d ∷ ds) = elim (go black d) [
  | cycle ↦ cycle
  | no_fuel ↦ no_fuel
  | searched black' ↦ each go black' ds
]

abbrev pub blacken : String → Search → Search
blacken id cycle = cycle
blacken id no_fuel = no_fuel
blacken id (searched black) = searched (id ∷ black)

-- `dfs` on fuel. An id is grey while its call runs, so the grey ones are handed down; the black ones
-- are handed on.
unfoldable pub dfs : ℕ → List StepRef → List String → List String → String → Search
unfolding contains deps_of
dfs zero rs grey black id = no_fuel
dfs (suc fuel) rs grey black id =
    let rest = blacken id (each (dfs fuel rs (id ∷ grey)) black (deps_of rs id)) in
    if contains black id then searched black else if contains grey id then cycle else rest

-- The search from every id. A path of grey ids has no repetition, so one call more than there are
-- steps is enough.
unfoldable pub search_all : List StepRef → Search
unfolding dfs
search_all rs = each (dfs (suc (length rs)) rs []) [] (ids rs)

abbrev pub search_error : Search → Option BodyError
search_error cycle = some dependency_cycle
search_error no_fuel = some out_of_fuel
search_error (searched black) = none

unfoldable pub check_refs : List StepRef → Option BodyError
unfolding deps_known search_all
check_refs rs =
    if not (deps_known (ids rs) rs) then some unknown_dependency else search_error (search_all rs)

unfoldable pub refs_error : Refs → Option BodyError
unfolding check_refs
refs_error (bad e) = some e
refs_error (refs rs) = check_refs rs

abbrev pub is_v1 : Option String → Bool
is_v1 none = false
is_v1 (some v) = v == "v1"

-- The checks of the decoded object.
unfoldable pub validate_plan : Fields → Option BodyError
unfolding has_fields get as_str as_arr step_refs refs_error
validate_plan plan =
    if not (has_fields plan plan_required)
    then some missing_field
    else if not (is_v1 (as_str (get "schema_version" plan)))
    then some bad_schema_version
    else elim (as_arr (get "steps" plan)) [
      | none ↦ some steps_not_array
      | some nil ↦ some no_steps
      | some (cons x xs) ↦ refs_error (step_refs [] (cons x xs))
    ]

-- The body: without bytes, or what decoding it gives. `null` decodes to the empty map.
pub data Body : Type 0 where
  no_bytes : Body
  decoded : Option Json → Body

unfoldable pub validate_plan_body : Body → Option BodyError
unfolding validate_plan
validate_plan_body no_bytes = some empty_body
validate_plan_body (decoded (some (obj plan))) = validate_plan plan
validate_plan_body (decoded (some null)) = validate_plan end
validate_plan_body (decoded _) = some not_json
