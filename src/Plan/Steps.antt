-- ===== src/Plan/Steps.antt =====
-- What the sort reads of a step.
use forge_engine.Prelude.{◌≡◌, refl, String, true, List, [], ◌∷◌, arith, All, contains}
use forge_engine.Json.{Fields, get, put, extract_string_slice, strings-of_strings}
use forge_engine.Plan.{
  IdTable, stable_id, depends_on, dep_stable_ids, deps_ready, resolved_deps, annotate,
}

-- The annotation leaves the step's stable id alone.
pub stable_id-annotate :
    (ids : IdTable) (step : Fields) → stable_id (annotate ids step) ≡ stable_id step
unfolding stable_id annotate get put
stable_id-annotate ids step = refl

-- The annotation is read back as the resolved dependencies.
pub dep_stable_ids-annotate :
    (ids : IdTable) (step : Fields)
    → dep_stable_ids (annotate ids step) ≡ resolved_deps ids (depends_on step)
unfolding dep_stable_ids annotate get put extract_string_slice
dep_stable_ids-annotate ids step = strings-of_strings (resolved_deps ids (depends_on step))

abbrev pub AllDone : List String → List String → Type 0
AllDone done = All (λ sid. contains done sid ≡ true)

-- A step is ready exactly when all its resolved dependencies are done.
pub deps_ready→AllDone :
    (ids : IdTable) (done deps : List String)
    → deps_ready ids done deps ≡ true
    → AllDone done (resolved_deps ids deps)
unfolding deps_ready resolved_deps
deps_ready→AllDone ids done [] h = tt
deps_ready→AllDone ids done (id ∷ deps) h = ground (arith, deps_ready→AllDone ids done deps)

pub AllDone→deps_ready :
    (ids : IdTable) (done deps : List String)
    → AllDone done (resolved_deps ids deps)
    → deps_ready ids done deps ≡ true
unfolding deps_ready resolved_deps
AllDone→deps_ready ids done [] h = refl
AllDone→deps_ready ids done (id ∷ deps) h = ground (arith, AllDone→deps_ready ids done deps)
