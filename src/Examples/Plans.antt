-- ===== src/Examples/Plans.antt =====
-- A plan of two steps, the dependent one first.
use mathlib.Core.List.{Nodup, Nodup-cons, Nodup-nil, mem-cons_self}
use forge_engine.Prelude.{
  ℕ, ◌≡◌, refl, String, List, [], ◌∷◌, map, Option, some, arith, contains, if◌then◌else◌, ◌==◌,
  Nodup-cons_new,
}
use forge_engine.Json.{Json, Fields, str, arr, obj, field, end, cons, nil, of_strings}
use forge_engine.Plan.{
  dependency_cycle, id_table, resolved_deps, depends_on, ok, err, stable_id, plan_steps,
  resolve_ordered_steps,
}
use forge_engine.Plan.Decision.{Orders, resolve-Outcome}
use forge_engine.Plan.Acyclic.{IsOrdered, resolve_complete}

abbrev step : String → String → List String → Fields
step id stable deps =
    field "id" (str id)
      (field "stable_id" (str stable) (field "depends_on" (arr (of_strings deps)) end))

abbrev steps : List Fields
steps = step "u2" "tests" ("u1" ∷ "gone" ∷ []) ∷ step "u1" "code" [] ∷ []

abbrev body : Option Json
body = some (
    obj (
      field "steps"
        (arr (
          cons (obj (step "u2" "tests" ("u1" ∷ "gone" ∷ [])))
            (cons (obj (step "u1" "code" [])) nil)))
        end))

steps_of_body : plan_steps body ≡ ok steps
unfolding plan_steps
steps_of_body = refl

abbrev ordered : List Fields
ordered =
    field "_dep_stable_ids" (arr nil) (step "u1" "code" [])
    ∷ field "_dep_stable_ids" (arr (cons (str "code") nil)) (step "u2" "tests" ("u1" ∷ "gone" ∷ []))
    ∷ []

resolve_runs : resolve_ordered_steps body ≡ ok ordered
unfolding resolve_ordered_steps
resolve_runs = refl

resolve-Outcome_example : Orders steps ordered
unfolding resolve_ordered_steps
resolve-Outcome_example = resolve-Outcome body steps steps_of_body

rank_of : String → ℕ
rank_of s = if s == "code" then 0 else 1

steps_distinct : Nodup (map stable_id steps)
unfolding stable_id contains
steps_distinct = Nodup-cons_new "tests" ("code" ∷ []) refl (Nodup-cons_new "code" [] refl Nodup-nil)

resolve_complete_example : IsOrdered (resolve_ordered_steps body)
unfolding rank_of id_table resolved_deps depends_on stable_id of_strings
resolve_complete_example =
    resolve_complete body steps rank_of steps_of_body (omega arith) steps_distinct

-- Two steps that wait for one another.
abbrev cyclic : Option Json
cyclic = some (
    obj (
      field "steps"
        (arr (cons (obj (step "u1" "a" ("u2" ∷ []))) (cons (obj (step "u2" "b" ("u1" ∷ []))) nil)))
        end))

cyclic_refused : resolve_ordered_steps cyclic ≡ err dependency_cycle
unfolding resolve_ordered_steps
cyclic_refused = refl

-- Two steps with no dependency and one stable id.
abbrev twins : List Fields
twins = step "u1" "same" [] ∷ step "u2" "same" [] ∷ []

abbrev twin_body : Option Json
twin_body = some (
    obj (
      field "steps" (arr (cons (obj (step "u1" "same" [])) (cons (obj (step "u2" "same" [])) nil)))
        end))

twins_repeat : ¬ Nodup (map stable_id twins)
unfolding stable_id
twins_repeat n = (Nodup-cons.0 n).0 mem-cons_self

steps_of_twin_body : plan_steps twin_body ≡ ok twins
unfolding plan_steps
steps_of_twin_body = refl
