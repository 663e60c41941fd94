-- ===== src/Examples/Bodies.antt =====
-- A plan body, and the theorem on the gate.
use mathlib.Core.List.{Nodup-nil}
use forge_engine.Prelude.{
  ◌≡◌, ◌≢◌, refl, none, some, List, [], ◌∷◌, String, Nodup-cons_new, contains,
}
use forge_engine.Json.{Fields, str, num, arr, obj, cons, nil, end, field, of_strings}
use forge_engine.Plan.{stable_id, plan_steps, err, dependency_cycle, resolve_ordered_steps}
use forge_engine.PlanBody.{
  Body, decoded, out_of_fuel, dependency_cycle as has_cycle, validate_plan_body,
}
use forge_engine.Plan.Acyclic.{IsOrdered}
use forge_engine.PlanBody.Ordered.{resolve_ordered_steps-IsOrdered}
use forge_engine.PlanBody.Gate.{Accepted, validate_plan_body_accepts}

abbrev step : String → String → List String → Fields
step id stable deps = field "id" (str id) (
    field "stable_id" (str stable) (
      field "order" (num 1) (
        field "title" (str "t")
          (field "type" (str "edit") (field "depends_on" (arr (of_strings deps)) end)))))

abbrev plan : Fields → Fields → Fields
plan s t = field "schema_version" (str "v1") (
    field "plan_type" (str "code") (
      field "intent_summary" (str "i") (field "steps" (arr (cons (obj s) (cons (obj t) nil))) end)))

abbrev good_plan : Fields
good_plan = plan (step "a" "one" ("b" ∷ [])) (step "b" "two" [])

abbrev good : Body
good = decoded (some (obj good_plan))

good_passes : validate_plan_body good ≡ none
unfolding validate_plan_body of_strings
good_passes = refl

circular_refused :
    validate_plan_body
      (decoded (some (obj (plan (step "a" "one" ("b" ∷ [])) (step "b" "two" ("a" ∷ []))))))
    ≡ some has_cycle
unfolding validate_plan_body of_strings
circular_refused = refl

-- A plan that passes the gate, and that the execution then refuses: a stable id is used twice.
twice_passes :
    validate_plan_body (decoded (some (obj (plan (step "a" "one" []) (step "b" "one" []))))) ≡ none
unfolding validate_plan_body of_strings
twice_passes = refl

twice_refused :
    resolve_ordered_steps (some (obj (plan (step "a" "one" []) (step "b" "one" []))))
    ≡ err dependency_cycle
unfolding resolve_ordered_steps of_strings
twice_refused = refl

validate_plan_body_accepts_example :
    (validate_plan_body good ≢ some out_of_fuel)
    × (validate_plan_body good ≡ none → (p : Fields) × (good ≡ decoded (some (obj p))) × Accepted p)
validate_plan_body_accepts_example = validate_plan_body_accepts good

resolve_ordered_steps-IsOrdered_example : IsOrdered (resolve_ordered_steps (some (obj good_plan)))
unfolding validate_plan_body plan_steps of_strings stable_id contains
resolve_ordered_steps-IsOrdered_example =
    resolve_ordered_steps-IsOrdered good_plan (step "a" "one" ("b" ∷ []) ∷ step "b" "two" [] ∷ [])
      refl refl (Nodup-cons_new "one" ("two" ∷ []) refl (Nodup-cons_new "two" [] refl Nodup-nil))
