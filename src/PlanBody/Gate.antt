-- ===== src/PlanBody/Gate.antt =====
-- What a plan body that passes the gate is like.
use mathlib.Core.List.{Nodup, Nodup-nil}
use forge_engine.Prelude.{
  suc, ◌≡◌, ◌≢◌, refl, ap, ◌∙◌, subst, String, true, not, Option, none, some, List, [], ◌∷◌, arith,
  if-lift, Bool-cases, inl, inr, ◌==◌, contains, contains_cons_inv, length,
}
use forge_engine.Json.{
  null, bool, num, str, arr, obj, Items, nil, cons, Fields, get, as_arr, as_str,
}
use forge_engine.PlanBody.{
  BodyError, out_of_fuel, missing_field, bad_schema_version, steps_not_array, no_steps, StepRef,
  Refs, refs, bad, ids, deps_of, all_known, deps_known, Search, cycle, no_fuel, searched, dfs,
  search_error, search_all, check_refs, refs_error, step_refs, validate_plan, has_fields,
  plan_required, is_v1, Body, no_bytes, decoded, validate_plan_body,
}
use forge_engine.PlanBody.Depth.{IsSettled, IsIn, Searched, IsClosed, dfs-Searched, each-Searched}
use forge_engine.PlanBody.References.{step_refs-FreshIds, step_refs-ends}

all_known-IsIn : (known ds : List String) → all_known known ds ≡ true → IsIn ds known
unfolding all_known contains
all_known-IsIn known [] h x m = cc
all_known-IsIn known (d ∷ ds) h x m = elim (contains_cons_inv d x ds m) [
  | inl e ↦ subst (λ y. contains known y ≡ true) e (ground arith)
  | inr k ↦ all_known-IsIn known ds (ground arith) x k
]

deps_known-IsIn :
    (known : List String) (rs : List StepRef)
    → deps_known known rs ≡ true
    → (id : String) → IsIn (deps_of rs id) known
unfolding deps_known deps_of contains
deps_known-IsIn known [] h id = λ x m. cc
deps_known-IsIn known (r ∷ rs) h id =
    if-lift (λ (ds : List String). IsIn ds known) (r.id == id) r.depends_on (deps_of rs id)
      (λ _. all_known-IsIn known r.depends_on (ground arith))
      (λ _. deps_known-IsIn known rs (ground arith) id)

ids-length : (rs : List StepRef) → length (ids rs) ≡ length rs
ids-length [] = refl
ids-length (r ∷ rs) = ap suc (ids-length rs)

search_all-Searched : (rs : List StepRef) → IsClosed rs → Searched rs [] (ids rs) (search_all rs)
unfolding search_all contains
search_all-Searched rs closed =
    each-Searched rs (dfs (suc (length rs)) rs []) [] (ids rs)
      (λ black id m s.
        dfs-Searched (suc (length rs)) rs [] black id closed (Nodup-nil, (λ x m. cc))
          (omega (arith, ids-length rs)) m s)
      tt

-- An order of the steps: every step is in it, after its dependencies.
abbrev pub Order : List StepRef → Type 0
Order rs = (black : List String) × IsSettled rs black × IsIn (ids rs) black

checked :
    (rs : List StepRef) (s : Search)
    → Searched rs [] (ids rs) s
    → (search_error s ≢ some out_of_fuel) × (search_error s ≡ none → Order rs)
checked rs cycle p = ((λ e. cc), (λ e. cc))
checked rs no_fuel p = absurd p
checked rs (searched black) (s, up, all) = ((λ e. cc), (λ e. (black, s, all)))

check_refs-Order :
    (rs : List StepRef) → (check_refs rs ≢ some out_of_fuel) × (check_refs rs ≡ none → Order rs)
unfolding check_refs
check_refs-Order rs = elim (Bool-cases (deps_known (ids rs) rs)) [
  | inr n ↦ rw n ((λ e. cc), (λ e. cc))
  | inl y ↦
      rw y (checked rs (search_all rs) (search_all-Searched rs (deps_known-IsIn (ids rs) rs y)))
]

-- The steps of a plan that is let through.
abbrev pub Accepted : Fields → Type 0
Accepted plan =
    (items : Items) × (rs : List StepRef) × (as_arr (get "steps" plan) ≡ some items)
    × (step_refs [] items ≡ refs rs)
    × Nodup (ids rs)
    × Order rs

abbrev pub Judged : Fields → Option BodyError → Type 0
Judged plan r = (r ≢ some out_of_fuel) × (r ≡ none → Accepted plan)

some_inj : {a b : BodyError} → some a ≡ some b → a ≡ b
some_inj e = cc

judge_refs :
    (plan : Fields) (items : Items) (r : Refs)
    → as_arr (get "steps" plan) ≡ some items
    → step_refs [] items ≡ r
    → Judged plan (refs_error r)
unfolding refs_error
judge_refs plan items (bad e) a s =
    ((λ h. step_refs-ends [] items (s ∙ ap bad (some_inj h))), (λ h. cc))
judge_refs plan items (refs rs) a s =
    let (ends, ordered) = check_refs-Order rs in
    (ends, (λ ok. (items, rs, a, s, (step_refs-FreshIds [] items rs s).0, ordered ok)))

pub validate_plan-Judged : (plan : Fields) → Judged plan (validate_plan plan)
unfolding validate_plan
validate_plan-Judged plan =
    if-lift (Judged plan) (not (has_fields plan plan_required)) (some missing_field) _
      (λ _. ((λ e. cc), (λ e. cc)))
      (λ _.
        if-lift (Judged plan) (not (is_v1 (as_str (get "schema_version" plan))))
          (some bad_schema_version) _ (λ _. ((λ e. cc), (λ e. cc)))
          (λ _. by_steps (as_arr (get "steps" plan)) refl))
  where
    by_steps :
        (o : Option Items)
        → as_arr (get "steps" plan) ≡ o
        → Judged plan (elim o [
          | none ↦ some steps_not_array
          | some nil ↦ some no_steps
          | some (cons x xs) ↦ refs_error (step_refs [] (cons x xs))
        ])
    by_steps none e = ((λ h. cc), (λ h. cc))
    by_steps (some nil) e = ((λ h. cc), (λ h. cc))
    by_steps (some (cons x xs)) e = judge_refs plan (cons x xs) (step_refs [] (cons x xs)) e refl

-- A body that the gate lets through is an object whose steps have different ids and can be ordered:
-- every step is in the order after all its dependencies, so that there is no cycle. And the search
-- for cycles never runs out of fuel, whatever the body.
pub validate_plan_body_accepts :
    (body : Body)
    → (validate_plan_body body ≢ some out_of_fuel)
      × (validate_plan_body body ≡ none
          → (plan : Fields) × (body ≡ decoded (some (obj plan))) × Accepted plan)
unfolding validate_plan_body validate_plan
validate_plan_body_accepts no_bytes = ((λ e. cc), (λ e. cc))
validate_plan_body_accepts (decoded none) = ((λ e. cc), (λ e. cc))
validate_plan_body_accepts (decoded (some (obj plan))) =
    let (ends, accepted) = validate_plan-Judged plan in (ends, (λ h. (plan, refl, accepted h)))
validate_plan_body_accepts (decoded (some null)) = ((λ e. cc), (λ e. cc))
validate_plan_body_accepts (decoded (some (bool b))) = ((λ e. cc), (λ e. cc))
validate_plan_body_accepts (decoded (some (num n))) = ((λ e. cc), (λ e. cc))
validate_plan_body_accepts (decoded (some (str s))) = ((λ e. cc), (λ e. cc))
validate_plan_body_accepts (decoded (some (arr xs))) = ((λ e. cc), (λ e. cc))
