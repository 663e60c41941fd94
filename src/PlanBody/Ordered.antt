-- ===== src/PlanBody/Ordered.antt =====
-- The gate before a plan is stored (handlers/task_handlers.go) and the order in which it is run
-- (execution/orchestrator.go), put together.
use mathlib.Core.List.{Memᴰ, Nodup, Nodup-cons}
use native.Mathlib.Omega.{arith}
use forge_engine.Prelude.{
  ℕ, suc, ◌≤◌, ◌<◌, ◌≡◌, refl, sym, ◌∙◌, ap, subst, String, true, List, [], ◌∷◌, map, Option, none,
  some, length, All, All-map, contains, contains_head, contains_tail, contains_cons_inv,
  contains→mem, Bool-cases, inl, inr, if◌then◌else◌, ◌==◌, ==_self, ==→≡,
}
use forge_engine.Json.{Json, Items, obj, Fields, get, as_arr, objects, extract_string_slice}
use forge_engine.Plan.{
  stable_id, depends_on, id_table, resolved_deps, ok, plan_steps, resolve_ordered_steps,
}
use forge_engine.Plan.Table.{id_of, Named, id_table-IsTable, resolved_deps-Named}
use forge_engine.Plan.Acyclic.{Falls, IsOrdered, resolve_complete}
use forge_engine.PlanBody.{StepRef, ids, deps_of, decoded, validate_plan_body}
use forge_engine.PlanBody.Depth.{IsSettled, IsIn}
use forge_engine.PlanBody.References.{ref_of, step_refs-map}
use forge_engine.PlanBody.Gate.{validate_plan-Judged}

-- How many ids were black when an id became black for the first time.
low : List String → String → ℕ
low [] x = 0
low (y ∷ ys) x = if contains ys x then low ys x else suc (length ys)

low_tail : (y x : String) (ys : List String) → contains ys x ≡ true → low (y ∷ ys) x ≡ low ys x
unfolding low
low_tail y x ys h = rw h refl

low_le : (ys : List String) (x : String) → contains ys x ≡ true → low ys x ≤ length ys
unfolding low contains
low_le [] x h = cc
low_le (y ∷ ys) x h = elim (Bool-cases (contains ys x)) [
  | inl t ↦ let l = low_le ys x t in rw t (omega (arith, l))
  | inr n ↦ rw n (omega arith)
]

low_falls :
    (rs : List StepRef) (black : List String) (id d : String)
    → IsSettled rs black
    → contains black id ≡ true
    → contains (deps_of rs id) d ≡ true
    → (contains black d ≡ true) × (low black d < low black id)
unfolding low contains
low_falls rs [] id d s m c = cc
low_falls rs (y ∷ ys) id d (here, s) m c = elim (Bool-cases (contains ys id)) [
  | inl t ↦
      let (k, l) = low_falls rs ys id d s t c in
      (contains_tail y d ys k, rw (low_tail y d ys k, low_tail y id ys t) l)
  | inr n ↦ elim (contains_cons_inv y id ys m) [
    | inr t ↦ absurd (cc (t, n))
    | inl e ↦
        let k = here d (subst (λ x. contains (deps_of rs x) d ≡ true) (sym e) c) in
        let l = low_le ys d k in (contains_tail y d ys k, rw (k, n) (omega (arith, l)))
  ]
]

All-from :
    (P : Fields → Type 0) (steps : List Fields)
    → ((step : Fields) → Memᴰ step steps → P step)
    → All P steps
All-from P [] f = tt
All-from P (step ∷ steps) f = (f step (Memᴰ.head refl), All-from P steps (λ u m. f u (Memᴰ.tail m)))

module _ {B : Type 0} (key : Fields → String) (value : Fields → B) (default : B) where
  -- The value of the first step with a key.
  find_by : List Fields → String → B
  find_by [] k = default
  find_by (step ∷ steps) k = if key step == k then value step else find_by steps k

  contains-key :
      (steps : List Fields) (step : Fields)
      → Memᴰ step steps
      → contains (map key steps) (key step) ≡ true
  contains-key [] step m = elim m [ ]
  contains-key (x ∷ steps) step (Memᴰ.head e) =
      subst (λ u. contains (key x ∷ map key steps) (key u) ≡ true) (sym e)
        (contains_head (key x) (map key steps))
  contains-key (x ∷ steps) step (Memᴰ.tail m) =
      contains_tail (key x) (key step) (map key steps) (contains-key steps step m)

  find_by_member :
      (steps : List Fields) (step : Fields)
      → Nodup (map key steps)
      → Memᴰ step steps
      → find_by steps (key step) ≡ value step
  unfolding find_by
  find_by_member [] step n m = elim m [ ]
  find_by_member (x ∷ steps) step n (Memᴰ.head e) =
      subst (λ u. find_by (x ∷ steps) (key u) ≡ value u) (sym e) (rw (==_self (key x)) refl)
  find_by_member (x ∷ steps) step n (Memᴰ.tail m) =
      let (fresh, rest) = Nodup-cons.0 n in
      elim (Bool-cases (key x == key step)) [
        | inl e ↦ absurd (
            fresh (
              contains→mem (key x) (map key steps) (
                subst (λ k. contains (map key steps) k ≡ true) (sym (==→≡ (key x) (key step) e))
                  (contains-key steps step m))))
        | inr d ↦ rw d (find_by_member steps step rest m)
      ]

ids-map : (steps : List Fields) → ids (map ref_of steps) ≡ map id_of steps
ids-map [] = refl
ids-map (step ∷ steps) = ap (◌∷◌ (id_of step)) (ids-map steps)

deps_of-map :
    (steps : List Fields) (id : String)
    → deps_of (map ref_of steps) id ≡ find_by id_of depends_on [] steps id
unfolding deps_of depends_on find_by
deps_of-map [] id = refl
deps_of-map (step ∷ steps) id =
    ap (λ ds. if id_of step == id then extract_string_slice (get "depends_on" step) else ds)
      (deps_of-map steps id)

module _ (steps : List Fields) (black : List String) (distinct_ids : Nodup (map id_of steps))
    (distinct : Nodup (map stable_id steps)) (settled : IsSettled (map ref_of steps) black)
    (all : IsIn (map id_of steps) black) where
  rank : String → ℕ
  rank = find_by stable_id (λ step. low black (id_of step)) 0 steps

  rank_member : (step : Fields) → Memᴰ step steps → rank (stable_id step) ≡ low black (id_of step)
  unfolding rank
  rank_member step m =
      find_by_member stable_id (λ step. low black (id_of step)) 0 steps step distinct m

  deps_of_member :
      (step : Fields) → Memᴰ step steps → deps_of (map ref_of steps) (id_of step) ≡ depends_on step
  deps_of_member step m =
      deps_of-map steps (id_of step) ∙ find_by_member id_of depends_on [] steps step distinct_ids m

  Named-falls :
      (step : Fields) (d : String)
      → Memᴰ step steps
      → Named steps (depends_on step) d
      → rank d < rank (stable_id step)
  Named-falls step d m (t, mt, s, c) =
      let known = all (id_of step) (contains-key id_of depends_on [] steps step m) in
      let dep = subst (λ ds. contains ds (id_of t) ≡ true) (sym (deps_of_member step m)) c in
      let (_, l) = low_falls (map ref_of steps) black (id_of step) (id_of t) settled known dep in
      subst (λ x. rank x < rank (stable_id step)) s (rw (rank_member t mt, rank_member step m) l)

  rank-Falls : Falls rank steps
  rank-Falls = All-from _ steps (λ step m.
      All-map (Named steps (depends_on step)) (λ d. rank d < rank (stable_id step))
        (resolved_deps (id_table steps) (depends_on step)) (λ d n. Named-falls step d m n)
        (resolved_deps-Named steps (id_table steps) (depends_on step) (id_table-IsTable steps)))

  sorted_complete :
      (body : Option Json) → plan_steps body ≡ ok steps → IsOrdered (resolve_ordered_steps body)
  sorted_complete body e = resolve_complete body steps rank e rank-Falls distinct

ok_inj : {a b : List Fields} → ok a ≡ ok b → a ≡ b
ok_inj e = cc

plan_steps-objects :
    (plan : Fields) (items : Items) (steps : List Fields)
    → as_arr (get "steps" plan) ≡ some items
    → plan_steps (some (obj plan)) ≡ ok steps
    → steps ≡ objects items
unfolding plan_steps
plan_steps-objects plan items steps a h = ok_inj (sym h ∙ rw (a, plan_steps) refl)

-- A plan that passes the gate and whose stable ids are distinct is always ordered for execution: the
-- execution does not refuse it for a cycle.
pub resolve_ordered_steps-IsOrdered :
    (plan : Fields) (steps : List Fields)
    → validate_plan_body (decoded (some (obj plan))) ≡ none
    → plan_steps (some (obj plan)) ≡ ok steps
    → Nodup (map stable_id steps)
    → IsOrdered (resolve_ordered_steps (some (obj plan)))
unfolding validate_plan_body
resolve_ordered_steps-IsOrdered plan steps v e distinct =
    let (items, rs, a, r, ids_distinct, (black, settled, all)) = (validate_plan-Judged plan).1 v in
    let same =
      step_refs-map [] items rs r
      ∙ ap (map ref_of) (sym (plan_steps-objects plan items steps a e)) in
    let same_ids = ap ids same ∙ ids-map steps in
    sorted_complete steps black (subst Nodup same_ids ids_distinct) distinct
      (subst (λ x. IsSettled x black) same settled) (subst (λ x. IsIn x black) same_ids all)
      (some (obj plan)) e
