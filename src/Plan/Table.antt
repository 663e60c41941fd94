-- ===== src/Plan/Table.antt =====
-- `idToStableID` of resolveOrderedSteps: where its entries and the resolved dependencies come from.
use mathlib.Core.List.{Memᴰ}
use forge_engine.Prelude.{
  ◌≡◌, refl, sym, ◌∙◌, subst, String, true, List, [], ◌∷◌, some, arith, All, All-map, contains,
  contains_head, contains_tail, Bool-cases, Option-cases, inl, inr, lookup, ◌==◌, ==→≡,
}
use forge_engine.Json.{Fields, get, as_str, str_or_empty}
use forge_engine.Plan.{IdTable, id_table, add_id, add_ids, stable_id, resolved_deps}

-- The id of a step; empty where it has none.
abbrev pub id_of : Fields → String
id_of step = str_or_empty (get "id" step)

-- An id and a stable id of the same step.
abbrev pub Entry : List Fields → String → String → Type 0
Entry plan id sid = (step : Fields) × Memᴰ step plan × (stable_id step ≡ sid) × (id_of step ≡ id)

abbrev pub IsTable : List Fields → IdTable → Type 0
IsTable plan ids = All (λ (e : String × String). Entry plan e.0 e.1) ids

add_id-IsTable :
    (plan : List Fields) (ids : IdTable) (step : Fields)
    → Memᴰ step plan
    → IsTable plan ids
    → IsTable plan (add_id ids step)
unfolding add_id stable_id str_or_empty
add_id-IsTable plan ids step m t = elim (Option-cases (as_str (get "id" step))) [
  | inl e ↦ rw (e, add_id) t
  | inr (id, e) ↦ elim (Option-cases (as_str (get "stable_id" step))) [
    | inl f ↦ rw (e, f, add_id) t
    | inr (sid, f) ↦ rw (e, f, add_id) ((step, m, rw (f, str_or_empty), rw (e, str_or_empty)), t)
  ]
]

add_ids-IsTable :
    (plan : List Fields) (ids : IdTable) (steps : List Fields)
    → ((step : Fields) → Memᴰ step steps → Memᴰ step plan)
    → IsTable plan ids
    → IsTable plan (add_ids ids steps)
unfolding add_ids
add_ids-IsTable plan ids [] sub t = t
add_ids-IsTable plan ids (step ∷ steps) sub t =
    add_ids-IsTable plan (add_id ids step) steps (λ u m. sub u (Memᴰ.tail m))
      (add_id-IsTable plan ids step (sub step (Memᴰ.head refl)) t)

pub id_table-IsTable : (plan : List Fields) → IsTable plan (id_table plan)
unfolding id_table
id_table-IsTable plan = add_ids-IsTable plan [] plan (λ u m. m) tt

lookup-Entry :
    (plan : List Fields) (ids : IdTable) (id sid : String)
    → IsTable plan ids
    → lookup id ids ≡ some sid
    → Entry plan id sid
unfolding lookup
lookup-Entry plan [] id sid t h = cc
lookup-Entry plan ((j, v) ∷ ids) id sid t h = elim (Bool-cases (j == id)) [
  | inl e ↦ (t.0.0, t.0.1, ground arith, t.0.3 ∙ ==→≡ j id e)
  | inr e ↦ lookup-Entry plan ids id sid t.1 (ground arith)
]

-- A stable id of a step whose id is among the dependencies.
abbrev pub Named : List Fields → List String → String → Type 0
Named plan deps sid =
    (step : Fields) × Memᴰ step plan × (stable_id step ≡ sid) × (contains deps (id_of step) ≡ true)

-- Each resolved dependency is the stable id of a step that the dependencies name.
pub resolved_deps-Named :
    (plan : List Fields) (ids : IdTable) (deps : List String)
    → IsTable plan ids
    → All (Named plan deps) (resolved_deps ids deps)
unfolding resolved_deps
resolved_deps-Named plan ids [] t = tt
resolved_deps-Named plan ids (id ∷ deps) t =
    let rest =
      All-map (Named plan deps) (Named plan (id ∷ deps)) (resolved_deps ids deps)
        (λ sid (step, m, s, c). (step, m, s, contains_tail id (id_of step) deps c))
        (resolved_deps-Named plan ids deps t) in
    elim (Option-cases (lookup id ids)) [
      | inl e ↦ rw (e, resolved_deps) rest
      | inr (sid, e) ↦ rw (e, resolved_deps) (here sid (lookup-Entry plan ids id sid t e), rest)
    ]
  where
    here : (sid : String) → Entry plan id sid → Named plan (id ∷ deps) sid
    here sid (step, m, s, i) =
        (step, m, s, subst (λ x. contains (id ∷ deps) x ≡ true) (sym i) (contains_head id deps))
