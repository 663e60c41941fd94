-- ===== src/Plan/Acyclic.antt =====
-- The other half of the decision: a plan with distinct stable ids whose dependencies have no cycle
-- is always ordered. That there is no cycle is stated by a rank that falls along dependencies.
use mathlib.Core.List.{Mem, Mem-prop, Memᴰ, Nodup, Subset}
use mathlib.Core.List.Memᴰ
use native.Mathlib.Nat.{le_refl}
use mathlib.Core.Logic.{∥∥₁_elim}
use forge_engine.Prelude.{
  ℕ, zero, suc, ◌+◌, ◌≤◌, ◌<◌, ◌≡◌, refl, sym, subst, ap, All-Memᴰ, ◌⊎◌, String, Bool, true, false,
  List, [], ◌∷◌, map, Option, arith, length, All, if◌then◌else◌, contains, ltb, ltb→lt, Bool-cases,
  inl, inr, Nodup-length_le, length-map, contains→mem,
}
use forge_engine.Json.{Json, Fields}
use forge_engine.Plan.Steps.{AllDone, AllDone→deps_ready}
use forge_engine.Plan.Table.{Named, id_table-IsTable, resolved_deps-Named}
use forge_engine.Plan.Order.{
  seen_after, IsSorting, pass-IsSorting, start-IsSorting, reset-IsSorting, pass_progress,
}
use forge_engine.Plan.{
  IdTable, id_table, stable_id, depends_on, deps_ready, resolved_deps, Sort, visit, pass, rounds,
  start, Resolved, ok, err, dependency_cycle, plan_steps, resolve_ordered_steps,
}

-- Every dependency has a smaller rank than the step that waits for it.
abbrev pub Falls : (String → ℕ) → List Fields → Type 0
Falls rank plan =
    All
      (λ (step : Fields).
        All (λ (d : String). rank d < rank (stable_id step))
          (resolved_deps (id_table plan) (depends_on step)))
      plan

-- A step that a round passed by.
abbrev IsStuck : IdTable → List String → Fields → Type 0
IsStuck ids done step =
    (contains done (stable_id step) ≡ true) ⊎ (deps_ready ids done (depends_on step) ≡ false)

module _ (ids : IdTable) where
  visit-IsStuck :
      (step : Fields) (s : Sort)
      → (visit ids step s).progress ≡ false
      → (visit ids step s ≡ s) × IsStuck ids s.done step
  unfolding visit
  visit-IsStuck step s h = elim (Bool-cases (contains s.done (stable_id step))) [
    | inl seen ↦ (rw seen, inl seen)
    | inr new ↦ elim (Bool-cases (deps_ready ids s.done (depends_on step))) [
      | inl ready ↦ absurd (ground arith)
      | inr blocked ↦ (rw (new, blocked), inr blocked)
    ]
  ]

  visit_keeps_progress :
      (step : Fields) (s : Sort) → s.progress ≡ true → (visit ids step s).progress ≡ true
  unfolding visit
  visit_keeps_progress step s h = ground arith

  pass_keeps_progress :
      (steps : List Fields) (s : Sort) → s.progress ≡ true → (pass ids steps s).progress ≡ true
  unfolding pass
  pass_keeps_progress [] s h = h
  pass_keeps_progress (step ∷ steps) s h =
      pass_keeps_progress steps (visit ids step s) (visit_keeps_progress step s h)

  pass-IsStuck :
      (steps : List Fields) (s : Sort)
      → (pass ids steps s).progress ≡ false
      → All (IsStuck ids s.done) steps
  unfolding pass
  pass-IsStuck [] s h = tt
  pass-IsStuck (step ∷ steps) s h = elim (Bool-cases (visit ids step s).progress) [
    | inl moved ↦ absurd (cc (h, pass_keeps_progress steps (visit ids step s) moved))
    | inr still ↦
        let (same, stuck) = visit-IsStuck step s still in
        (
          stuck,
          subst (λ u. All (IsStuck ids u.done) steps) same
              (pass-IsStuck steps (visit ids step s) h),
        )
  ]

module _ (plan : List Fields) (rank : String → ℕ) (falls : Falls rank plan) (done : List String)
    (stuck : All (IsStuck (id_table plan) done) plan) where
  deps-done :
      (n r : ℕ) (ids deps : List String)
      → ((step : Fields)
          → Memᴰ step plan
          → rank (stable_id step) < n
          → contains done (stable_id step) ≡ true)
      → r ≤ n
      → All (λ (d : String). rank d < r) deps
      → All (Named plan ids) deps
      → AllDone done deps
  deps-done n r ids [] ih h f k = tt
  deps-done n r ids (d ∷ deps) ih h f ((step, m, e, _), k) = (
    subst (λ x. contains done x ≡ true) e
        (ih step m (subst (λ x. rank x < n) (sym e) (omega (arith, f.0, h)))),
    deps-done n r ids deps ih h f.1 k,
  )

  -- Where a round moves nothing, every step is done already: by induction on the rank.
  stuck-done :
      (n : ℕ) (step : Fields)
      → Memᴰ step plan
      → rank (stable_id step) < n
      → contains done (stable_id step) ≡ true
  stuck-done zero step m h = absurd (omega arith)
  stuck-done (suc n) step m h = elim (All-Memᴰ (IsStuck (id_table plan) done) plan step stuck m) [
    | inl seen ↦ seen
    | inr blocked ↦ absurd (
        cc (
          blocked,
          AllDone→deps_ready (id_table plan) done (depends_on step) (
              deps-done n (rank (stable_id step)) (depends_on step)
                (resolved_deps (id_table plan) (depends_on step)) (stuck-done n) (omega arith)
                (All-Memᴰ _ plan step falls m)
                (resolved_deps-Named plan (id_table plan) (depends_on step)
                  (id_table-IsTable plan))),
        ))
  ]

  stuck-subset : Subset (map stable_id plan) done
  stuck-subset x m = ∥∥₁_elim m Mem-prop (λ d.
      let (step, n, e) = Memᴰ.of_map stable_id plan d in
      subst (λ y. Mem y done) e
        (contains→mem (stable_id step) done
          (stuck-done (suc (rank (stable_id step))) step n (omega arith))))

length-seen_after :
    (seen : List String) (steps : List Fields)
    → length (seen_after seen steps) ≡ length seen + length steps
length-seen_after seen [] = omega arith
length-seen_after seen (step ∷ steps) =
    omega (arith, length-seen_after (stable_id step ∷ seen) steps)

abbrev pub IsOrdered : Resolved → Type 0
IsOrdered r = (ordered : List Fields) × (r ≡ ok ordered)

branch-IsOrdered :
    (more moved : Bool) (ordered : List Fields) (rest : Resolved)
    → (more ≡ true → moved ≡ true → IsOrdered rest)
    → (more ≡ true → moved ≡ false → ⊥)
    → IsOrdered (if more then if moved then rest else err dependency_cycle else ok ordered)
branch-IsOrdered true true ordered rest go stuck = go refl refl
branch-IsOrdered true false ordered rest go stuck = absurd (stuck refl refl)
branch-IsOrdered false moved ordered rest go stuck = (ordered, refl)

module _ (plan : List Fields) (rank : String → ℕ) (falls : Falls rank plan)
    (distinct : Nodup (map stable_id plan)) where
  rounds-IsOrdered :
      (fuel : ℕ) (s : Sort)
      → IsSorting (id_table plan) plan s
      → length plan < fuel + length s.ordered
      → IsOrdered (rounds fuel (id_table plan) plan s)
  unfolding rounds
  rounds-IsOrdered zero s i h = absurd (omega (arith, i.counted))
  rounds-IsOrdered (suc fuel) s i h =
      branch-IsOrdered (ltb (length s.ordered) (length plan)) s'.progress s.ordered _
        (λ more moved.
          rounds-IsOrdered fuel s' (pass-IsSorting (id_table plan) plan plan s₀ (λ t m. m) i₀) (
            omega (
              arith,
              h,
              pass_progress (id_table plan) plan s₀ (length s.ordered) (λ e. cc) (le_refl _) moved,
            )))
        (λ more still. omega (
          arith,
          ltb→lt _ _ more,
          Nodup-length_le (map stable_id plan) s.done distinct
              (stuck-subset plan rank falls s.done (pass-IsStuck (id_table plan) plan s₀ still)),
          length-map plan stable_id,
          ap length i.tracked,
          length-seen_after [] s.ordered,
        ))
    where
      s₀ : Sort
      s₀ = record s { progress = false }

      i₀ : IsSorting (id_table plan) plan s₀
      i₀ = reset-IsSorting (id_table plan) plan s i

      s' : Sort
      s' = pass (id_table plan) plan s₀

-- A plan whose stable ids are distinct and along whose resolved dependencies some rank falls, so
-- that it has no cycle, is ordered: no such plan is refused.
pub resolve_complete :
    (body : Option Json) (plan : List Fields) (rank : String → ℕ)
    → plan_steps body ≡ ok plan
    → Falls rank plan
    → Nodup (map stable_id plan)
    → IsOrdered (resolve_ordered_steps body)
unfolding resolve_ordered_steps
resolve_complete body plan rank e falls distinct =
    rw (e, resolve_ordered_steps)
      (rounds-IsOrdered plan rank falls distinct (suc (length plan)) start
        (start-IsSorting (id_table plan) plan) (omega arith))
