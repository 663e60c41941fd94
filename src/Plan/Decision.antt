-- ===== src/Plan/Decision.antt =====
-- The sort decides whether a plan can be ordered: a result is an order of the whole plan that
-- respects its dependencies, and a plan with distinct stable ids and no cycle has a result.
use mathlib.Core.List.{Memᴰ, Nodup, Perm}
use mathlib.Core.List.Perm
use mathlib.Core.List.Memᴰ
use native.Mathlib.Nat.{le_refl}
use mathlib.Core.Logic.{∥∥₁_map}
use forge_engine.Prelude.{
  ℕ, zero, suc, ◌+◌, ◌≤◌, ◌<◌, ◌≡◌, refl, ap, String, Bool, true, false, List, [], ◌∷◌, map, Option,
  arith, length, All, if◌then◌else◌, ltb, ltb→le, Nodup-perm, append-nil, ◌∙◌, length-map,
}
use forge_engine.Json.{Json, Fields}
use forge_engine.Plan.Steps.{stable_id-annotate}
use forge_engine.Plan.Order.{
  InOrder, seen_after-perm, FromPlan, from, IsSorting, pass-IsSorting, start-IsSorting,
  reset-IsSorting, pass_progress,
}
use forge_engine.Plan.{
  IdTable, id_table, stable_id, Sort, pass, rounds, start, Resolved, ok, err, dependency_cycle,
  plan_steps, resolve_ordered_steps,
}

-- What a result of the sort promises.
pub record Orders (plan ordered : List Fields) : Type 0 where
  pub whole : Perm (map stable_id ordered) (map stable_id plan)
  pub distinct : Nodup (map stable_id plan)
  pub in_order : InOrder [] ordered
  pub from_plan : All (FromPlan (id_table plan) plan) ordered

abbrev pub Outcome : List Fields → Resolved → Type 0
Outcome plan (ok ordered) = Orders plan ordered
Outcome plan (err e) = e ≡ dependency_cycle

from_plan-Memᴰ :
    (ids : IdTable) (plan ordered : List Fields) (x : String)
    → All (FromPlan ids plan) ordered
    → Memᴰ x (map stable_id ordered)
    → Memᴰ x (map stable_id plan)
from_plan-Memᴰ ids plan [] x f m = elim m [ ]
from_plan-Memᴰ ids plan (o ∷ ordered) x f (Memᴰ.head e) = elim f.0 [
  | from step m p ↦
      Memᴰ.cast (e ∙ ap stable_id p ∙ stable_id-annotate ids step) (Memᴰ.map stable_id m)
]
from_plan-Memᴰ ids plan (o ∷ ordered) x f (Memᴰ.tail m) = from_plan-Memᴰ ids plan ordered x f.1 m

branch-Outcome :
    (plan : List Fields) (more moved : Bool) (ordered : List Fields) (rest : Resolved)
    → (more ≡ true → moved ≡ true → Outcome plan rest)
    → (more ≡ false → Orders plan ordered)
    → Outcome plan (if more then if moved then rest else err dependency_cycle else ok ordered)
branch-Outcome plan true true ordered rest go stop = go refl refl
branch-Outcome plan true false ordered rest go stop = refl
branch-Outcome plan false moved ordered rest go stop = stop refl

module _ (plan : List Fields) where
  -- When the loop ends by its test, everything is ordered.
  finished-Orders :
      (s : Sort)
      → IsSorting (id_table plan) plan s
      → length plan ≤ length s.ordered
      → Orders plan s.ordered
  finished-Orders s i h = record {
    whole = whole_plan;
    distinct = Perm.nodup whole_plan distinct_ids;
    in_order = i.in_order;
    from_plan = i.from_plan;
  }
    where
      distinct_ids : Nodup (map stable_id s.ordered)
      distinct_ids =
          Perm.nodup
            (rw (i.tracked, ← append-nil (map stable_id s.ordered)) (seen_after-perm [] s.ordered))
            i.distinct

      whole_plan : Perm (map stable_id s.ordered) (map stable_id plan)
      whole_plan =
          Nodup-perm (map stable_id s.ordered) (map stable_id plan) distinct_ids
            (λ x m. ∥∥₁_map m (from_plan-Memᴰ (id_table plan) plan s.ordered x i.from_plan))
            (omega (arith, h, length-map s.ordered stable_id, length-map plan stable_id))

  rounds-Outcome :
      (fuel : ℕ) (s : Sort)
      → IsSorting (id_table plan) plan s
      → length plan < fuel + length s.ordered
      → Outcome plan (rounds fuel (id_table plan) plan s)
  unfolding rounds
  rounds-Outcome zero s i h = absurd (omega (arith, i.counted))
  rounds-Outcome (suc fuel) s i h =
      branch-Outcome plan (ltb (length s.ordered) (length plan)) s'.progress s.ordered _
        (λ more moved.
          rounds-Outcome fuel s' (pass-IsSorting (id_table plan) plan plan s₀ (λ t m. m) i₀) (
            omega (
              arith,
              h,
              pass_progress (id_table plan) plan s₀ (length s.ordered) (λ e. cc) (le_refl _) moved,
            )))
        (λ over. finished-Orders s i (ltb→le _ _ over))
    where
      s₀ : Sort
      s₀ = record s { progress = false }

      i₀ : IsSorting (id_table plan) plan s₀
      i₀ = reset-IsSorting (id_table plan) plan s i

      s' : Sort
      s' = pass (id_table plan) plan s₀

-- Whatever the body, a plan with steps is either ordered whole or refused for a cycle: the fuel
-- never runs out. A result is a permutation of the plan, each step annotated with its resolved
-- dependencies and standing after them, and then the plan's stable ids are distinct.
pub resolve-Outcome :
    (body : Option Json) (plan : List Fields)
    → plan_steps body ≡ ok plan
    → Outcome plan (resolve_ordered_steps body)
unfolding resolve_ordered_steps
resolve-Outcome body plan e =
    rw (e, resolve_ordered_steps)
      (rounds-Outcome plan (suc (length plan)) start (start-IsSorting (id_table plan) plan)
        (omega arith))

-- A plan in which two steps share a stable id is never ordered: it is refused as if it had a cycle,
-- also where no step depends on another.
pub resolve_repeated :
    (body : Option Json) (plan : List Fields)
    → plan_steps body ≡ ok plan
    → ¬ Nodup (map stable_id plan)
    → resolve_ordered_steps body ≡ err dependency_cycle
resolve_repeated body plan e twice =
    refused (resolve_ordered_steps body) (resolve-Outcome body plan e)
  where
    refused : (r : Resolved) → Outcome plan r → r ≡ err dependency_cycle
    refused (ok ordered) o = absurd (twice o.distinct)
    refused (err x) o = ap err o
