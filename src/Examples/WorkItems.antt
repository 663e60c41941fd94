-- ===== src/Examples/WorkItems.antt =====
-- The life of one work item, and the theorems on its gate.
use mathlib.Core.List.{Memᴰ}
use forge_engine.Prelude.{◌≡◌, refl, ◌⊎◌, Bool, true, false, none, List, [], ◌∷◌}
use forge_engine.WorkItem.{
  Status, planning, done, cancelled, Approval, approved, WorkItem, Op, create, apply, run,
  starts_planning, marks_plan_ready, approves, to_executing, to_repairing, to_done,
}
use forge_engine.WorkItem.Gate.{run-create_gated, run-create_opens}
use forge_engine.WorkItem.Graph.{◌⟶◌, apply-⟶}

abbrev fresh : WorkItem
fresh = record {
  org_id = "acme";
  intent = "fix it";
  status = Status.draft;
  approval_status = Approval.pending_review;
  error = none;
}

abbrev life : List (Bool × Op)
life =
    (true, starts_planning)
    ∷ (true, marks_plan_ready)
    ∷ (false, approves "acme")
    ∷ (true, approves "other")
    ∷ (true, approves "acme")
    ∷ (true, to_executing)
    ∷ (true, to_repairing)
    ∷ (true, to_done)
    ∷ []

life_runs : (run (create "acme" "fix it") life).status ≡ done
unfolding run create
life_runs = refl

run-create_gated_example : (run (create "acme" "fix it") life).approval_status ≡ approved
unfolding run create
run-create_gated_example = run-create_gated "acme" "fix it" life refl

run-create_opens_example : Memᴰ (true, approves "acme") life
unfolding run create
run-create_opens_example = run-create_opens "acme" "fix it" life refl

apply-⟶_example : (planning ≡ Status.draft) ⊎ (Status.draft ⟶ planning)
unfolding apply
apply-⟶_example = apply-⟶ true starts_planning fresh (λ e. cc)

abbrev stopped : WorkItem
stopped = record fresh { status = cancelled }
