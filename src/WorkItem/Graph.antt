-- ===== src/WorkItem/Graph.antt =====
-- The state machine of a work item as a diagram, and what the methods do on it.
use forge_engine.Prelude.{◌≡◌, refl, ◌⊎◌, Bool, arith, ◌≢◌}
use forge_engine.WorkItem.{
  Status, draft, planning, planning_failed, plan_ready, plan_approved, executing, repairing, done,
  failed, cancelled, publishing, WorkItem, Op, apply, resets_after_edit, starts_planning,
  marks_plan_ready, marks_planning_failed, approves, replans, cancels, to_executing, to_repairing,
  to_done, to_publishing, to_failed,
}

infix 40 ◌⟶◌
-- The transitions that the statements are meant to make.
pub data ◌⟶◌ : Status → Status → Type 0 where
  plan : draft ⟶ planning
  plan_made : planning ⟶ plan_ready
  plan_lost : planning ⟶ planning_failed
  replan : plan_ready ⟶ planning
  retry_plan : planning_failed ⟶ planning
  approval : plan_ready ⟶ plan_approved
  execute : plan_approved ⟶ executing
  repair : executing ⟶ repairing
  validated : executing ⟶ done
  repaired : repairing ⟶ done
  broken : executing ⟶ failed
  unrepaired : repairing ⟶ failed
  publish : done ⟶ publishing
  cancel_draft : draft ⟶ cancelled
  cancel_planning : planning ⟶ cancelled
  cancel_unplanned : planning_failed ⟶ cancelled
  cancel_ready : plan_ready ⟶ cancelled
  cancel_approved : plan_approved ⟶ cancelled
  cancel_executing : executing ⟶ cancelled
  cancel_repairing : repairing ⟶ cancelled
  cancel_publishing : publishing ⟶ cancelled

ruleset edges = (
  plan, plan_made, plan_lost, replan, retry_plan, approval, execute, repair, validated, repaired,
  broken, unrepaired, publish, cancel_draft, cancel_planning, cancel_unplanned, cancel_ready,
  cancel_approved, cancel_executing, cancel_repairing, cancel_publishing,
)

-- Every method but the reset after an edit leaves the status or follows one edge.
pub apply-⟶ :
    (db : Bool) (op : Op) (item : WorkItem)
    → op ≢ resets_after_edit
    → ((apply db op item).0.status ≡ item.status) ⊎ (item.status ⟶ (apply db op item).0.status)
unfolding apply
apply-⟶ db resets_after_edit item h = absurd (h refl)
apply-⟶ db starts_planning item h = grind (arith, edges)
apply-⟶ db marks_plan_ready item h = grind (arith, edges)
apply-⟶ db to_executing item h = grind (arith, edges)
apply-⟶ db to_repairing item h = grind (arith, edges)
apply-⟶ db to_done item h = grind (arith, edges)
apply-⟶ db to_publishing item h = grind (arith, edges)
apply-⟶ db (marks_planning_failed e) item h = grind (arith, edges)
apply-⟶ db (to_failed e) item h = grind (arith, edges)
apply-⟶ db (approves org) item h = grind (arith, edges)
apply-⟶ db (replans org) item h = grind (arith, edges)
apply-⟶ db (cancels org) item h = grind (arith, edges)
