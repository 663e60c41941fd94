-- ===== src/WorkItem/Gate.antt =====
-- The approval gate of a work item, over every history of calls.
use mathlib.Core.List.{Memᴰ}
use forge_engine.Prelude.{
  ◌≡◌, refl, sym, subst, ◌⊎◌, inl, inr, ◌≢◌, Bool, true, false, String, some, List, [], ◌∷◌, arith,
  ==_self, ==→≡, All,
}
use forge_engine.WorkItem.{
  Status, plan_approved, executing, repairing, done, failed, cancelled, publishing, approved,
  WorkItem, Op, OpError, is_one_of, create, apply, run, resets_after_edit, starts_planning,
  marks_plan_ready, marks_planning_failed, approves, replans, cancels, to_executing, to_repairing,
  to_done, to_publishing, to_failed,
}

-- The statuses behind the gate.
abbrev pub is_past_gate : Status → Bool
is_past_gate = is_one_of (plan_approved ∷ executing ∷ repairing ∷ done ∷ failed ∷ publishing ∷ [])

abbrev IsGated : WorkItem → Type 0
IsGated item = is_past_gate item.status ≡ true → item.approval_status ≡ approved

apply-IsGated :
    (db : Bool) (op : Op) (item : WorkItem) → IsGated item → IsGated (apply db op item).0
unfolding apply
apply-IsGated db starts_planning item g = ground arith
apply-IsGated db marks_plan_ready item g = ground arith
apply-IsGated db resets_after_edit item g = ground arith
apply-IsGated db to_executing item g = ground arith
apply-IsGated db to_repairing item g = ground arith
apply-IsGated db to_done item g = ground arith
apply-IsGated db to_publishing item g = ground arith
apply-IsGated db (marks_planning_failed m) item g = ground arith
apply-IsGated db (to_failed m) item g = ground arith
apply-IsGated db (approves org) item g = ground arith
apply-IsGated db (replans org) item g = ground arith
apply-IsGated db (cancels org) item g = ground arith

run-IsGated : (item : WorkItem) (ops : List (Bool × Op)) → IsGated item → IsGated (run item ops)
unfolding run
run-IsGated item [] g = g
run-IsGated item ((db, op) ∷ ops) g =
    run-IsGated (apply db op item).0 ops (apply-IsGated db op item g)

-- After any history of calls on a new item, with any statements failing, a status behind the gate
-- (approved, executing, repairing, done, failed, publishing) comes with the approval `approved`.
pub run-create_gated :
    (org_id intent : String) (ops : List (Bool × Op))
    → is_past_gate (run (create org_id intent) ops).status ≡ true
    → (run (create org_id intent) ops).approval_status ≡ approved
unfolding create
run-create_gated org_id intent ops =
    run-IsGated (create org_id intent) ops (λ (e : false ≡ true). cc)

-- A call that reports an error leaves the row as it was.
pub apply_error_unchanged :
    (db : Bool) (op : Op) (item : WorkItem) (e : OpError)
    → (apply db op item).1 ≡ some e
    → (apply db op item).0 ≡ item
unfolding apply
apply_error_unchanged db starts_planning item e h = ground arith
apply_error_unchanged db marks_plan_ready item e h = ground arith
apply_error_unchanged db resets_after_edit item e h = ground arith
apply_error_unchanged db to_executing item e h = ground arith
apply_error_unchanged db to_repairing item e h = ground arith
apply_error_unchanged db to_done item e h = ground arith
apply_error_unchanged db to_publishing item e h = ground arith
apply_error_unchanged db (marks_planning_failed m) item e h = ground arith
apply_error_unchanged db (to_failed m) item e h = ground arith
apply_error_unchanged db (approves org) item e h = ground arith
apply_error_unchanged db (replans org) item e h = ground arith
apply_error_unchanged db (cancels org) item e h = ground arith

org_id-apply : (db : Bool) (op : Op) (item : WorkItem) → (apply db op item).0.org_id ≡ item.org_id
unfolding apply
org_id-apply db starts_planning item = ground arith
org_id-apply db marks_plan_ready item = ground arith
org_id-apply db resets_after_edit item = ground arith
org_id-apply db to_executing item = ground arith
org_id-apply db to_repairing item = ground arith
org_id-apply db to_done item = ground arith
org_id-apply db to_publishing item = ground arith
org_id-apply db (marks_planning_failed m) item = ground arith
org_id-apply db (to_failed m) item = ground arith
org_id-apply db (approves org) item = ground arith
org_id-apply db (replans org) item = ground arith
org_id-apply db (cancels org) item = ground arith

-- The gate opens only for an approval of the item's own organisation.
apply_opens :
    (db : Bool) (op : Op) (item : WorkItem)
    → is_past_gate item.status ≡ false
    → ((db ≡ true) × (op ≡ approves item.org_id))
      ⊎ (is_past_gate (apply db op item).0.status ≡ false)
unfolding apply
apply_opens db starts_planning item h = inr (ground arith)
apply_opens db marks_plan_ready item h = inr (ground arith)
apply_opens db resets_after_edit item h = inr (ground arith)
apply_opens db to_executing item h = inr (ground arith)
apply_opens db to_repairing item h = inr (ground arith)
apply_opens db to_done item h = inr (ground arith)
apply_opens db to_publishing item h = inr (ground arith)
apply_opens db (marks_planning_failed m) item h = inr (ground arith)
apply_opens db (to_failed m) item h = inr (ground arith)
apply_opens db (approves org) item h = ground (arith, ==→≡ item.org_id org)
apply_opens db (replans org) item h = inr (ground arith)
apply_opens db (cancels org) item h = inr (ground arith)

run_opens :
    (item : WorkItem) (ops : List (Bool × Op))
    → is_past_gate item.status ≡ false
    → is_past_gate (run item ops).status ≡ true
    → Memᴰ (true, approves item.org_id) ops
unfolding run
run_opens item [] h p = absurd (cc (h, p))
run_opens item ((db, op) ∷ ops) h p = elim (apply_opens db op item h) [
  | inl (d, o) ↦ Memᴰ.head (λ i. (sym d i, sym o i))
  | inr closed ↦ Memᴰ.tail (
      subst (λ org. Memᴰ (true, approves org) ops) (org_id-apply db op item)
        (run_opens (apply db op item).0 ops closed p))
]

-- A new item gets behind the gate only if its own organisation's approval is among the calls, in a
-- statement that ran.
pub run-create_opens :
    (org_id intent : String) (ops : List (Bool × Op))
    → is_past_gate (run (create org_id intent) ops).status ≡ true
    → Memᴰ (true, approves org_id) ops
unfolding create
run-create_opens org_id intent ops = run_opens (create org_id intent) ops refl

-- `failed` and `cancelled` absorb every call but the reset after an edit.
abbrev pub is_closed : Status → Bool
is_closed = is_one_of (failed ∷ cancelled ∷ [])

apply_closed :
    (db : Bool) (op : Op) (item : WorkItem)
    → op ≢ resets_after_edit
    → is_closed item.status ≡ true
    → (apply db op item).0 ≡ item
unfolding apply
apply_closed db resets_after_edit item n h = absurd (n refl)
apply_closed db starts_planning item n h = ground arith
apply_closed db marks_plan_ready item n h = ground arith
apply_closed db to_executing item n h = ground arith
apply_closed db to_repairing item n h = ground arith
apply_closed db to_done item n h = ground arith
apply_closed db to_publishing item n h = ground arith
apply_closed db (marks_planning_failed m) item n h = ground arith
apply_closed db (to_failed m) item n h = ground arith
apply_closed db (approves org) item n h = ground arith
apply_closed db (replans org) item n h = ground arith
apply_closed db (cancels org) item n h = ground arith

-- A failed or cancelled item is left as it is by every history without a reset after an edit.
pub run_closed :
    (item : WorkItem) (ops : List (Bool × Op))
    → is_closed item.status ≡ true
    → All (λ (c : Bool × Op). c.1 ≢ resets_after_edit) ops
    → run item ops ≡ item
unfolding run
run_closed item [] h n = refl
run_closed item ((db, op) ∷ ops) h n =
    let same : (apply db op item).0 ≡ item = apply_closed db op item n.0 h in
    subst (λ u. run u ops ≡ item) (sym same) (run_closed item ops h n.1)

-- The reset after an edit has no condition on the status: from every status, the closed ones
-- included, it lets the item be approved and executed again.
pub reset_reopens :
    (item : WorkItem)
    → (run item (
        (true, resets_after_edit)
        ∷ (true, approves item.org_id)
        ∷ (true, to_executing)
        ∷ [])).status
      ≡ executing
unfolding run
reset_reopens item = ground (arith, ==_self item.org_id)
