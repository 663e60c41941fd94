-- ===== src/Execution/Starting.antt =====
-- When an execution starts, and how often.
use forge_engine.Prelude.{
  ◌≡◌, refl, ap, ◌∙◌, ◌⊎◌, inl, inr, String, Bool, true, false, Option, none, some, ◌∷◌, if-lift,
  ◌==◌, nat_eq, arith,
}
use forge_engine.WorkItem.{Status, plan_approved, executing, index, transition_to_executing}
use forge_engine.Execution.Start.{
  State, StartEnv, Response, started, create_failed, is_approved, is_ready, is_present, check_start,
  launch, start_execution, must_be_plan_approved, task_not_found, must_be_approved,
  workspace_required, no_active_plan,
}

-- What the checks want.
abbrev pub IsStartable : String → State → Type 0
IsStartable org_id st =
    ((st.item.org_id == org_id) ≡ true)
    × (is_approved st.item.approval_status ≡ true)
    × (st.item.status ≡ plan_approved)
    × (is_ready st.workspace ≡ true)
    × (is_present st.plan ≡ true)

index_plan_approved :
    (s : Status) → nat_eq (index s) (index plan_approved) ≡ true → s ≡ plan_approved
index_plan_approved s h = ground arith

check_start-IsStartable :
    (env : StartEnv) (org_id : String) (st : State)
    → check_start env org_id st ≡ none
    → IsStartable org_id st
unfolding check_start
check_start-IsStartable env org_id st h = ground (arith, index_plan_approved st.item.status)

abbrev pub is_started : Response → Bool
is_started started = true
is_started create_failed = false
is_started task_not_found = false
is_started must_be_approved = false
is_started must_be_plan_approved = false
is_started workspace_required = false
is_started no_active_plan = false

-- The check gives no answer of success.
check_start-refuses :
    (env : StartEnv) (org_id : String) (st : State) (r : Response)
    → check_start env org_id st ≡ some r
    → is_started r ≡ false
unfolding check_start
check_start-refuses env org_id st r h = ground arith

-- What a start does, or that it does nothing.
abbrev pub Starts : StartEnv → String → String → State → State × Response → Type 0
Starts env org_id id st (st', r) =
    (IsStartable org_id st
      × (is_started r ≡ true)
      × (st'.launched ≡ id ∷ st.launched)
      × (st'.item ≡ (transition_to_executing env.transition_ok st.item).0))
    ⊎ ((is_started r ≡ false) × (st' ≡ st))

launch-Starts :
    (env : StartEnv) (org_id id : String) (st : State)
    → IsStartable org_id st
    → Starts env org_id id st (launch env id st)
unfolding launch
launch-Starts env org_id id st s =
    if-lift (Starts env org_id id st) env.create_ok _ (st, create_failed)
      (λ _. inl (s, refl, refl, refl)) (λ _. inr (refl, refl))

-- A request starts an execution only for an approved item of the caller's organisation in
-- plan_approved, with a ready workspace and an active plan: then the execution is launched and the
-- item goes to executing, if that update runs. Every other request changes nothing.
pub start_execution-Starts :
    (env : StartEnv) (org_id id : String) (st : State)
    → Starts env org_id id st (start_execution env org_id id st)
unfolding start_execution
start_execution-Starts env org_id id st = by_check (check_start env org_id st) refl
  where
    by_check :
        (o : Option Response)
        → check_start env org_id st ≡ o
        → Starts env org_id id st (elim o [ some r ↦ (st, r) | none ↦ launch env id st ])
    by_check none e = launch-Starts env org_id id st (check_start-IsStartable env org_id st e)
    by_check (some r) e = inr (check_start-refuses env org_id st r e, refl)

passed :
    (env : StartEnv) (org_id id : String) (st : State)
    → check_start env org_id st ≡ none
    → start_execution env org_id id st ≡ launch env id st
unfolding start_execution
passed env org_id id st e = rw (e, start_execution) refl

launch-launched :
    (env : StartEnv) (id : String) (st : State)
    → env.create_ok ≡ true
    → (launch env id st).0.launched ≡ id ∷ st.launched
unfolding launch
launch-launched env id st c = rw c refl

launch-executing :
    (env : StartEnv) (id : String) (st : State)
    → env.create_ok ≡ true
    → env.transition_ok ≡ true
    → st.item.status ≡ plan_approved
    → (launch env id st).0.item.status ≡ executing
unfolding launch transition_to_executing
launch-executing env id st c t s = ground arith

-- An item that is executing is not started.
executing_refused :
    (env : StartEnv) (org_id id : String) (st : State)
    → st.item.status ≡ executing
    → (start_execution env org_id id st).0 ≡ st
executing_refused env org_id id st e = stays (start_execution-Starts env org_id id st)
  where
    stays :
        Starts env org_id id st (start_execution env org_id id st)
        → (start_execution env org_id id st).0 ≡ st
    stays (inl (s, r, l, i)) = absurd (cc (e, s.2))
    stays (inr (r, same)) = same

-- Two requests for one item: if the second one comes after the first one's update, it launches
-- nothing; if both are checked before either writes, both launch an execution of the same plan. The
-- checks of both pass at first, and their statements run.
pub launched_twice :
    (env env' : StartEnv) (org_id a b : String) (st : State)
    → check_start env org_id st ≡ none
    → check_start env' org_id st ≡ none
    → env.create_ok ≡ true
    → env.transition_ok ≡ true
    → env'.create_ok ≡ true
    → ((start_execution env' org_id b (start_execution env org_id a st).0).0.launched
        ≡ a ∷ st.launched)
      × ((launch env' b (launch env a st).0).0.launched ≡ b ∷ a ∷ st.launched)
launched_twice env env' org_id a b st p p' c t c' = (
  ap (λ (r : State × Response). (start_execution env' org_id b r.0).0.launched)
        (passed env org_id a st p)
      ∙ ap (λ (s : State). s.launched)
          (executing_refused env' org_id b (launch env a st).0
            (launch-executing env a st c t (check_start-IsStartable env org_id st p).2))
      ∙ launch-launched env a st c,
  launch-launched env' b (launch env a st).0 c' ∙ ap (λ ids. b ∷ ids) (launch-launched env a st c),
)
