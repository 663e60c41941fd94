-- ===== src/Execution/Blocking.antt =====
-- No step is given to the agent on top of a dependency that did not succeed.
use forge_engine.Prelude.{
  ◌≡◌, refl, sym, subst, String, Bool, true, false, Option, none, some, List, [], ◌∷◌, map, arith,
  if-lift, Bool-cases, ◌⊎◌, inl, inr, if◌then◌else◌, ◌==◌, ==→≡, All, All-map, contains,
  contains_cons_inv, contains_tail,
}
use forge_engine.Json.{Fields}
use forge_engine.Plan.{stable_id, dep_stable_ids}
use forge_engine.Plan.Steps.{AllDone}
use forge_engine.Plan.Order.{InOrder}
use forge_engine.Execution.{
  ExecStatus, failed, StepEnv, StepVars, State, mark, mark_cancelled, first_blocking,
  find_blocking_dep, execute_step, run_step, run_steps, run_execution, classify, add_row,
}
use forge_engine.Execution.Rounds.{
  after_step, called, passed_over, execute_step-lift, run_step-lift, Stepped, follow-Stepped,
}

-- None of the step's dependencies is among the steps that did not succeed.
abbrev pub IsUnblocked : List String → Fields → Type 0
IsUnblocked deviated step =
    (d : String) → contains (dep_stable_ids step) d ≡ true → contains deviated d ≡ false

-- For a step that ran: its dependencies came before, and none is among the failed.
abbrev IsGrounded : List String → List String → Fields → Type 0
IsGrounded seen deviated step =
    (d : String)
    → contains (dep_stable_ids step) d ≡ true
    → (contains seen d ≡ true) × (contains deviated d ≡ false)

abbrev Inv : List String → State → Type 0
Inv seen st = All (IsGrounded seen st.deviated_or_failed) st.executed

AllDone-contains :
    (seen deps : List String) (d : String)
    → AllDone seen deps
    → contains deps d ≡ true
    → contains seen d ≡ true
unfolding contains
AllDone-contains seen [] d a h = cc
AllDone-contains seen (x ∷ deps) d a h = elim (contains_cons_inv x d deps h) [
  | inl e ↦ subst (λ y. contains seen y ≡ true) e a.0
  | inr m ↦ AllDone-contains seen deps d a.1 m
]

first_none :
    (b q : Bool) (x : String) (rest : Option String)
    → (if b then (if q then none else some x) else rest) ≡ none
    → ((b ≡ true) × (q ≡ true)) ⊎ ((b ≡ false) × (rest ≡ none))
first_none true true x rest e = inl (refl, refl)
first_none true false x rest e = cc
first_none false q x rest e = inr (refl, e)

-- Without a blocking dependency, and with a name for every dependency, none failed.
first_blocking-none :
    (deviated deps : List String)
    → first_blocking deviated deps ≡ none
    → contains deps "" ≡ false
    → (d : String) → contains deps d ≡ true
    → contains deviated d ≡ false
unfolding first_blocking contains
first_blocking-none deviated [] e n d h = cc
first_blocking-none deviated (x ∷ deps) e n d h =
    elim (first_none (contains deviated x) (x == "") x (first_blocking deviated deps) e) [
      | inl (b, q) ↦ absurd (ground arith)
      | inr (f, rest) ↦ elim (contains_cons_inv x d deps h) [
        | inl p ↦ subst (λ y. contains deviated y ≡ false) p f
        | inr m ↦ first_blocking-none deviated deps rest (ground arith) d m
      ]
    ]

-- A step that is done is new, so no earlier one depends on it.
IsGrounded-next :
    (seen deviated : List String) (sid : String) (b : Bool) (step : Fields)
    → contains seen sid ≡ false
    → IsGrounded seen deviated step
    → IsGrounded (sid ∷ seen) (if b then sid ∷ deviated else deviated) step
unfolding contains
IsGrounded-next seen deviated sid false step new g d h =
    (contains_tail sid d seen (g d h).0, (g d h).1)
IsGrounded-next seen deviated sid true step new g d h = (
  contains_tail sid d seen (g d h).0,
  elim (Bool-cases (sid == d)) [
    | inl e ↦ absurd (cc (subst (λ y. contains seen y ≡ false) (==→≡ sid d e) new, (g d h).0))
    | inr n ↦ rw n (g d h).1
  ],
)

abbrev Safe : State → Type 0
Safe st = All (IsUnblocked st.deviated_or_failed) st.executed

Inv-Safe : (seen : List String) (st : State) → Inv seen st → Safe st
Inv-Safe seen st i = All-map _ _ st.executed (λ s g d h. (g d h).1) i

next-Inv :
    (seen : List String) (st : State) (sid : String) (b : Bool)
    → contains seen sid ≡ false
    → Inv seen st
    → All
        (IsGrounded (sid ∷ seen) (if b then sid ∷ st.deviated_or_failed else st.deviated_or_failed))
        st.executed
next-Inv seen st sid b new i =
    All-map _ _ st.executed (λ s g. IsGrounded-next seen st.deviated_or_failed sid b s new g) i

mark_cancelled-Inv :
    (seen : List String) (db : Bool) (st : State) → Inv seen st → Inv seen (mark_cancelled db st)
unfolding mark_cancelled
mark_cancelled-Inv seen db st i = if-lift (Inv seen) _ _ st (λ _. i) (λ _. i)

mark-Safe : (st : State) (db : Bool) (s : ExecStatus) → Safe st → Safe (mark db s st)
unfolding mark
mark-Safe st db s i = if-lift Safe db _ st (λ _. i) (λ _. i)

passed_over-Inv :
    (seen : List String) (step : Fields) (env : StepEnv) (st : State)
    → contains seen (stable_id step) ≡ false
    → Inv seen st
    → Inv (stable_id step ∷ seen) (passed_over step env st)
unfolding passed_over
passed_over-Inv seen step env st new i =
    if-lift
      (λ (s : State).
        All (IsGrounded (stable_id step ∷ seen) (stable_id step ∷ s.deviated_or_failed)) s.executed)
      env.create_ok _ st (λ _. next-Inv seen st (stable_id step) true new i)
      (λ _. next-Inv seen st (stable_id step) true new i)

called-Inv :
    (seen : List String) (step : Fields) (env : StepEnv) (st : State)
    → IsGrounded seen st.deviated_or_failed step
    → Inv seen st
    → Inv seen (called step env st)
unfolding called
called-Inv seen step env st g i = mark_cancelled-Inv seen env.cancels_during _ (g, i)

after_step-Inv :
    (seen : List String) (step : Fields) (env : StepEnv) (v : StepVars) (st : State)
    → contains seen (stable_id step) ≡ false
    → Inv seen st
    → Inv (stable_id step ∷ seen) (after_step step env v st)
unfolding after_step
after_step-Inv seen step env v st new i =
    next-Inv seen st (stable_id step) (classify v.deviation).1 new i

execute_step-Inv :
    (seen : List String) (step : Fields) (env : StepEnv) (st : State)
    → contains seen (stable_id step) ≡ false
    → IsGrounded seen st.deviated_or_failed step
    → Inv seen st
    → Stepped (Inv (stable_id step ∷ seen)) Safe (execute_step step env st)
execute_step-Inv seen step env st new g i =
    execute_step-lift (Stepped (Inv (stable_id step ∷ seen)) Safe) step env st
      (mark-Safe st env.exec_ok failed (Inv-Safe seen st i))
      (λ st' e. mark-Safe (add_row (stable_id step) _ st') env.exec_ok failed (failed_Safe st' e))
      (λ v.
        after_step-Inv seen step env v (called step env st) new (called-Inv seen step env st g i))
  where
    failed_Safe : (st' : State) → (st' ≡ st) ⊎ (st' ≡ called step env st) → Safe st'
    failed_Safe st' (inl e) = subst Safe (sym e) (Inv-Safe seen st i)
    failed_Safe st' (inr e) =
        subst Safe (sym e) (Inv-Safe seen (called step env st) (called-Inv seen step env st g i))

-- The step's dependencies came before, and none is blocking.
ready-IsGrounded :
    (seen : List String) (step : Fields) (deviated : List String)
    → AllDone seen (dep_stable_ids step)
    → contains seen "" ≡ false
    → find_blocking_dep step deviated ≡ none
    → IsGrounded seen deviated step
unfolding find_blocking_dep
ready-IsGrounded seen step deviated a named e d h = (
  AllDone-contains seen (dep_stable_ids step) d a h,
  first_blocking-none deviated (dep_stable_ids step) e unnamed d h,
)
  where
    unnamed : contains (dep_stable_ids step) "" ≡ false
    unnamed = elim (Bool-cases (contains (dep_stable_ids step) "")) [
      | inl y ↦ absurd (cc (named, AllDone-contains seen (dep_stable_ids step) "" a y))
      | inr n ↦ n
    ]

run_step-Inv :
    (seen : List String) (step : Fields) (env : StepEnv) (st : State)
    → contains seen (stable_id step) ≡ false
    → AllDone seen (dep_stable_ids step)
    → contains seen "" ≡ false
    → Inv seen st
    → Stepped (Inv (stable_id step ∷ seen)) Safe (run_step step env st)
run_step-Inv seen step env st new a named i =
    let st' = mark_cancelled env.cancels_before st in
    let i' = mark_cancelled-Inv seen env.cancels_before st i in
    run_step-lift (Stepped (Inv (stable_id step ∷ seen)) Safe) step env st
      (λ _.
        Inv-Safe seen (mark_cancelled env.exec_ok st') (mark_cancelled-Inv seen env.exec_ok st' i'))
      (passed_over-Inv seen step env st' new i')
      (λ e. execute_step-Inv seen step env st' new (ready-IsGrounded seen step _ a named e) i')

run_steps-Safe :
    (seen : List String) (steps : List (Fields × StepEnv)) (st : State)
    → InOrder seen (map (λ (p : Fields × StepEnv). p.0) steps)
    → All (λ (p : Fields × StepEnv). (stable_id p.0 == "") ≡ false) steps
    → contains seen "" ≡ false
    → Inv seen st
    → Safe (run_steps steps st).0
unfolding run_steps contains
run_steps-Safe seen [] st o n named i = Inv-Safe seen st i
run_steps-Safe seen ((step, env) ∷ steps) st (a, new, o) (n, ns) named i =
    follow-Stepped (Inv (stable_id step ∷ seen)) (λ r. Safe r.0) (run_step step env st) _
      (run_step-Inv seen step env st new a named i)
      (λ st' i'. run_steps-Safe (stable_id step ∷ seen) steps st' o ns (ground arith) i')

-- However an execution of steps in dependency order ends, no step was given to the agent whose
-- dependencies include one that deviated, failed or was skipped, if every step has a stable id that
-- is not empty.
pub run_execution-IsUnblocked :
    (steps : List (Fields × StepEnv)) (exec_ok : Bool) (st : State)
    → InOrder [] (map (λ (p : Fields × StepEnv). p.0) steps)
    → All (λ (p : Fields × StepEnv). (stable_id p.0 == "") ≡ false) steps
    → st.executed ≡ []
    → let st' = (run_execution steps exec_ok st).0 in
      All (IsUnblocked st'.deviated_or_failed) st'.executed
unfolding run_execution contains
run_execution-IsUnblocked steps exec_ok st o n e =
    let safe = run_steps-Safe [] steps st o n refl (rw e tt) in
    if-lift (λ (r : State × Bool). Safe r.0) (run_steps steps st).1 _
      ((run_steps steps st).0, false) (λ _. mark-Safe (run_steps steps st).0 exec_ok _ safe)
      (λ _. safe)
