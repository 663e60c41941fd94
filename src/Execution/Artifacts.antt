-- ===== src/Execution/Artifacts.antt =====
-- The lists of files that an execution leaves have no repetition.
use forge_engine.Prelude.{
  ◌≡◌, refl, sym, subst, Bool, true, false, ◌||◌, List, [], ◌∷◌, ◌++◌, arith, if-lift, Bool-cases,
  ◌⊎◌, inl, inr, Bytes, bytes_eq, bytes_eq→≡, bytes_eq_self,
}
use forge_engine.Json.{Fields}
use forge_engine.Plan.{stable_id}
use forge_engine.Execution.{
  ExecStatus, Step, StepEnv, StepVars, State, mark, failed, mark_cancelled, add_row, contains_bytes,
  append_unique, run_step, run_steps,
}
use forge_engine.Execution.Rounds.{
  after_step, called, passed_over, execute_step-lift, Stepped, follow-Stepped, run_step-lift,
}

abbrev pub IsDistinct : List Bytes → Type 0
IsDistinct [] = Unit
IsDistinct (x ∷ xs) = (contains_bytes xs x ≡ false) × IsDistinct xs

contains_bytes-append :
    (xs ys : List Bytes) (z : Bytes)
    → contains_bytes (xs ++ ys) z ≡ (contains_bytes xs z || contains_bytes ys z)
contains_bytes-append [] ys z = refl
contains_bytes-append (x ∷ xs) ys z = let rest = contains_bytes-append xs ys z in ground arith

bytes_eq-sym : (x y : Bytes) → bytes_eq x y ≡ false → bytes_eq y x ≡ false
bytes_eq-sym x y h = elim (Bool-cases (bytes_eq y x)) [
  | inr n ↦ n
  | inl e ↦ absurd (cc (h, bytes_eq_self x, bytes_eq→≡ y x e))
]

IsDistinct-snoc :
    (xs : List Bytes) (z : Bytes)
    → IsDistinct xs
    → contains_bytes xs z ≡ false
    → IsDistinct (xs ++ (z ∷ []))
IsDistinct-snoc [] z d n = (refl, tt)
IsDistinct-snoc (x ∷ xs) z (new, d) n =
    let c = contains_bytes-append xs (z ∷ []) x in
    let z_x = bytes_eq-sym x z (ground (arith, n)) in
    (ground (arith, c, new, z_x), IsDistinct-snoc xs z d (ground (arith, n)))

-- `appendUnique` makes the union: it adds every new item and nothing else, and keeps a list without
-- repetition as it is in that.
pub append_unique-IsDistinct :
    (xs items : List Bytes)
    → (IsDistinct xs → IsDistinct (append_unique xs items))
      × ((z : Bytes)
          → contains_bytes (append_unique xs items) z
            ≡ (contains_bytes xs z || contains_bytes items z))
unfolding append_unique
append_unique-IsDistinct xs [] = ((λ d. d), (λ z. ground arith))
append_unique-IsDistinct xs (s ∷ items) = elim (Bool-cases (contains_bytes xs s)) [
  | inl y ↦
      let (distinct, members) = append_unique-IsDistinct xs items in
      rw y (
        distinct,
        (λ z.
            let m = members z in
            elim (Bool-cases (bytes_eq s z)) [
              | inl e ↦
                  let there = subst (λ x. contains_bytes xs x ≡ true) (bytes_eq→≡ s z e) y in
                  ground (arith, m, there, e)
              | inr n ↦ ground (arith, m, n)
            ]),
      )
  | inr n ↦
      let (distinct, members) = append_unique-IsDistinct (xs ++ (s ∷ [])) items in
      rw n (
        (λ d. distinct (IsDistinct-snoc xs s d n)),
        (λ z.
            let m = members z in
            let c = contains_bytes-append xs (s ∷ []) z in ground (arith, m, c)),
      )
]

abbrev pub HasDistinctFiles : State → Type 0
HasDistinctFiles st =
    IsDistinct st.modified_files × IsDistinct st.created_files × IsDistinct st.deleted_files

after_step-HasDistinctFiles :
    (step : Fields) (env : StepEnv) (v : StepVars) (st : State)
    → HasDistinctFiles st
    → HasDistinctFiles (after_step step env v st)
unfolding after_step
after_step-HasDistinctFiles step env v st (m, c, d) = (
  (append_unique-IsDistinct st.modified_files v.modified).0 m,
  (append_unique-IsDistinct st.created_files v.created).0 c,
  (append_unique-IsDistinct st.deleted_files v.deleted).0 d,
)

mark-HasDistinctFiles :
    (db : Bool) (s : ExecStatus) (st : State)
    → HasDistinctFiles st
    → HasDistinctFiles (mark db s st)
unfolding mark
mark-HasDistinctFiles db s st d = if-lift HasDistinctFiles db _ st (λ _. d) (λ _. d)

mark_cancelled-HasDistinctFiles :
    (db : Bool) (st : State) → HasDistinctFiles st → HasDistinctFiles (mark_cancelled db st)
unfolding mark_cancelled
mark_cancelled-HasDistinctFiles db st d = if-lift HasDistinctFiles _ _ st (λ _. d) (λ _. d)

called-HasDistinctFiles :
    (step : Fields) (env : StepEnv) (st : State)
    → HasDistinctFiles st
    → HasDistinctFiles (called step env st)
unfolding called
called-HasDistinctFiles step env st d = mark_cancelled-HasDistinctFiles env.cancels_during _ d

passed_over-HasDistinctFiles :
    (step : Fields) (env : StepEnv) (st : State)
    → HasDistinctFiles st
    → HasDistinctFiles (passed_over step env st)
unfolding passed_over
passed_over-HasDistinctFiles step env st d =
    if-lift HasDistinctFiles env.create_ok _ st (λ _. d) (λ _. d)

run_step-HasDistinctFiles :
    (step : Fields) (env : StepEnv) (st : State)
    → HasDistinctFiles st
    → Stepped HasDistinctFiles HasDistinctFiles (run_step step env st)
run_step-HasDistinctFiles step env st₀ d₀ =
    run_step-lift T step env st₀ (λ _. mark_cancelled-HasDistinctFiles env.exec_ok st d)
      (passed_over-HasDistinctFiles step env st d)
      (λ _.
        execute_step-lift T step env st (mark-HasDistinctFiles env.exec_ok failed st d)
          (λ st' e.
            mark-HasDistinctFiles env.exec_ok failed (add_row (stable_id step) _ st')
              (either st' e))
          (λ v.
            after_step-HasDistinctFiles step env v (called step env st)
              (called-HasDistinctFiles step env st d)))
  where
    T : Step → Type 0
    T = Stepped HasDistinctFiles HasDistinctFiles

    st : State
    st = mark_cancelled env.cancels_before st₀

    d : HasDistinctFiles st
    d = mark_cancelled-HasDistinctFiles env.cancels_before st₀ d₀

    either : (st' : State) → (st' ≡ st) ⊎ (st' ≡ called step env st) → HasDistinctFiles st'
    either st' (inl e) = subst HasDistinctFiles (sym e) d
    either st' (inr e) = subst HasDistinctFiles (sym e) (called-HasDistinctFiles step env st d)

-- Whatever the steps do, the loop keeps the three lists of files without repetition.
pub run_steps-HasDistinctFiles :
    (steps : List (Fields × StepEnv)) (st : State)
    → HasDistinctFiles st
    → HasDistinctFiles (run_steps steps st).0
unfolding run_steps
run_steps-HasDistinctFiles [] st d = d
run_steps-HasDistinctFiles ((step, env) ∷ steps) st d =
    follow-Stepped HasDistinctFiles (λ r. HasDistinctFiles r.0) (run_step step env st)
      (run_steps steps) (run_step-HasDistinctFiles step env st d)
      (λ st' d'. run_steps-HasDistinctFiles steps st' d')
