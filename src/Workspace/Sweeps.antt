-- ===== src/Workspace/Sweeps.antt =====
-- What the sweeps of the reaper achieve, and what they cannot.
use forge_engine.Prelude.{
  ℕ, ◌*◌, ◌≡◌, refl, sym, subst, ap, ◌∙◌, String, Bool, true, false, ◌&&◌, not, Option, none, some,
  List, [], ◌∷◌, All, if-lift, ◌==◌, ==_self, arith,
}
use forge_engine.Workspace.{
  WorkspaceStatus, destroyed, is_live, Slot, workspace_destroying, workspace_destroyed,
  log_lifecycle, mark_destroying, mark_destroyed,
}
use forge_engine.Workspace.Provision.{stop_container}
use forge_engine.Workspace.Accounting.{View, view, IsAccounted, log_lifecycle-view}
use forge_engine.Workspace.Reaper.{
  ReapEnv, is_destroyed, driver_destroy, destroy_steps, destroy, second, is_provisioning,
  is_completed, runs, is_over, is_dead, check_workspace, sweep,
}

-- Nothing runs that the row does not name, and nothing at all once the row is not live.
abbrev pub IsSound : View → Type 0
IsSound v = IsAccounted v × (is_live v.0.status ≡ false → v.1 ≡ [])

-- All that is asked for one workspace succeeds.
abbrev pub AllOk : ReapEnv → Type 0
AllOk env =
    (env.get_ok ≡ true)
    × (env.destroying_ok ≡ true)
    × (env.destroy_ok ≡ true)
    × (env.destroyed_ok ≡ true)
    × (env.status_ok ≡ true)

-- A live workspace is within its limits, and its container runs unless it is completed.
abbrev pub IsWithin : ℕ → Slot → Type 0
IsWithin now st =
    (is_over (st.row.timeout_seconds * second) now st.row ≡ false)
    × (is_provisioning st.row.status ≡ true → is_over (300 * second) now st.row ≡ false)
    × ((c : String)
        → st.row.container_id ≡ some c
        → is_completed st.row.status ≡ false
        → runs c st.running ≡ true)

abbrev pub IsReaped : ℕ → Slot → Type 0
IsReaped now st = IsSound (view st) × (is_live st.row.status ≡ true → IsWithin now st)

some_inj : {a b : String} → some a ≡ some b → a ≡ b
some_inj e = cc

stop_accounted :
    (o : Option String) (running : List String)
    → All (λ (c : String). o ≡ some c) running
    → (c : String) → o ≡ some c
    → stop_container c running ≡ []
stop_accounted o [] a c e = refl
stop_accounted o (d ∷ ds) (h, hs) c e = rw (same, stop_container) (stop_accounted o ds hs c e)
  where
    same : (d == c) ≡ true
    same = subst (λ x. (x == c) ≡ true) (some_inj (sym e ∙ h)) (==_self c)

driver_destroy-empty :
    (o : Option String) (st : Slot)
    → All (λ (c : String). o ≡ some c) st.running
    → (driver_destroy true o st).running ≡ []
driver_destroy-empty none st a = nothing st.running a
  where
    nothing : (running : List String) → All (λ (c : String). none ≡ some c) running → running ≡ []
    nothing [] a = refl
    nothing (c ∷ cs) (h, hs) = cc
driver_destroy-empty (some c) st a = stop_accounted (some c) st.running a c refl

destroy_steps-view :
    (env : ReapEnv) (st : Slot)
    → AllOk env
    → IsAccounted (view st)
    → ((destroy_steps env st).row.status ≡ destroyed) × ((destroy_steps env st).running ≡ [])
unfolding destroy_steps mark_destroying mark_destroyed
destroy_steps-view env st (g, m, d, k, s) a =
    rw (m, d, k)
      (
        ap (λ v. v.0.status)
            (log_lifecycle-view (env.log_ok workspace_destroyed) workspace_destroyed last),
        ap (λ v. v.1) (log_lifecycle-view (env.log_ok workspace_destroyed) workspace_destroyed last)
            ∙ empty,
      )
  where
    st₁ : Slot
    st₁ = log_lifecycle (env.log_ok workspace_destroying) workspace_destroying st

    last : Slot
    last = mark_destroyed true (driver_destroy true st.row.container_id (mark_destroying true st₁))

    empty : (driver_destroy true st.row.container_id (mark_destroying true st₁)).running ≡ []
    empty = driver_destroy-empty st.row.container_id (mark_destroying true st₁) (
        subst (λ (v : View). All (λ (c : String). st.row.container_id ≡ some c) v.1)
          (sym (log_lifecycle-view (env.log_ok workspace_destroying) workspace_destroying st)) a)

live_not_destroyed : (s : WorkspaceStatus) → is_live s ≡ true → is_destroyed s ≡ false
live_not_destroyed s h = ground arith

destroy-Reaped :
    (now : ℕ) (env : ReapEnv) (st : Slot)
    → AllOk env
    → is_live st.row.status ≡ true
    → IsAccounted (view st)
    → IsReaped now (destroy env st).0
unfolding destroy
destroy-Reaped now env st ok live a =
    let (gone, empty) = destroy_steps-view env st ok a in
    rw (ok.0, live_not_destroyed st.row.status live)
      ((rw empty tt, (λ _. empty)), (λ h. absurd (cc (subst (λ s. is_live s ≡ true) gone h))))

dead_tests : (r c : Bool) → (true && (not r && not c)) ≡ false → c ≡ false → r ≡ true
dead_tests true c h e = refl
dead_tests false c h e = cc

is_dead-runs :
    (env : ReapEnv) (st : Slot)
    → env.status_ok ≡ true
    → is_dead env st ≡ false
    → (c : String) → st.row.container_id ≡ some c
    → is_completed st.row.status ≡ false
    → runs c st.running ≡ true
is_dead-runs env st ok h c e n =
    dead_tests (runs c st.running) (is_completed st.row.status)
      (subst
        (λ (b : Bool). (b && (not (runs c st.running) && not (is_completed st.row.status))) ≡ false)
        ok
        (subst
          (λ (o : Option String).
            (elim o [
              | none ↦ false
              | some c ↦
                  env.status_ok && (not (runs c st.running) && not (is_completed st.row.status))
            ])
            ≡ false)
          e h))
      n

and_tests : (a b : Bool) → (a && b) ≡ false → a ≡ true → b ≡ false
and_tests a b h e = ground arith

check_workspace-Reaped :
    (now : ℕ) (env : ReapEnv) (st : Slot)
    → AllOk env
    → is_live st.row.status ≡ true
    → IsSound (view st)
    → IsReaped now (check_workspace now env st)
unfolding check_workspace
check_workspace-Reaped now env st ok live sound =
    if-lift (IsReaped now) (is_provisioning st.row.status && is_over (300 * second) now st.row)
      (destroy env st).0 _ (λ _. reaped)
      (λ young.
        if-lift (IsReaped now) (is_over (st.row.timeout_seconds * second) now st.row)
          (destroy env st).0 _ (λ _. reaped)
          (λ within.
            if-lift (IsReaped now) (is_dead env st) (destroy env st).0 st (λ _. reaped)
              (λ alive.
                (sound, (λ _. (within, and_tests _ _ young, is_dead-runs env st ok.4 alive))))))
  where
    reaped : IsReaped now (destroy env st).0
    reaped = destroy-Reaped now env st ok live sound.0

-- After a sweep in which the list is read and all that is asked of the driver and the database
-- succeeds, every workspace that is still live is within its timeout, has left provisioning within
-- five minutes, and its container runs unless it is completed; nothing runs for a workspace that is
-- not live, nor a container that its row does not name. Both hold before the sweep of what runs.
pub sweep-IsReaped :
    (now : ℕ) (workspaces : List (ReapEnv × Slot))
    → All (λ (p : ReapEnv × Slot). AllOk p.0 × IsSound (view p.1)) workspaces
    → All (IsReaped now) (sweep now true workspaces)
unfolding sweep
sweep-IsReaped now [] h = tt
sweep-IsReaped now ((env, st) ∷ rest) ((ok, sound), h) = (
  if-lift (IsReaped now) (is_live st.row.status) (check_workspace now env st) st
      (λ live. check_workspace-Reaped now env st ok live sound)
      (λ dead. (sound, (λ live. absurd (cc (dead, live))))),
  sweep-IsReaped now rest h,
)

-- One workspace under the sweeps to come.
abbrev pub later : List (ℕ × Bool × ReapEnv) → Slot → Slot
later [] st = st
later ((now, list_ok, env) ∷ rounds) st = elim (sweep now list_ok ((env, st) ∷ [])) [
  | [] ↦ st
  | st' ∷ others ↦ later rounds st'
]

later_destroyed :
    (rounds : List (ℕ × Bool × ReapEnv)) (st : Slot)
    → st.row.status ≡ destroyed
    → later rounds st ≡ st
unfolding sweep
later_destroyed [] st e = refl
later_destroyed ((now, list_ok, env) ∷ rounds) st e =
    rw (subst (λ s. (list_ok && is_live s) ≡ false) (sym e) (never list_ok))
      (later_destroyed rounds st e)
  where
    never : (b : Bool) → (b && false) ≡ false
    never true = refl
    never false = refl

mark_destroying-running : (db : Bool) (st : Slot) → (mark_destroying db st).running ≡ st.running
unfolding mark_destroying
mark_destroying-running db st =
    if-lift (λ (s : Slot). s.running ≡ st.running) db _ st (λ _. refl) (λ _. refl)

driver_destroy-fails :
    (o : Option String) (st : Slot) → (driver_destroy false o st).running ≡ st.running
driver_destroy-fails none st = refl
driver_destroy-fails (some c) st = refl

destroy_steps_forgets :
    (env : ReapEnv) (st : Slot)
    → env.destroyed_ok ≡ true
    → env.destroy_ok ≡ false
    → ((destroy_steps env st).row.status ≡ destroyed)
      × ((destroy_steps env st).running ≡ st.running)
unfolding destroy_steps mark_destroyed
destroy_steps_forgets env st m d =
    rw (m, d)
      (
        ap (λ v. v.0.status)
            (log_lifecycle-view (env.log_ok workspace_destroyed) workspace_destroyed last),
        ap (λ v. v.1) (log_lifecycle-view (env.log_ok workspace_destroyed) workspace_destroyed last)
            ∙ driver_destroy-fails st.row.container_id st₂
            ∙ marked
            ∙ ap (λ v. v.1)
                (log_lifecycle-view (env.log_ok workspace_destroying) workspace_destroying st),
      )
  where
    st₁ : Slot
    st₁ = log_lifecycle (env.log_ok workspace_destroying) workspace_destroying st

    st₂ : Slot
    st₂ = mark_destroying env.destroying_ok st₁

    last : Slot
    last = mark_destroyed true (driver_destroy false st.row.container_id st₂)

    marked : st₂.running ≡ st₁.running
    marked = mark_destroying-running env.destroying_ok st₁

-- A live workspace whose container the driver fails to destroy is marked destroyed all the same: its
-- containers run on, and no later sweep changes anything, whatever it is answered.
pub destroy_forgets :
    (env : ReapEnv) (st : Slot) (rounds : List (ℕ × Bool × ReapEnv))
    → is_live st.row.status ≡ true
    → env.get_ok ≡ true
    → env.destroyed_ok ≡ true
    → env.destroy_ok ≡ false
    → let st' = later rounds (destroy env st).0 in
      (st'.row.status ≡ destroyed) × (st'.running ≡ st.running)
unfolding destroy
destroy_forgets env st rounds live g m d =
    let (gone, same) = destroy_steps_forgets env st m d in
    rw (g, live_not_destroyed st.row.status live)
      (subst (λ (s : Slot). (s.row.status ≡ destroyed) × (s.running ≡ st.running))
        (sym (later_destroyed rounds (destroy_steps env st) gone)) (gone, same))
