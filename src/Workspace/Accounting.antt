-- ===== src/Workspace/Accounting.antt =====
-- The containers of a workspace are known to its row, from the provisioning on.
use forge_engine.Prelude.{
  ℕ, ◌≡◌, refl, sym, ◌∙◌, ap, subst, ◌⊎◌, inl, inr, String, Bool, true, false, Option, none, some,
  List, [], ◌∷◌, All, Bytes, if-lift, ==_self, Bool-cases, ltb, length,
}
use forge_engine.Workspace.{
  Workspace, ready, failed, Slot, Completion, LifecycleEvent, log_lifecycle, log_command_start,
  log_command_complete, set_container_id, mark_ready, mark_failed, workspace_creating,
  workspace_created, repo_cloning, repo_cloned, repo_checkout, workspace_ready, workspace_failed,
}
use forge_engine.Workspace.Driver.{ExecEvent}
use forge_engine.Workspace.Exec.{CommandLog, exec_and_log, run_logged, finish_log, redact_command}
use forge_engine.Workspace.Provision.{
  ProvisionEnv, Outcome, goes, stops, panics, ◌>>=◌, stop_container, attach_container, git_result,
  git_command, exit_zero, clone_command, log_clone, checkout_command, log_checkout,
  clone_repository, check_out, fetch_repository, finish_provision, start_container, provision_steps,
  Provisioned, create_failed, returns, provision_failed, refetch_failed, crashed, new_slot,
  conclude, provision,
}

-- The row and the containers, without the log.
abbrev pub View : Type 0
View = Workspace × List String

abbrev pub view : Slot → View
view st = (st.row, st.running)

-- Every container that runs is the one that the row names.
abbrev pub IsAccounted : View → Type 0
IsAccounted (row, running) = All (λ (c : String). row.container_id ≡ some c) running

-- One container runs, and the row names it.
abbrev pub IsAttached : View → Type 0
IsAttached (row, running) = (c : String) × (running ≡ c ∷ []) × (row.container_id ≡ some c)

pub log_lifecycle-view :
    (db : Bool) (e : LifecycleEvent) (st : Slot) → view (log_lifecycle db e st) ≡ view st
unfolding log_lifecycle
log_lifecycle-view db e st = if-lift (λ s. view s ≡ view st) db _ st (λ _. refl) (λ _. refl)

finish_log-view :
    (db : CommandLog) (entry : Option ℕ) (c : Completion) (st : Slot)
    → view (finish_log db entry c st) ≡ view st
unfolding log_command_complete
finish_log-view db none c st = refl
finish_log-view db (some n) c st =
    if-lift (λ s. view s ≡ view st) db.complete_ok _ st (λ _. refl) (λ _. refl)

run_logged-view :
    (db : CommandLog) (execute : Option (List ExecEvent)) (cmd : List Bytes) (st : Slot)
    → view (run_logged db execute cmd st).0 ≡ view st
unfolding run_logged log_command_start
run_logged-view db none cmd st =
    if-lift (λ s. view s ≡ view st) db.start_ok _ st (λ _. refl) (λ _. refl)
run_logged-view db (some events) cmd st =
    finish_log-view db _ _ _
    ∙ if-lift (λ s. view s ≡ view st) db.start_ok _ st (λ _. refl) (λ _. refl)

-- What holds where a part goes on, and what where it returns an error; it does not panic.
abbrev Holds : (View → Type 0) → (View → Type 0) → Outcome → Type 0
Holds P S (goes st) = P (view st)
Holds P S (stops e st) = S (view st)
Holds P S (panics st) = ⊥

>>=-Holds :
    (P Q S : View → Type 0) (o : Outcome) (f : Slot → Outcome)
    → Holds P S o
    → ((st : Slot) → P (view st) → Holds Q S (f st))
    → Holds Q S (o >>= f)
>>=-Holds P Q S (goes st) f h k = k st h
>>=-Holds P Q S (stops e st) f h k = h
>>=-Holds P Q S (panics st) f h k = absurd h

git_result-Holds :
    (P : View → Type 0) (name : String) (st : Slot) (r : Option Completion)
    → P (view st)
    → Holds P P (git_result name (st, r))
git_result-Holds P name st none p = p
git_result-Holds P name st (some c) p =
    if-lift (Holds P P) (exit_zero c.exit_code) (goes st) (stops name st) (λ _. p) (λ _. p)

git_command-Holds :
    (P : View → Type 0) (name : String) (db : CommandLog) (execute : Option (List ExecEvent))
    (cmd : List Bytes) (st : Slot)
    → P (view st)
    → Holds P P (git_command name db execute cmd st)
unfolding git_command exec_and_log
git_command-Holds P name db execute cmd st p =
    git_result-Holds P name (run_logged db execute (redact_command cmd) st).0
      (run_logged db execute (redact_command cmd) st).1
      (subst P (sym (run_logged-view db execute (redact_command cmd) st)) p)

IsAttached-IsAccounted : (v : View) → IsAttached v → IsAccounted v
IsAttached-IsAccounted (row, running) (c, r, e) =
    subst (λ ds. All (λ (d : String). row.container_id ≡ some d) ds) (sym r) (e, tt)

-- A workspace that is ready: its container runs.
abbrev pub IsReady : View → Type 0
IsReady v = (v.0.status ≡ ready) × IsAttached v

logged :
    (P : View → Type 0) (db : Bool) (e : LifecycleEvent) (st : Slot)
    → P (view st)
    → P (view (log_lifecycle db e st))
logged P db e st p = subst P (sym (log_lifecycle-view db e st)) p

log_clone-view : (env : ProvisionEnv) (st : Slot) → view (log_clone env st) ≡ view st
log_clone-view env st =
    log_lifecycle-view (env.log_ok repo_cloning) repo_cloning
      (log_lifecycle (env.log_ok workspace_created) workspace_created st)
    ∙ log_lifecycle-view (env.log_ok workspace_created) workspace_created st

log_checkout-view : (env : ProvisionEnv) (st : Slot) → view (log_checkout env st) ≡ view st
log_checkout-view env st =
    log_lifecycle-view (env.log_ok repo_checkout) repo_checkout
      (log_lifecycle (env.log_ok repo_cloned) repo_cloned st)
    ∙ log_lifecycle-view (env.log_ok repo_cloned) repo_cloned st

clone_repository-Holds :
    (P : View → Type 0) (env : ProvisionEnv) (t repo : Bytes) (st : Slot)
    → P (view st)
    → Holds P P (clone_repository env t repo st)
unfolding clone_repository
clone_repository-Holds P env t repo st p =
    git_command-Holds P "git clone" env.clone_log env.clone (clone_command t repo)
      (log_clone env st) (subst P (sym (log_clone-view env st)) p)

check_out-Holds :
    (P : View → Type 0) (env : ProvisionEnv) (commit_sha : Bytes) (st : Slot)
    → P (view st)
    → Holds P P (check_out env commit_sha st)
unfolding check_out
check_out-Holds P env commit_sha st p =
    git_command-Holds P "git checkout" env.checkout_log env.checkout (checkout_command commit_sha)
      (log_checkout env st) (subst P (sym (log_checkout-view env st)) p)

finish_provision-Holds :
    (env : ProvisionEnv) (st : Slot)
    → IsAttached (view st)
    → Holds IsReady IsAttached (finish_provision env st)
unfolding finish_provision mark_ready
finish_provision-Holds env st a =
    if-lift (Holds IsReady IsAttached) env.ready_ok
      (goes (log_lifecycle (env.log_ok workspace_ready) workspace_ready (mark_ready true st)))
      (stops "mark ready" st)
      (λ _.
        logged IsReady (env.log_ok workspace_ready) workspace_ready (mark_ready true st) (refl, a))
      (λ _. a)

fetch_repository-Holds :
    (env : ProvisionEnv) (t repo commit_sha : Bytes) (st : Slot)
    → IsAttached (view st)
    → Holds IsReady IsAttached (fetch_repository env t repo commit_sha st)
unfolding fetch_repository
fetch_repository-Holds env t repo commit_sha st a =
    >>=-Holds IsAttached IsReady IsAttached (clone_repository env t repo st)
      (λ st₁. check_out env commit_sha st₁ >>= finish_provision env)
      (clone_repository-Holds IsAttached env t repo st a)
      (λ st₁ a₁.
        >>=-Holds IsAttached IsReady IsAttached (check_out env commit_sha st₁)
          (finish_provision env) (check_out-Holds IsAttached env commit_sha st₁ a₁)
          (finish_provision-Holds env))

Holds-map :
    (P S T : View → Type 0) (o : Outcome) → ((v : View) → S v → T v) → Holds P S o → Holds P T o
Holds-map P S T (goes st) f h = h
Holds-map P S T (stops e st) f h = f (view st) h
Holds-map P S T (panics st) f h = h

-- A row that is new, and nothing that runs.
abbrev IsNew : View → Type 0
IsNew (row, running) = running ≡ []

IsNew-IsAccounted : (v : View) → IsNew v → IsAccounted v
IsNew-IsAccounted (row, running) e =
    subst (λ ds. All (λ (d : String). row.container_id ≡ some d) ds) (sym e) tt

stop_container_only : (c : String) → stop_container c (c ∷ []) ≡ []
stop_container_only c = rw (==_self c) refl

module _ (env : ProvisionEnv) (kept : (env.set_ok ≡ true) ⊎ (env.destroy_ok ≡ true)) where
  attach_container-Holds :
      (c : String) (st : Slot)
      → IsNew (view st)
      → Holds IsAttached IsAccounted (attach_container env c st)
  unfolding attach_container set_container_id
  attach_container-Holds c st new = elim (Bool-cases env.set_ok) [
    | inl y ↦ rw y (c, ap (λ ds. c ∷ ds) new, refl)
    | inr n ↦ elim kept [
      | inl y ↦ absurd (cc (y, n))
      | inr d ↦
          rw (n, d)
            (IsNew-IsAccounted (st.row, stop_container c (c ∷ st.running))
              (ap (λ ds. stop_container c (c ∷ ds)) new ∙ stop_container_only c))
    ]
  ]

  start_container-Holds :
      (token : Option Bytes) (repo commit_sha : Bytes) (st : Slot)
      → ltb (length commit_sha) 8 ≡ false
      → IsNew (view st)
      → Holds IsReady IsAccounted (provision_steps env token repo commit_sha st)
  unfolding provision_steps start_container
  start_container-Holds token repo commit_sha st long new = rw long (by_token token env.container)
    where
      st' : Slot
      st' = log_lifecycle (env.log_ok workspace_creating) workspace_creating st

      new' : IsNew (view st')
      new' = logged IsNew (env.log_ok workspace_creating) workspace_creating st new

      by_token :
          (token : Option Bytes) (container : Option String)
          → Holds IsReady IsAccounted (elim token [
            | none ↦ stops "get installation token" st'
            | some t ↦ elim container [
              | none ↦ stops "docker provision" st'
              | some c ↦ attach_container env c st' >>= fetch_repository env t repo commit_sha
            ]
          ])
      by_token none container = IsNew-IsAccounted (view st') new'
      by_token (some t) none = IsNew-IsAccounted (view st') new'
      by_token (some t) (some c) =
          >>=-Holds IsAttached IsReady IsAccounted (attach_container env c st') _
            (attach_container-Holds c st' new')
            (λ s a.
              Holds-map IsReady IsAttached IsAccounted (fetch_repository env t repo commit_sha s)
                IsAttached-IsAccounted (fetch_repository-Holds env t repo commit_sha s a))

-- What a call of `Provision` leaves.
abbrev pub Settled : ProvisionEnv → Bytes → Provisioned → Type 0
Settled env commit_sha create_failed = Unit
Settled env commit_sha (returns st) = IsReady (view st)
Settled env commit_sha (refetch_failed st) = IsReady (view st)
Settled env commit_sha (provision_failed st) =
    IsAccounted (view st) × (env.failed_ok ≡ true → st.row.status ≡ failed)
Settled env commit_sha (crashed st) = (ltb (length commit_sha) 8 ≡ true) × (st ≡ new_slot env)

conclude-Settled :
    (env : ProvisionEnv) (commit_sha : Bytes) (o : Outcome)
    → Holds IsReady IsAccounted o
    → Settled env commit_sha (conclude env o)
unfolding mark_failed
conclude-Settled env commit_sha (goes st) h =
    if-lift (Settled env commit_sha) env.refetch_ok (returns st) (refetch_failed st) (λ _. h)
      (λ _. h)
conclude-Settled env commit_sha (stops e st) h = (
  logged IsAccounted (env.log_ok workspace_failed) workspace_failed (mark_failed env.failed_ok e st)
      (if-lift (λ s. IsAccounted (view s)) env.failed_ok _ st (λ _. h) (λ _. h)),
  (λ y.
      logged (λ v. v.0.status ≡ failed) (env.log_ok workspace_failed) workspace_failed
        (mark_failed env.failed_ok e st) (rw y refl)),
)
conclude-Settled env commit_sha (panics st) h = absurd h

-- A workspace that a provisioning returns is ready, and its container runs and is the one of the
-- row. If it fails, every container that still runs is the one of the row, which is failed if the
-- update ran. It panics only for a commit of less than eight bytes, with the row still in
-- provisioning. The row's update with the container's id ran, or the driver destroyed the container.
pub provision-Settled :
    (env : ProvisionEnv) (token : Option Bytes) (repo commit_sha : Bytes)
    → (env.set_ok ≡ true) ⊎ (env.destroy_ok ≡ true)
    → Settled env commit_sha (provision env token repo commit_sha)
unfolding provision
provision-Settled env token repo commit_sha kept =
    if-lift (Settled env commit_sha) env.create_ok _ create_failed
      (λ _. elim (Bool-cases (ltb (length commit_sha) 8)) [
        | inl short ↦ rw (short, provision_steps) (short, refl)
        | inr long ↦
            conclude-Settled env commit_sha _
              (start_container-Holds env kept token repo commit_sha (new_slot env) long refl)
      ])
      (λ _. tt)
