-- ===== src/Validation/Fine.antt =====
-- What a stage that leaves nothing to fail a run has gone through.
use forge_engine.Prelude.{
  ◌≡◌, ◌≢◌, refl, subst, ◌∙◌, String, Bool, true, false, ◌&&◌, ◌||◌, not, Option, none, some, List,
  [], ◌∷◌, ◌++◌, map, arith, if-lift, Bool-cases, ◌⊎◌, inl, inr, nat_eq, if◌then◌else◌,
}
use forge_engine.Repair.{Diagnostic}
use forge_engine.Validation.{ValidationStage, detect, some_failed}
use forge_engine.Validation.Stage.{
  StageConfig, StageEnv, StageResult, Shell, CommandsEnd, tool_not_found, not_started, ended,
  ParseResponse, run_commands, start_shell, is_some, truncate_str, max_combined, environment_checks,
  environment_diagnostic, finish_stage, shell_passed, unparsed, parsed, run_stage, stored, is_empty,
  insert_diagnostics,
}
use forge_engine.Validation.Reports.{NoFailures, run_commands-NoFailures}
use forge_engine.Validation.Classes.{some_bad}

-- Every statement of the stage ran, and its commands could be started.
abbrev pub IsRecorded : StageConfig × StageEnv → Type 0
IsRecorded (cfg, env) =
    (env.create_ok ≡ true)
    × (env.update_ok ≡ true)
    × (env.insert_ok ≡ true)
    × (run_commands cfg.optional env.exec cfg.commands 0 start_shell ≢ not_started)

-- The stage went through: an optional one whose tool is missing, or one whose commands were started
-- and reported no failure, without the text of an environment failure, and in whose output the agent
-- found nothing that keeps a run from passing. `sh` is the shell after the commands.
abbrev pub Succeeded : StageConfig × StageEnv → Type 0
Succeeded (cfg, env) =
    (run_commands cfg.optional env.exec cfg.commands 0 start_shell ≡ tool_not_found)
    ⊎ ((sh : Shell) × (not_found : Bool) × (run_commands cfg.optional env.exec cfg.commands 0
            start_shell
          ≡ ended sh not_found)
        × NoFailures env.exec cfg.commands 0
        × (sh.exit_code ≡ 0)
        × (sh.timed_out ≡ false)
        × (environment_checks sh ≡ [])
        × ((r : ParseResponse)
            → env.parse ≡ some r
            → some_bad (map (stored cfg.name) r.diagnostics) ≡ false))

pub some_bad-append : (xs ys : List Diagnostic) → some_bad (xs ++ ys) ≡ (some_bad xs || some_bad ys)
some_bad-append [] ys = refl
some_bad-append (x ∷ xs) ys = let rest = some_bad-append xs ys in ground arith

pub some_failed-append :
    (xs ys : List ValidationStage) → some_failed (xs ++ ys) ≡ (some_failed xs || some_failed ys)
unfolding some_failed
some_failed-append [] ys = refl
some_failed-append (x ∷ xs) ys = let rest = some_failed-append xs ys in ground arith

-- The result leaves nothing that keeps a run from passing.
abbrev pub IsFine : StageResult → Type 0
IsFine r = (r.row ≢ some "failed") × (some_bad r.diags ≡ false)

CommandsEnd-cases :
    (e : CommandsEnd)
    → (e ≡ tool_not_found) ⊎ (e ≡ not_started) ⊎ ((sh : Shell) × (b : Bool) × (e ≡ ended sh b))
CommandsEnd-cases tool_not_found = inl refl
CommandsEnd-cases not_started = inr (inl refl)
CommandsEnd-cases (ended sh b) = inr (inr (sh, b, refl))

-- What is known of a shell that leaves a fine result.
abbrev Clean : StageConfig → StageEnv → Shell → Type 0
Clean cfg env sh =
    (sh.exit_code ≡ 0)
    × (sh.timed_out ≡ false)
    × (environment_checks sh ≡ [])
    × ((r : ParseResponse)
        → env.parse ≡ some r
        → some_bad (map (stored cfg.name) r.diagnostics) ≡ false)

three_checks :
    (name : String) (a b c : Bool)
    → let checks =
        (if a then environment_diagnostic ∷ [] else [])
        ++ ((if b then environment_diagnostic ∷ [] else [])
            ++ (if c then environment_diagnostic ∷ [] else [])) in
      some_bad (map (stored name) checks) ≡ false → checks ≡ []
three_checks name true b c h = cc
three_checks name false true c h = cc
three_checks name false false true h = cc
three_checks name false false false h = refl

checks_fine :
    (name : String) (sh : Shell)
    → some_bad (map (stored name) (environment_checks sh)) ≡ false
    → environment_checks sh ≡ []
unfolding environment_checks
checks_fine name sh h =
    three_checks name (is_some (detect (truncate_str sh.combined max_combined) sh.exit_code))
      sh.timed_out (nat_eq sh.exit_code 134) h

unparsed-IsFine :
    (cfg : StageConfig) (env : StageEnv) (running : String) (sh : Shell) (b : Bool)
    → env.update_ok ≡ true
    → env.insert_ok ≡ true
    → IsFine (unparsed cfg env running sh b)
    → (shell_passed sh ≡ true) × (environment_checks sh ≡ [])
unfolding insert_diagnostics
unparsed-IsFine cfg env running sh b u i (row, fine) = elim (Bool-cases (shell_passed sh)) [
  | inr n ↦ absurd (row (rw (u, n) refl))
  | inl y ↦
      let both =
        some_bad-append
          (insert_diagnostics env.insert_ok cfg.name
            (if b then environment_diagnostic ∷ [] else []))
          (insert_diagnostics env.insert_ok cfg.name (environment_checks sh)) in
      (
        y,
        checks_fine cfg.name sh (
            subst (λ ok. some_bad (insert_diagnostics ok cfg.name (environment_checks sh)) ≡ false)
              i (ground (arith, both, fine))),
      )
]

shell_passed_inv :
    (sh : Shell) → shell_passed sh ≡ true → (sh.exit_code ≡ 0) × (sh.timed_out ≡ false)
shell_passed_inv sh h = ground arith

-- The agent's answer only adds diagnostics.
parsed-IsFine :
    (cfg : StageConfig) (env : StageEnv) (u : StageResult) (o : Option ParseResponse)
    → env.insert_ok ≡ true
    → IsFine (parsed cfg env u o)
    → IsFine u
      × ((parsed cfg env u o).stage_passed ≡ u.stage_passed)
      × ((r : ParseResponse) → o ≡ some r → some_bad (map (stored cfg.name) r.diagnostics) ≡ false)
unfolding insert_diagnostics
parsed-IsFine cfg env u none i fine = (fine, refl, (λ r e. cc))
parsed-IsFine cfg env u (some q) i (row, fine) =
    let both = some_bad-append u.diags (insert_diagnostics env.insert_ok cfg.name q.diagnostics) in
    let answer =
      subst (λ ok. some_bad (insert_diagnostics ok cfg.name q.diagnostics) ≡ false) i
        (ground (arith, both, fine)) in
    (
      (row, ground (arith, both, fine)),
      refl,
      (λ r e. subst (λ (p : Option ParseResponse). answered_fine p ≡ false) e answer),
    )
  where
    answered_fine : Option ParseResponse → Bool
    answered_fine none = false
    answered_fine (some p) = some_bad (map (stored cfg.name) p.diagnostics)

finish_stage-Clean :
    (cfg : StageConfig) (env : StageEnv) (running : String) (sh : Shell) (b : Bool)
    → env.update_ok ≡ true
    → env.insert_ok ≡ true
    → IsFine (finish_stage cfg env running sh b)
    → Clean cfg env sh × ((finish_stage cfg env running sh b).stage_passed ≡ true)
unfolding finish_stage
finish_stage-Clean cfg env running sh b u i =
    let raw = unparsed cfg env running sh b in
    if-lift (λ r. IsFine r → Clean cfg env sh × (r.stage_passed ≡ true)) _
      (parsed cfg env raw env.parse) raw
      (λ _ fine.
        let (raw_fine, same, answer) = parsed-IsFine cfg env raw env.parse i fine in
        let (ok, none_found) = unparsed-IsFine cfg env running sh b u i raw_fine in
        let (zero_exit, in_time) = shell_passed_inv sh ok in
        ((zero_exit, in_time, none_found, answer), same ∙ ok))
      (λ shut fine.
        let (ok, none_found) = unparsed-IsFine cfg env running sh b u i fine in
        let (zero_exit, in_time) = shell_passed_inv sh ok in
        absurd (cc (shut, open_test zero_exit in_time none_found)))
  where
    open_test :
        sh.exit_code ≡ 0
        → sh.timed_out ≡ false
        → environment_checks sh ≡ []
        → (is_empty (environment_checks sh) && not (nat_eq sh.exit_code 127) && not sh.timed_out)
          ≡ true
    open_test z t e = rw (e, z, t) refl

pub run_stage-Succeeded :
    (cfg : StageConfig) (env : StageEnv)
    → IsRecorded (cfg, env)
    → IsFine (run_stage cfg env)
    → Succeeded (cfg, env) × ((run_stage cfg env).stage_passed ≡ true)
unfolding run_stage
run_stage-Succeeded cfg env (c, u, i, started) =
    elim (CommandsEnd-cases (run_commands cfg.optional env.exec cfg.commands 0 start_shell)) [
      | inl e ↦ rw (c, e) (λ _. (inl refl, refl))
      | inr (inl e) ↦ absurd (started e)
      | inr (inr (sh, b, e)) ↦
          rw (c, e)
            (λ fine.
              let ((z, t, n, p), ok) = finish_stage-Clean cfg env _ sh b u i fine in
              (
                inr (
                  sh,
                  b,
                  refl,
                  run_commands-NoFailures cfg.optional env.exec cfg.commands 0 start_shell sh b refl
                      e z t,
                  z,
                  t,
                  n,
                  p,
                ),
                ok,
              ))
    ]
