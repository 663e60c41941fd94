-- ===== src/Validation/Gaps.antt =====
-- Two ways in which the classification of a run departs from what its stages did.
use forge_engine.Prelude.{
  ◌≡◌, ◌≢◌, refl, ap, String, Bool, true, false, Option, none, some, List, [], ◌∷◌, ◌++◌, if-lift,
  inl, inr, if◌then◌else◌, All, All-Memᴰ,
}
use forge_engine.Validation.{ValidationStage, some_failed, passed, detect}
use forge_engine.Validation.Stage.{
  StageConfig, StageEnv, StageResult, Shell, ended, exec_error, is_empty, run_commands, start_shell,
  run_stage, finish_stage, unparsed, parsed, ParseResponse, environment_checks, truncate_str,
  max_combined, is_some, AgentDiagnostic, environment_diagnostic,
}
use forge_engine.Validation.Stages.{Run, overall_result}
use forge_engine.Validation.Classes.{some_bad}
use mathlib.Core.List.{Memᴰ}
use forge_engine.Validation.Soundness.{overall_result_passed}
use forge_engine.Validation.Fine.{IsRecorded, Succeeded}

-- The stage has a command, and its first one cannot be started.
abbrev pub IsUnstarted : StageConfig × StageEnv → Type 0
IsUnstarted (cfg, env) = (is_empty cfg.commands ≡ false) × (env.exec 0 ≡ exec_error)

abbrev IsOpen : Run → Type 0
IsOpen run = (some_failed run.stages ≡ false) × (some_bad run.diagnostics ≡ false)

abbrev rows_of : String → Option String → List ValidationStage
rows_of name none = []
rows_of name (some status) = record { stage = name; status = status } ∷ []

-- The result adds nothing that fails a run.
abbrev IsQuiet : String → StageResult → Type 0
IsQuiet name r = (some_failed (rows_of name r.row) ≡ false) × (some_bad r.diags ≡ false)

finish_stage-row :
    (cfg : StageConfig) (env : StageEnv) (running : String) (sh : Shell) (b : Bool)
    → env.update_ok ≡ true
    → sh.exit_code ≡ 0
    → sh.timed_out ≡ false
    → (finish_stage cfg env running sh b).row ≡ some "passed"
unfolding finish_stage
finish_stage-row cfg env running sh b u z t =
    if-lift (λ r. r.row ≡ some "passed") _
      (parsed cfg env (unparsed cfg env running sh b) env.parse) (unparsed cfg env running sh b)
      (λ _. answered env.parse) (λ _. raw)
  where
    raw : (unparsed cfg env running sh b).row ≡ some "passed"
    raw = rw (u, z, t) refl

    answered :
        (o : Option ParseResponse)
        → (parsed cfg env (unparsed cfg env running sh b) o).row ≡ some "passed"
    answered none = raw
    answered (some r) = raw

check_holds :
    (b : Bool) (x : AgentDiagnostic) (xs : List AgentDiagnostic)
    → b ≡ true
    → ((if b then x ∷ [] else []) ++ xs) ≢ []
check_holds true x xs e h = cc
check_holds false x xs e h = cc

flagged_checks :
    (sh : Shell) (category : String)
    → detect (truncate_str sh.combined max_combined) sh.exit_code ≡ some category
    → environment_checks sh ≢ []
unfolding environment_checks
flagged_checks sh category d =
    check_holds (is_some (detect (truncate_str sh.combined max_combined) sh.exit_code))
      environment_diagnostic _ (ap is_some d)

-- A stage whose commands end with exit code 0 in time has a row that says passed; and yet a run with
-- such a stage is never classified as passed, if the stage's output has the text of an environment
-- failure somewhere: the detector does not ask whether the stage failed.
pub overall_result_flagged :
    (stages : List (StageConfig × StageEnv)) (cfg : StageConfig) (env : StageEnv) (sh : Shell)
    (not_found : Bool) (category : String)
    → All IsRecorded stages
    → Memᴰ (cfg, env) stages
    → run_commands cfg.optional env.exec cfg.commands 0 start_shell ≡ ended sh not_found
    → sh.exit_code ≡ 0
    → sh.timed_out ≡ false
    → detect (truncate_str sh.combined max_combined) sh.exit_code ≡ some category
    → ((run_stage cfg env).row ≡ some "passed") × (overall_result stages ≢ passed)
unfolding run_stage
overall_result_flagged stages cfg env sh not_found category recorded m e z t d = (
  let (c, u, i, started) = All-Memᴰ IsRecorded stages (cfg, env) recorded m in
      rw (c, e) (finish_stage-row cfg env _ sh not_found u z t),
  (λ h. unclean (All-Memᴰ Succeeded stages (cfg, env) (overall_result_passed stages recorded h) m)),
)
  where
    unclean : Succeeded (cfg, env) → ⊥
    unclean (inl q) = cc (q, e)
    unclean (inr (sh', b, q, ran, z', t', n, p)) = flagged_checks sh category d (cc (q, e, n))
