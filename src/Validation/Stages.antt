-- ===== src/Validation/Stages.antt =====
-- The stage loop of `Run` in backend/internal/validation/orchestrator.go, and the result of the run.
use forge_engine.Prelude.{
  Bool, true, false, ◌&&◌, ◌||◌, not, none, some, List, [], ◌∷◌, ◌++◌, String, if◌then◌else◌, ◌==◌,
}
use forge_engine.Repair.{Diagnostic}
use forge_engine.Validation.{
  ValidationStage, Overall, compute_summary, compute_overall_result_with_origin,
}
use forge_engine.Validation.Stage.{StageConfig, StageEnv, StageResult, run_stage, skip_stage}

-- The variables of the loop of `Run`, with the rows written so far.
pub record Run : Type 0 where
  pub build_passed : Bool
  pub install_passed : Bool
  pub has_environment_failure : Bool
  pub stages : List ValidationStage
  pub diagnostics : List Diagnostic

abbrev pub start_run : Run
start_run = record {
  build_passed = true;
  install_passed = true;
  has_environment_failure = false;
  stages = [];
  diagnostics = [];
}

abbrev pub is_skipped : Run → StageConfig → Bool
is_skipped run cfg =
    (not run.install_passed && not cfg.run_on_install_fail)
    || (not run.build_passed && not cfg.run_on_build_fail)

-- The rows of a stage, after those before it.
abbrev pub add_rows : String → StageResult → Run → Run
add_rows name r run = record run {
  stages =
      run.stages
      ++ elim r.row [ none ↦ [] | some status ↦ record { stage = name; status = status } ∷ [] ];
  diagnostics = run.diagnostics ++ r.diags;
}

-- The body of the loop.
unfoldable pub step_stage : StageConfig → StageEnv → Run → Run
unfolding run_stage skip_stage
step_stage cfg env run =
    if is_skipped run cfg
    then add_rows cfg.name (skip_stage env) run
    else let r = run_stage cfg env in
      let run' = add_rows cfg.name r run in
      record run' {
        has_environment_failure = r.environment_failure || run.has_environment_failure;
        install_passed =
            if cfg.name == "install" && not r.stage_passed then false else run.install_passed;
        build_passed =
            if cfg.name == "build" && not r.stage_passed then false else run.build_passed;
      }

unfoldable pub run_stages : List (StageConfig × StageEnv) → Run → Run
unfolding step_stage
run_stages [] run = run
run_stages ((cfg, env) ∷ stages) run = run_stages stages (step_stage cfg env run)

-- The result of the run, once its rows are read back.
unfoldable pub overall_result : List (StageConfig × StageEnv) → Overall
unfolding run_stages compute_summary compute_overall_result_with_origin
overall_result stages =
    let run = run_stages stages start_run in
    compute_overall_result_with_origin run.stages
      (some (compute_summary run.stages run.diagnostics)) run.has_environment_failure
