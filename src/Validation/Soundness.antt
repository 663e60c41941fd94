-- ===== src/Validation/Soundness.antt =====
-- A passed run has passed stages only.
use forge_engine.Prelude.{
  ◌≡◌, refl, subst, String, true, false, ◌&&◌, ◌||◌, not, Option, none, some, List, [], ◌∷◌, arith,
  if-lift, if◌then◌else◌, ◌==◌, All,
}
use forge_engine.Validation.{ValidationStage, some_failed, passed}
use forge_engine.Validation.Stage.{StageConfig, StageEnv, StageResult, run_stage, skip_stage}
use forge_engine.Validation.Stages.{
  Run, start_run, step_stage, run_stages, add_rows, is_skipped, overall_result,
}
use forge_engine.Validation.Classes.{some_bad, compute_overall_result_passed}
use forge_engine.Validation.Fine.{
  IsRecorded, Succeeded, IsFine, some_bad-append, some_failed-append, run_stage-Succeeded,
}

-- A run that goes on to pass has left nothing that keeps it from passing so far.
abbrev IsOpen : Run → Type 0
IsOpen run = (some_failed run.stages ≡ false) × (some_bad run.diagnostics ≡ false)

abbrev rows_of : String → Option String → List ValidationStage
rows_of name none = []
rows_of name (some status) = record { stage = name; status = status } ∷ []

failed_row :
    (name : String) (o : Option String) → o ≡ some "failed" → some_failed (rows_of name o) ≡ true
unfolding some_failed
failed_row name o e = rw e refl

add_rows-IsOpen :
    (name : String) (r : StageResult) (run : Run)
    → IsOpen (add_rows name r run)
    → IsOpen run × IsFine r
add_rows-IsOpen name r run (f, b) =
    let rows = some_failed-append run.stages (rows_of name r.row) in
    let ds = some_bad-append run.diagnostics r.diags in
    (
      (ground (arith, rows, f), ground (arith, ds, b)),
      ((λ e. cc (failed_row name r.row e, only_rows)), ground (arith, ds, b)),
    )
  where
    only_rows : some_failed (rows_of name r.row) ≡ false
    only_rows =
        let rows = some_failed-append run.stages (rows_of name r.row) in ground (arith, rows, f)

-- The flags of the loop after a stage that was run.
abbrev flags_after : StageConfig → StageResult → Run → Run
flags_after cfg r run = record (add_rows cfg.name r run) {
  has_environment_failure = r.environment_failure || run.has_environment_failure;
  install_passed =
      if cfg.name == "install" && not r.stage_passed then false else run.install_passed;
  build_passed = if cfg.name == "build" && not r.stage_passed then false else run.build_passed;
}

step_stage-IsOpen :
    (cfg : StageConfig) (env : StageEnv) (run : Run) → IsOpen (step_stage cfg env run) → IsOpen run
unfolding step_stage
step_stage-IsOpen cfg env run =
    if-lift (λ run'. IsOpen run' → IsOpen run) (is_skipped run cfg)
      (add_rows cfg.name (skip_stage env) run) (flags_after cfg (run_stage cfg env) run)
      (λ _ o. (add_rows-IsOpen cfg.name (skip_stage env) run o).0)
      (λ _ o. (add_rows-IsOpen cfg.name (run_stage cfg env) run o).0)

run_stages-IsOpen :
    (stages : List (StageConfig × StageEnv)) (run : Run)
    → IsOpen (run_stages stages run)
    → IsOpen run
unfolding run_stages
run_stages-IsOpen [] run o = o
run_stages-IsOpen ((cfg, env) ∷ stages) run o =
    step_stage-IsOpen cfg env run (run_stages-IsOpen stages (step_stage cfg env run) o)

-- While install and build have passed, no stage is skipped.
step_stage_runs :
    (cfg : StageConfig) (env : StageEnv) (run : Run)
    → run.install_passed ≡ true
    → run.build_passed ≡ true
    → step_stage cfg env run ≡ flags_after cfg (run_stage cfg env) run
unfolding step_stage
step_stage_runs cfg env run i b = rw (is_skipped_not run cfg i b) refl
  where
    is_skipped_not :
        (run : Run) (cfg : StageConfig)
        → run.install_passed ≡ true
        → run.build_passed ≡ true
        → is_skipped run cfg ≡ false
    is_skipped_not run cfg i b = ground arith

run_stages-Succeeded :
    (stages : List (StageConfig × StageEnv)) (run : Run)
    → run.install_passed ≡ true
    → run.build_passed ≡ true
    → All IsRecorded stages
    → IsOpen (run_stages stages run)
    → All Succeeded stages
unfolding run_stages
run_stages-Succeeded [] run i b recorded o = tt
run_stages-Succeeded ((cfg, env) ∷ stages) run i b (r, rs) o =
    let next = step_stage_runs cfg env run i b in
    let o' = subst (λ run'. IsOpen (run_stages stages run')) next o in
    let result = run_stage cfg env in
    let fine =
      (add_rows-IsOpen cfg.name result run
        (run_stages-IsOpen stages (flags_after cfg result run) o')).1 in
    let (done, ok) = run_stage-Succeeded cfg env r fine in
    (
      done,
      run_stages-Succeeded stages (flags_after cfg result run) (ground (arith, ok, i))
          (ground (arith, ok, b)) rs o',
    )

-- If a run is classified as passed, the statements of the database ran, and every command could be
-- started, then every stage of the profile went through: none was skipped for a failed install or
-- build, and each either is optional and its tool is missing, or none of its commands reported a
-- timeout or, in the end, an exit code other than 0, and the stage has no diagnostic that fails a
-- run. A command that reports no end at all counts among those without failure.
pub overall_result_passed :
    (stages : List (StageConfig × StageEnv))
    → All IsRecorded stages
    → overall_result stages ≡ passed
    → All Succeeded stages
unfolding overall_result
overall_result_passed stages recorded h =
    let run = run_stages stages start_run in
    run_stages-Succeeded stages start_run refl refl recorded
      ((compute_overall_result_passed run.stages run.diagnostics run.has_environment_failure).0 h)
