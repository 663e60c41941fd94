-- ===== src/Examples/Validations.antt =====
-- Validation runs, and the theorems on them.
use forge_engine.Prelude.{◌≡◌, refl, true, false, some, none, List, map, [], ◌∷◌, bytes, All}
use forge_engine.Repair.{Diagnostic}
use forge_engine.Validation.{passed}
use forge_engine.Validation.Stage.{
  StageConfig, StageEnv, exec_error, ran, stdout, exit, insert_diagnostics, run_commands, Shell,
}
use forge_engine.Validation.Stages.{overall_result}
use forge_engine.Validation.Fine.{Succeeded}
use forge_engine.Validation.Soundness.{overall_result_passed}
use forge_engine.Validation.Profiles.{go_default_v1}

abbrev install : StageConfig
install = record {
  name = "install";
  commands = ("go" ∷ "mod" ∷ "download" ∷ []) ∷ [];
  run_on_build_fail = false;
  run_on_install_fail = false;
  optional = false;
}

abbrev good : StageEnv
good = record {
  create_ok = true;
  update_ok = true;
  insert_ok = true;
  exec = λ k. ran (stdout (bytes "ok") ∷ exit (some 0) ∷ []);
  parse = none;
}

-- The daemon does not start the command.
abbrev broken : StageEnv
broken = record good { exec = λ k. exec_error }

-- A test prints the text of an error that it expects.
abbrev noisy : StageEnv
noisy = record good { exec = λ k. ran (stdout (bytes "ok: Access denied") ∷ exit (some 0) ∷ []) }

abbrev one_error : Diagnostic
one_error = record { stage = "lint"; severity = "error"; file_path = none; repair_category = none }

good_run : overall_result ((install, good) ∷ []) ≡ passed
unfolding overall_result insert_diagnostics
good_run = refl

overall_result_passed_example : All Succeeded ((install, good) ∷ [])
unfolding run_commands
overall_result_passed_example =
    overall_result_passed ((install, good) ∷ []) ((refl, refl, refl, (λ e. cc)), tt) good_run

-- A command that reports no end.
abbrev silent : StageEnv
silent = record good { exec = λ k. ran (stdout (bytes "...") ∷ []) }

silent_run : overall_result ((install, silent) ∷ []) ≡ passed
unfolding overall_result insert_diagnostics
silent_run = refl

-- The profile for Go, on a container that starts nothing.
abbrev all_broken : List (StageConfig × StageEnv)
all_broken = map (λ cfg. (cfg, broken)) go_default_v1

abbrev noisy_shell : Shell
noisy_shell = record { exit_code = 0; timed_out = false; combined = bytes "ok: Access denied" }
