-- ===== src/Validation/Profiles.antt =====
-- The stages of the profile go_default_v1 in backend/internal/validation/profiles.go, without their
-- numbers and timeouts.
use forge_engine.Prelude.{String, true, false, Bool, List, [], ◌∷◌}
use forge_engine.Validation.Stage.{StageConfig}

-- A stage with one command, that is not run after a failed install.
abbrev one_command : String → List String → Bool → Bool → StageConfig
one_command name command run_on_build_fail optional = record {
  name = name;
  commands = command ∷ [];
  run_on_build_fail = run_on_build_fail;
  run_on_install_fail = false;
  optional = optional;
}

abbrev pub go_default_v1 : List StageConfig
go_default_v1 =
    one_command "install" ("go" ∷ "mod" ∷ "download" ∷ []) false false
    ∷ one_command "build" ("go" ∷ "build" ∷ "./..." ∷ []) false false
    ∷ one_command "test" ("go" ∷ "test" ∷ "-json" ∷ "-timeout" ∷ "120s" ∷ "./..." ∷ []) false false
    ∷ one_command "lint" ("golangci-lint" ∷ "run" ∷ "--out-format" ∷ "json" ∷ []) true true
    ∷ []
