-- ===== src/Validation.antt =====
-- backend/internal/validation: the classification of a run (computeOverallResult,
-- computeOverallResultWithOrigin, computeSummary) and the detection of environment failures in
-- validation/environment. Go strings that are searched are lists of bytes, and the case folding is
-- that of ASCII letters, which the patterns are made of.
pub mod Stage
pub mod Stages
pub mod Classes
pub mod Fine
pub mod Soundness
pub mod Gaps
pub mod Profiles
pub mod Reports
use forge_engine.Prelude.{
  ℕ, zero, suc, ◌+◌, String, Bool, true, false, ◌&&◌, ◌||◌, not, Option, none, some, List, [], ◌∷◌,
  ◌++◌, if◌then◌else◌, ◌==◌, ltb, leb, nat_eq, Bytes, bytes, contains_sub,
}
use forge_engine.Repair.{Diagnostic, is_text}

-- `models.ValidationStage`, the fields that decide something.
pub record ValidationStage : Type 0 where
  pub stage : String
  pub status : String

pub record ValidationSummary : Type 0 where
  pub total_errors : ℕ
  pub total_warnings : ℕ
  pub auto_fixable_count : ℕ
  pub needs_human_count : ℕ
  pub build_passed : Bool
  pub tests_passed : Bool
  pub lint_passed : Bool

-- The first loop of `computeSummary`.
unfoldable pub add_diagnostic : Diagnostic → ValidationSummary → ValidationSummary
add_diagnostic d s = record s {
  total_errors = if d.severity == "error" then suc s.total_errors else s.total_errors;
  total_warnings = if d.severity == "warning" then suc s.total_warnings else s.total_warnings;
  auto_fixable_count =
      if is_text d.repair_category "auto_fixable"
      then suc s.auto_fixable_count
      else s.auto_fixable_count;
  needs_human_count =
      if is_text d.repair_category "needs_human"
      then suc s.needs_human_count
      else s.needs_human_count;
}

unfoldable pub add_diagnostics : List Diagnostic → ValidationSummary → ValidationSummary
unfolding add_diagnostic
add_diagnostics [] s = s
add_diagnostics (d ∷ ds) s = add_diagnostics ds (add_diagnostic d s)

-- The second loop.
unfoldable pub add_stages : List ValidationStage → ValidationSummary → ValidationSummary
add_stages [] s = s
add_stages (st ∷ sts) s =
    let ok = st.status == "passed" || st.status == "skipped" in
    add_stages sts (record s {
      build_passed = if st.stage == "build" then ok else s.build_passed;
      tests_passed = if st.stage == "test" then ok else s.tests_passed;
      lint_passed = if st.stage == "lint" then ok else s.lint_passed;
    })

unfoldable pub compute_summary : List ValidationStage → List Diagnostic → ValidationSummary
unfolding add_diagnostics add_stages
compute_summary stages diags = add_stages stages (
    add_diagnostics diags (record {
      total_errors = 0;
      total_warnings = 0;
      auto_fixable_count = 0;
      needs_human_count = 0;
      build_passed = false;
      tests_passed = false;
      lint_passed = false;
    }))

-- The loop that looks for a stage that failed.
unfoldable pub some_failed : List ValidationStage → Bool
some_failed [] = false
some_failed (st ∷ sts) = (st.status == "failed" || st.status == "error") || some_failed sts

abbrev pub needs_human : Option ValidationSummary → Bool
needs_human none = false
needs_human (some s) = ltb 0 s.needs_human_count

abbrev pub has_errors : Option ValidationSummary → Bool
has_errors none = false
has_errors (some s) = ltb 0 s.total_errors

-- The four results, which the code spells as strings.
pub data Overall : Type 0 where
  passed failed_environment failed_requires_human failed_repairable : Overall

abbrev pub overall_text : Overall → String
overall_text passed = "passed"
overall_text failed_environment = "failed_environment"
overall_text failed_requires_human = "failed_requires_human"
overall_text failed_repairable = "failed_repairable"

unfoldable pub compute_overall_result : List ValidationStage → Option ValidationSummary → Overall
unfolding some_failed
compute_overall_result stages s =
    if some_failed stages
    then if needs_human s then failed_requires_human else failed_repairable
    else elim s [
      | none ↦ passed
      | some t ↦
          if ltb 0 t.needs_human_count
          then failed_requires_human
          else if ltb 0 t.total_errors
          then failed_repairable
          else passed
    ]

abbrev pub is_clean : Option ValidationSummary → Bool
is_clean none = true
is_clean (some s) = nat_eq s.total_errors 0 && nat_eq s.needs_human_count 0

unfoldable pub compute_overall_result_with_origin :
    List ValidationStage → Option ValidationSummary → Bool → Overall
unfolding some_failed
compute_overall_result_with_origin stages s has_environment_failure =
    if not (some_failed stages)
    then if is_clean s
      then passed
      else if needs_human s
      then failed_requires_human
      else failed_repairable
    else if has_environment_failure
    then failed_environment
    else if needs_human s
    then failed_requires_human
    else failed_repairable

-- `environment.Signature`; the origin is the same in all.
pub record Signature : Type 0 where
  pub category : String
  pub patterns : List Bytes

abbrev pub signatures : List Signature
signatures =
    record {
      category = "disk_full";
      patterns =
          bytes "no space left on device"
          ∷ bytes "no space available"
          ∷ bytes "disk full"
          ∷ bytes "errno 28"
          ∷ [];
    }
    ∷ record {
      category = "out_of_memory";
      patterns =
          bytes "out of memory"
          ∷ bytes "cannot allocate memory"
          ∷ bytes "memory exhausted"
          ∷ bytes "oom killer"
          ∷ [];
    }
    ∷ record {
      category = "permission_denied";
      patterns = bytes "permission denied" ∷ bytes "access denied" ∷ bytes "errno 13" ∷ [];
    }
    ∷ record {
      category = "network_failure";
      patterns =
          bytes "connection refused"
          ∷ bytes "connection timed out"
          ∷ bytes "network unreachable"
          ∷ bytes "dns resolution failed"
          ∷ bytes "could not resolve host"
          ∷ [];
    }
    ∷ record {
      category = "registry_failure";
      patterns =
          bytes "could not find a version that satisfies the requirement"
          ∷ bytes "package not found"
          ∷ bytes "404 not found"
          ∷ bytes "registry error"
          ∷ bytes "unable to fetch"
          ∷ [];
    }
    ∷ record {
      category = "tool_missing";
      patterns = bytes "command not found" ∷ bytes "executable not found" ∷ [];
    }
    ∷ []

-- `strings.ToLower`
unfoldable pub to_lower : Bytes → Bytes
to_lower [] = []
to_lower (c ∷ s) = (if leb 65 c && leb c 90 then c + 32 else c) ∷ to_lower s

unfoldable pub matches_signature : Bytes → List Bytes → Bool
unfolding contains_sub to_lower
matches_signature combined_lower [] = false
matches_signature combined_lower (p ∷ ps) =
    contains_sub combined_lower (to_lower p) || matches_signature combined_lower ps

unfoldable pub detect_in : Bytes → List Signature → Option String
unfolding matches_signature
detect_in combined_lower [] = none
detect_in combined_lower (sig ∷ sigs) =
    let rest = detect_in combined_lower sigs in
    if matches_signature combined_lower sig.patterns then some sig.category else rest

-- `Detector.Detect`: the category of the result. Every category is a failure in the sense of
-- `IsFailure`.
unfoldable pub detect : Bytes → ℕ → Option String
unfolding detect_in to_lower
detect combined_output exit_code =
    if nat_eq exit_code 127
    then some "tool_missing"
    else detect_in (to_lower combined_output) signatures
