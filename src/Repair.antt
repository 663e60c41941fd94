-- ===== src/Repair.antt =====
-- backend/internal/repair: the policy gate of policy.go and the verdict on an attempt of
-- compareValidationOutcomes in orchestrator.go. Text that only a log or a client reads is left out,
-- and with it the identity sets of the verdict, which its comment keeps for observability; Identity has
-- the key of a diagnostic in them.
pub mod Session
pub mod Checkpoint
pub mod Loop
pub mod Verdict
pub mod Passing
pub mod Budget
pub mod Capture
pub mod Loss
pub mod Restore
pub mod Identity
pub mod Positions
use forge_engine.Prelude.{
  ℕ, zero, suc, String, Bool, true, false, ◌&&◌, ◌||◌, not, Option, none, some, List, [], ◌∷◌, ◌++◌,
  if◌then◌else◌, ◌==◌, ltb, contains,
}

-- `models.ValidationDiagnostic`, the fields that decide something.
pub record Diagnostic : Type 0 where
  pub stage : String
  pub severity : String
  pub file_path : Option String
  pub repair_category : Option String

-- `models.ValidationRun`
pub record ValidationRun : Type 0 where
  pub id : String
  pub overall_result : Option String
  pub diagnostics : List Diagnostic

pub record RepairDecision : Type 0 where
  pub allowed : Bool
  pub repairable_diags : List Diagnostic
  pub denial_reason : String

-- `p != nil && *p == s`
abbrev pub is_text : Option String → String → Bool
is_text none s = false
is_text (some t) s = t == s

-- The loop that filters the diagnostics.
unfoldable pub auto_fixable : List Diagnostic → List Diagnostic
auto_fixable [] = []
auto_fixable (d ∷ ds) =
    let rest = auto_fixable ds in
    if is_text d.repair_category "auto_fixable" then d ∷ rest else rest

unfoldable pub evaluate : ValidationRun → RepairDecision
unfolding auto_fixable
evaluate run =
    if not (is_text run.overall_result "failed_repairable")
    then record {
      allowed = false;
      repairable_diags = [];
      denial_reason = "validation result is not repairable";
    }
    else elim (auto_fixable run.diagnostics) [
      | [] ↦ record {
        allowed = false;
        repairable_diags = [];
        denial_reason = "no auto-fixable diagnostics found";
      }
      | d ∷ ds ↦ record { allowed = true; repairable_diags = d ∷ ds; denial_reason = "" }
    ]

unfoldable pub count_error_diagnostics : List Diagnostic → ℕ
count_error_diagnostics [] = 0
count_error_diagnostics (d ∷ ds) =
    let rest = count_error_diagnostics ds in if d.severity == "error" then suc rest else rest

-- The keys of the set, one entry for each error.
unfoldable pub failing_stages : List Diagnostic → List String
failing_stages [] = []
failing_stages (d ∷ ds) =
    let rest = failing_stages ds in if d.severity == "error" then d.stage ∷ rest else rest

-- `newlyFailing`
unfoldable pub newly_failing : List String → List String → List String
unfolding contains
newly_failing before [] = []
newly_failing before (s ∷ after) =
    let rest = newly_failing before after in if contains before s then rest else s ∷ rest

-- The outcomes, which the code spells as strings.
pub data Outcome : Type 0 where
  passed improved no_change regressed error : Outcome

unfoldable pub compare_validation_outcomes : ValidationRun → ValidationRun → Outcome
unfolding count_error_diagnostics failing_stages newly_failing
compare_validation_outcomes before after = elim after.overall_result [
  | none ↦ error
  | some result ↦
      if result == "passed"
      then passed
      else if result == "failed_environment"
      then no_change
      else if result == "failed_requires_human"
      then no_change
      else let before_errors = count_error_diagnostics before.diagnostics in
        let after_errors = count_error_diagnostics after.diagnostics in
        elim (newly_failing (failing_stages before.diagnostics)
          (failing_stages after.diagnostics)) [
            | s ∷ ss ↦ regressed
            | [] ↦
                if ltb after_errors before_errors
                then improved
                else if ltb before_errors after_errors
                then regressed
                else no_change
          ]
]
