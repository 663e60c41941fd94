-- ===== src/Validation/Classes.antt =====
-- The classification of a run by its rows: the two functions agree, and the summary counts what the
-- repair counts.
use forge_engine.Prelude.{
  ℕ, suc, ◌+◌, ◌≡◌, ◌↔◌, refl, Bool, true, false, ◌&&◌, ◌||◌, not, Option, none, some, List, [],
  ◌∷◌, arith, nat_eq, if◌then◌else◌, ◌==◌,
}
use forge_engine.Repair.{Diagnostic, is_text, count_error_diagnostics}
use forge_engine.Validation.{
  ValidationStage, ValidationSummary, add_diagnostic, add_diagnostics, add_stages, compute_summary,
  some_failed, is_clean, passed, compute_overall_result, compute_overall_result_with_origin,
}

-- Without an environment failure the two classifications agree, for every run.
pub compute_overall_result_agrees :
    (stages : List ValidationStage) (s : Option ValidationSummary)
    → compute_overall_result_with_origin stages s false ≡ compute_overall_result stages s
unfolding compute_overall_result_with_origin compute_overall_result
compute_overall_result_agrees stages none = ground arith
compute_overall_result_agrees stages (some s) = ground arith

-- A diagnostic that keeps a run from passing.
abbrev pub is_bad : Diagnostic → Bool
is_bad d = d.severity == "error" || is_text d.repair_category "needs_human"

abbrev pub some_bad : List Diagnostic → Bool
some_bad [] = false
some_bad (d ∷ ds) = is_bad d || some_bad ds

count_needs_human : List Diagnostic → ℕ
count_needs_human [] = 0
count_needs_human (d ∷ ds) =
    let rest = count_needs_human ds in
    if is_text d.repair_category "needs_human" then suc rest else rest

add_diagnostics-counts :
    (ds : List Diagnostic) (s : ValidationSummary)
    → ((add_diagnostics ds s).total_errors ≡ s.total_errors + count_error_diagnostics ds)
      × ((add_diagnostics ds s).needs_human_count ≡ s.needs_human_count + count_needs_human ds)
unfolding add_diagnostics add_diagnostic count_error_diagnostics count_needs_human
add_diagnostics-counts [] s = (omega arith, omega arith)
add_diagnostics-counts (d ∷ ds) s =
    let (e, h) = add_diagnostics-counts ds (add_diagnostic d s) in
    (ground (arith, e), ground (arith, h))

add_stages-counts :
    (sts : List ValidationStage) (s : ValidationSummary)
    → ((add_stages sts s).total_errors ≡ s.total_errors)
      × ((add_stages sts s).needs_human_count ≡ s.needs_human_count)
unfolding add_stages
add_stages-counts [] s = (refl, refl)
add_stages-counts (st ∷ sts) s = add_stages-counts sts _

abbrev no_counts : ValidationSummary
no_counts = record {
  total_errors = 0;
  total_warnings = 0;
  auto_fixable_count = 0;
  needs_human_count = 0;
  build_passed = false;
  tests_passed = false;
  lint_passed = false;
}

compute_summary-counts :
    (stages : List ValidationStage) (ds : List Diagnostic)
    → ((compute_summary stages ds).total_errors ≡ count_error_diagnostics ds)
      × ((compute_summary stages ds).needs_human_count ≡ count_needs_human ds)
unfolding compute_summary
compute_summary-counts stages ds =
    let (e, h) = add_diagnostics-counts ds no_counts in
    let (e', h') = add_stages-counts stages (add_diagnostics ds no_counts) in
    (omega (arith, e, e'), omega (arith, h, h'))

-- The errors of the summary are those that the repair's verdict counts.
pub compute_summary-errors :
    (stages : List ValidationStage) (ds : List Diagnostic)
    → (compute_summary stages ds).total_errors ≡ count_error_diagnostics ds
compute_summary-errors stages ds = (compute_summary-counts stages ds).0

counts_bad :
    (ds : List Diagnostic)
    → (nat_eq (count_error_diagnostics ds) 0 && nat_eq (count_needs_human ds) 0) ≡ not (some_bad ds)
unfolding count_error_diagnostics count_needs_human
counts_bad [] = refl
counts_bad (d ∷ ds) = let rest = counts_bad ds in ground arith

compute_summary-is_clean :
    (stages : List ValidationStage) (ds : List Diagnostic)
    → is_clean (some (compute_summary stages ds)) ≡ not (some_bad ds)
compute_summary-is_clean stages ds =
    let (e, h) = compute_summary-counts stages ds in let c = counts_bad ds in rw (e, h) c

-- The result is passed exactly where the tests say so.
overall_passed_iff :
    (failed : Bool) (s : Option ValidationSummary) (env : Bool) (stages : List ValidationStage)
    → some_failed stages ≡ failed
    → (compute_overall_result_with_origin stages s env ≡ passed)
      ↔ ((some_failed stages ≡ false) × (is_clean s ≡ true))
unfolding compute_overall_result_with_origin
overall_passed_iff failed s env stages e = ground arith

-- A run is classified as passed exactly when no row says failed or error and no diagnostic is an
-- error or needs a human, whatever the environment flag.
pub compute_overall_result_passed :
    (stages : List ValidationStage) (ds : List Diagnostic) (env : Bool)
    → (compute_overall_result_with_origin stages (some (compute_summary stages ds)) env ≡ passed)
      ↔ ((some_failed stages ≡ false) × (some_bad ds ≡ false))
compute_overall_result_passed stages ds env =
    let i =
      overall_passed_iff (some_failed stages) (some (compute_summary stages ds)) env stages refl in
    let c = compute_summary-is_clean stages ds in
    (
      (λ h. let (f, k) = i.0 h in (f, ground (arith, c, k))),
      (λ (f, b). i.1 (f, ground (arith, c, b))),
    )
