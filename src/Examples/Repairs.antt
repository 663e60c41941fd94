-- ===== src/Examples/Repairs.antt =====
-- Repair sessions and rollbacks, and the theorems on them.
use forge_engine.Prelude.{
  ◌≡◌, bytes, refl, true, false, some, none, List, [], ◌∷◌, ℕ, zero, suc, contains,
}
use forge_engine.WorkItem.{Status, Approval, repairing}
use forge_engine.Repair.{Diagnostic, ValidationRun, compare_validation_outcomes}
use forge_engine.Repair.Session.{
  Round, State, repaired, repair_passed, attempts, SessionStatus, completed,
}
use forge_engine.Repair.Verdict.{Means, compare_validation_outcomes-Means}
use forge_engine.Repair.Budget.{attempts-ends}
use forge_engine.Repair.Passing.{attempts-leaves}
use forge_engine.Repair.Checkpoint.{
  Files, RollbackEnv, StreamEvent, calls_write_file, changes, attempt_then_rollback, set_file,
}
use forge_engine.Repair.Identity.{KeyFields, diagnostic_identity}
use forge_engine.Repair.Positions.{diagnostic_identity-moved}
use forge_engine.Repair.Loss.{attempt_then_rollback_deletes}

abbrev lint_error : Diagnostic
lint_error = record {
  stage = "lint";
  severity = "error";
  file_path = some "a.go";
  repair_category = some "auto_fixable";
}

abbrev test_error : Diagnostic
test_error = record {
  stage = "test";
  severity = "error";
  file_path = some "b.go";
  repair_category = none;
}

abbrev trigger : ValidationRun
trigger = record {
  id = "v0";
  overall_result = some "failed_repairable";
  diagnostics = lint_error ∷ test_error ∷ [];
}

abbrev better : ValidationRun
better = record {
  id = "v1";
  overall_result = some "failed_repairable";
  diagnostics = test_error ∷ [];
}

abbrev clean : ValidationRun
clean = record { id = "v2"; overall_result = some "passed"; diagnostics = [] }

-- The first attempt improves, the second passes.
abbrev rounds : ℕ → Round
rounds n = record {
  cancels_before = false;
  cancels_during = false;
  poll_ok = true;
  elapsed = n;
  increment_ok = true;
  attempt = repaired;
  validation = elim n [ zero ↦ none | suc k ↦ elim k [ zero ↦ some better | suc j ↦ some clean ] ];
  mark_ok = true;
  item_ok = true;
}

abbrev start : State
start = record {
  session = record {
    status = SessionStatus.running;
    max_attempts = 3;
    attempts_used = 0;
    max_duration_secs = 1800;
    final_validation_run_id = none;
    escalation_reason = none;
  };
  item = record {
    org_id = "acme";
    intent = "fix it";
    status = repairing;
    approval_status = Approval.approved;
    error = none;
  };
  last_validation_run_id = "v0";
  attempted = [];
  rolled_back = [];
}

session_passes : (attempts rounds trigger 3 1 start).1 ≡ repair_passed
unfolding attempts
session_passes = refl

compare_validation_outcomes-Means_example :
    Means trigger better (compare_validation_outcomes trigger better)
compare_validation_outcomes-Means_example = compare_validation_outcomes-Means trigger better

attempts-ends_example : (attempts rounds trigger 3 1 start).0.session.status ≡ completed
unfolding attempts
attempts-ends_example = attempts-ends rounds trigger 3 1 start (λ k. refl)

attempts-leaves_example : (attempts rounds trigger 3 1 start).0.item.status ≡ Status.done
unfolding attempts
attempts-leaves_example = attempts-leaves rounds trigger 3 1 start (λ k. refl) refl

-- One file exists; the agent rewrites it and makes another.
abbrev tree : Files
unfolding set_file
tree = set_file (λ q. none) "a.go" (some "old")

abbrev rollback : RollbackEnv
rollback = record { persist_ok = true; load_ok = true; write_ok = λ k. true; json_text = λ s. s }

-- The same file under a path with a slash: the second capture reads what the agent wrote.
slash_aliases :
    attempt_then_rollback rollback tree []
      (calls_write_file "a.go" true
        ∷ changes "a.go" (some "new")
        ∷ calls_write_file "/a.go" true
        ∷ [])
      ("/a.go" ∷ [])
      "a.go"
    ≡ some "new"
unfolding attempt_then_rollback tree
slash_aliases = refl

abbrev stream : List StreamEvent
stream =
    calls_write_file "a.go" true
    ∷ changes "a.go" (some "new")
    ∷ calls_write_file "c.go" true
    ∷ changes "c.go" (some "made")
    ∷ []

attempt_then_rollback_deletes_example :
    attempt_then_rollback rollback tree
      ((test_error, true) ∷ [])
      (changes "a.go" (some "new") ∷ [])
      ("b.go" ∷ "a.go" ∷ [])
      "a.go"
    ≡ none
unfolding contains
attempt_then_rollback_deletes_example =
    attempt_then_rollback_deletes rollback tree ((test_error, true) ∷ [])
      (changes "a.go" (some "new") ∷ []) ("b.go" ∷ "a.go" ∷ []) "a.go" (refl, refl, (λ k. refl))
      (refl, (refl, tt)) (refl, (refl, tt)) (refl, tt) refl refl

abbrev key_fields : KeyFields
key_fields = record {
  stage = bytes "lint";
  tool = bytes "ruff";
  category = bytes "style";
  severity = bytes "error";
  file_path = some (bytes "a.py");
  message = bytes " Line 42:  too long";
}

identity_of_key :
    diagnostic_identity key_fields ≡ bytes "lint:ruff:style:error:a.py:line #: too long"
unfolding diagnostic_identity
identity_of_key = refl

-- The line 42 becomes the line 105.
diagnostic_identity-moved_example :
    diagnostic_identity (record key_fields { message = bytes " Line 42:  too long" })
    ≡ diagnostic_identity (record key_fields { message = bytes " Line 105:  too long" })
diagnostic_identity-moved_example =
    diagnostic_identity-moved key_fields (bytes " Line ") (bytes "42") (bytes "105")
      (bytes ":  too long") (refl, (refl, tt)) (refl, (refl, (refl, tt)))
