-- ===== src/Examples/Publishings.antt =====
-- An item that is published, and the theorems on the pipeline.
use forge_engine.Prelude.{
  ◌≡◌, ◌≤◌, ℕ, ◌<◌, ◌+◌, leb, ◌&&◌, ◌||◌, if◌then◌else◌, refl, true, false, Bool, some, none, List,
  [], ◌∷◌, All, length, bytes, has_prefix, contains_sub, Option, arith,
}
use forge_engine.WorkItem
use forge_engine.Workspace.Driver.{ExecEvent, stdout, exit, timeout}
use forge_engine.Publishing.Text.{
  Unicode, is_alnum, generate_branch_name, redact_token, slugify, staged_path,
}
use forge_engine.Publishing.Secrets.{redact_token_free, has_no_star}
use forge_engine.Publishing.Branches.{generate_branch_name-IsRef, IsRefChar}
use forge_engine.Publishing.Rows.{State, GitBranch, PullRequest, pushing}
use forge_engine.Publishing.Steps.{Env, PublishRequest}
use forge_engine.Publishing.Run.{
  RunEnv, Ending, returns_nil, returns_error, crashes, waits, run_publishing,
}
use forge_engine.Publishing.Ending.{Fine, run_publishing-Fine}

-- The tables for ASCII and a few letters beyond.
abbrev tables : Unicode
tables = record {
  is_letter = λ r. (leb 65 r && leb r 90) || ((leb 97 r && leb r 122) || leb 12353 r);
  is_digit = λ r. leb 48 r && leb r 57;
  to_lower = λ r. if leb 65 r && leb r 90 then r + 32 else r;
}

ascii_letter :
    (r : ℕ)
    → r < 128
    → (tables.is_letter r || tables.is_digit r) ≡ true
    → (is_alnum r || (leb 65 r && leb r 90)) ≡ true
ascii_letter r l h = ground arith

no_capital : (r : ℕ) → (leb 65 (tables.to_lower r) && leb (tables.to_lower r) 90) ≡ false
no_capital r = ground arith

-- The letters of another script stay: the bytes of their runes are in the name.
script_test :
    slugify tables (230 ∷ 151 ∷ 165 ∷ 32 ∷ 230 ∷ 156 ∷ 172 ∷ [])
    ≡ 230 ∷ 151 ∷ 165 ∷ 45 ∷ 230 ∷ 156 ∷ 172 ∷ []
unfolding slugify
script_test = refl

slug_test : slugify tables (bytes "Fix  the Login_page!") ≡ bytes "fix-the-login-page"
unfolding slugify
slug_test = refl

name_test :
    generate_branch_name tables (bytes "Fix the login") (bytes "0a1b2c3d-4e5f")
    ≡ bytes "forge/fix-the-login-0a1b2c3d"
unfolding generate_branch_name
name_test = refl

staged_test : staged_path (bytes "/workspace/src/a.go") ≡ bytes "src/a.go"
unfolding staged_path
staged_test = refl

generate_branch_name-IsRef_example :
    (has_prefix
        (generate_branch_name tables (bytes "Fix; rm -rf ~") (bytes "0a1b"))
        (bytes "forge/")
      ≡ true)
    × All IsRefChar (generate_branch_name tables (bytes "Fix; rm -rf ~") (bytes "0a1b"))
    × (length (generate_branch_name tables (bytes "Fix; rm -rf ~") (bytes "0a1b")) ≤ 55)
generate_branch_name-IsRef_example =
    generate_branch_name-IsRef tables (bytes "Fix; rm -rf ~") (bytes "0a1b")
      (ascii_letter, no_capital) (refl, (refl, (refl, (refl, tt))))

redact_test :
    redact_token (bytes "fatal: ghs_secret1 ghs_secret1x") (bytes "ghs_secret1")
    ≡ bytes "fatal: ***REDACTED*** ***REDACTED***x"
unfolding redact_token
redact_test = refl

redact_token_free_example :
    contains_sub
      (redact_token (bytes "fatal: ghs_secret1 denied") (bytes "ghs_secret1"))
      (bytes "ghs_secret1")
    ≡ false
unfolding has_no_star
redact_token_free_example =
    redact_token_free (bytes "fatal: ghs_secret1 denied") (bytes "ghs_secret1") refl (omega arith)

abbrev ok : Option (List ExecEvent)
ok = some (exit (some 0) ∷ [])

abbrev pull : PullRequest
pull = record { pr_number = 7; url = "https://github.com/o/r/pull/7"; state = "open" }

abbrev env : Env
env = record {
  unicode = tables;
  status_answer = ok;
  branch_intent = some (bytes "Fix");
  commit_intent = some (bytes "Fix");
  pr_intent = some (bytes "Fix");
  branch_query_ok = true;
  branch_insert_ok = true;
  branch_update_ok = true;
  head_query_ok = true;
  head_update_ok = true;
  push_update_ok = true;
  checkout_answer = ok;
  create_answer = ok;
  diffs = bytes "/workspace/a.go" ∷ [];
  commit_summary = none;
  add_answer = ok;
  staged_answer = some (stdout (bytes "a.go | 2 +-") ∷ []);
  add_all_answer = ok;
  name_answer = ok;
  email_answer = ok;
  commit_answer = ok;
  commit_head_answer = some (stdout (bytes "0123456789") ∷ []);
  commit_query_ok = true;
  commit_insert_ok = true;
  fetch_token = none;
  fetch_answer = ok;
  base_answer = ok;
  merge_answer = ok;
  abort_answer = ok;
  push_token = some (bytes "ghs_secret1");
  push_answer = λ n. some (timeout none ∷ []);
  head_answer = some (stdout (bytes "0123456789") ∷ []);
  pr_query_ok = true;
  pr_created = some pull;
  pr_insert_ok = true;
  pr_branch_query_ok = true;
  pr_update_ok = true;
  sync_query_ok = true;
  pr_state = none;
  state_update_ok = true;
}

abbrev db : RunEnv
db = record { step_ok = λ s. true; failed_ok = true; completed_ok = true; item_ok = true }

abbrev req : PublishRequest
req = record {
  work_item_id = bytes "0a1b2c3d-4e5f";
  task_execution_id = bytes "e1";
  repo_full_name = bytes "o/r";
  default_branch = bytes "main";
  base_commit_sha = bytes "abc";
}

abbrev branch : GitBranch
branch = record { branch_name = bytes "forge/fix"; head_commit_sha = none; is_pushed = false }

abbrev start : State
start = record {
  row = record {
    status = pushing;
    current_step = some pushing;
    branch_name = none;
    pr_number = none;
    pr_url = none;
    error_message = none;
  };
  branch_name = some (bytes "forge/fix");
  pr = none;
  branches = branch ∷ [];
  commits = [];
  prs = [];
  item = record {
    org_id = "org";
    intent = "Fix";
    status = WorkItem.done;
    approval_status = WorkItem.approved;
    error = none;
  };
  commands = [];
  opened = [];
}

is_published : Ending → Bool
is_published (returns_nil st) = true
is_published (returns_error step e st) = false
is_published (crashes st) = false
is_published (waits st) = false

publish_test : is_published (run_publishing db env req start) ≡ true
unfolding is_published run_publishing
publish_test = refl

run_publishing-Fine_example : Fine db env (run_publishing db env req start)
run_publishing-Fine_example = run_publishing-Fine db env req start

abbrev lost : Env
lost = record env { head_answer = none }
