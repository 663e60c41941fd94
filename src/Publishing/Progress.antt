-- ===== src/Publishing/Progress.antt =====
-- The steps up to the push go on, return an error, or fail for a known reason.
use forge_engine.Prelude.{
  trim_space, ◌≡◌, refl, ◌⊎◌, inl, inr, String, Option, none, some, List, [], ◌∷◌, map,
  if◌then◌else◌, if-lift, Bytes, bytes, arith,
}
use forge_engine.Workspace.Driver.{ExecEvent, stdout, stderr, exit, timeout, stream_error}
use forge_engine.Publishing.Text.{staged_path, generate_branch_name}
use forge_engine.Publishing.Git.{is_bad, has_bad_exit, output}
use forge_engine.Publishing.Rows.{State, newest, GitBranch}
use forge_engine.Publishing.Steps.{
  Outcome, goes, stops, panics, hangs, ◌>>=◌, PublishRequest, Env, Answer, exec, must, drain,
  config, verify_workspace, step_create_branch, create_fresh, reuse_branch, by_branch,
  step_create_commits, stage_files, commit_files, read_commit, record_commit, commit_steps,
  is_empty, commit_message, commit_summary, after_staged, check_staged, go_on,
}
use forge_engine.Publishing.Push.{
  step_check_conflicts, after_base, after_fetch, check_with_token, fetch_command, check_base,
  try_merge, abort_merge, after_merge, merge_command,
}

-- An item that did not load.
abbrev pub NoItem : Env → Type 0
NoItem env = (env.commit_intent ≡ none) ⊎ (env.pr_intent ≡ none)

-- A command whose error is dropped could not be started.
abbrev pub NoChannel : Env → Type 0
NoChannel env =
    (env.staged_answer ≡ none)
    ⊎ (env.add_all_answer ≡ none)
    ⊎ (env.abort_answer ≡ none)
    ⊎ (env.head_answer ≡ none)

-- What holds where a step goes on, and why it does neither that nor return.
abbrev pub Post : Env → (State → Type 0) → Outcome → Type 0
Post env P (goes st) = P st
Post env P (stops e st) = Unit
Post env P (panics st) = NoItem env
Post env P (hangs st) = NoChannel env

abbrev pub Any : State → Type 0
Any st = Unit

pub >>=-Post :
    (env : Env) (P Q : State → Type 0) (o : Outcome) (f : State → Outcome)
    → Post env P o
    → ((st : State) → P st → Post env Q (f st))
    → Post env Q (o >>= f)
>>=-Post env P Q (goes st) f h k = k st h
>>=-Post env P Q (stops e st) f h k = tt
>>=-Post env P Q (panics st) f h k = h
>>=-Post env P Q (hangs st) f h k = h

pub verify-Post : (env : Env) (st : State) → Post env Any (verify_workspace env st)
unfolding verify_workspace
verify-Post env st = ground arith

create_fresh-Post :
    (env : Env) (name : Bytes) (st : State) → Post env Any (create_fresh env name st)
unfolding create_fresh
create_fresh-Post env name st = ground arith

must-Post :
    (env : Env) (message : String) (cmd : List Bytes) (a : Answer) (st : State)
    → Post env Any (must message cmd a st)
must-Post env message cmd none st = tt
must-Post env message cmd (some events) st = tt

pub drain-Post :
    (env : Env) (P : State → Type 0) (cmd : List Bytes) (a : Answer)
    (next : List ExecEvent → State → Outcome) (st : State)
    → (a ≡ none → NoChannel env)
    → ((events : List ExecEvent) → Post env P (next events (exec cmd st)))
    → Post env P (drain cmd a next st)
drain-Post env P cmd none next st h k = h refl
drain-Post env P cmd (some events) next st h k = k events

reuse_branch-Post :
    (env : Env) (name : Bytes) (st : State) → Post env Any (reuse_branch env name st)
unfolding reuse_branch
reuse_branch-Post env name st = by_answer env.checkout_answer
  where
    by_answer :
        (a : Answer)
        → Post env Any (elim a [
          | none ↦ create_fresh env name (exec (bytes "git" ∷ bytes "checkout" ∷ name ∷ []) st)
          | some events ↦ goes (record (exec (bytes "git" ∷ bytes "checkout" ∷ name ∷ []) st) {
            branch_name = some name;
          })
        ])
    by_answer none = create_fresh-Post env name _
    by_answer (some events) = tt

by_branch-Post :
    (env : Env) (name : Bytes) (o : Option GitBranch) (st : State)
    → Post env Any (by_branch env name o st)
by_branch-Post env name none st = create_fresh-Post env name st
by_branch-Post env name (some b) st =
    if-lift (Post env Any) b.is_pushed _ _ (λ _. reuse_branch-Post env b.branch_name st)
      (λ _. create_fresh-Post env name st)

pub branch-Post :
    (env : Env) (req : PublishRequest) (st : State) → Post env Any (step_create_branch env req st)
unfolding step_create_branch
branch-Post env req st = by_intent env.branch_intent
  where
    by_intent :
        (o : Option Bytes)
        → Post env Any (elim o [
          | none ↦ stops "load work item" st
          | some intent ↦
              by_branch env
                (generate_branch_name env.unicode intent req.work_item_id)
                (newest env.branch_query_ok st.branches)
                st
        ])
    by_intent none = tt
    by_intent (some intent) = by_branch-Post env _ _ st

after_staged-Post :
    (env : Env) (events : List ExecEvent) (st : State) → Post env Any (after_staged env events st)
after_staged-Post env events st =
    if-lift (Post env Any) (is_empty (trim_space (output events)))
      (drain (bytes "git" ∷ bytes "add" ∷ bytes "-A" ∷ []) env.add_all_answer go_on st) (goes st)
      (λ _.
        drain-Post env Any (bytes "git" ∷ bytes "add" ∷ bytes "-A" ∷ []) env.add_all_answer go_on st
          (λ e. inr (inl e)) (λ es. tt))
      (λ _. tt)

stage-Post : (env : Env) (files : List Bytes) (st : State) → Post env Any (stage_files env files st)
unfolding stage_files
stage-Post env files st =
    >>=-Post env Any Any
      (must "git add" (bytes "git" ∷ bytes "add" ∷ bytes "--" ∷ files) env.add_answer st)
      (check_staged env) (must-Post env "git add" _ env.add_answer st)
      (λ st₁ _.
        drain-Post env Any (bytes "git" ∷ bytes "diff" ∷ bytes "--cached" ∷ bytes "--stat" ∷ [])
          env.staged_answer (after_staged env) st₁ (λ e. inl e)
          (λ events. after_staged-Post env events _))

commit_files-Post :
    (env : Env) (message : Bytes) (st : State) → Post env Any (commit_files env message st)
unfolding commit_files read_commit
commit_files-Post env message st = ground arith

record_commit-Post :
    (env : Env) (message : Bytes) (st : State) → Post env Any (record_commit env message st)
unfolding record_commit
record_commit-Post env message st = ground arith

commit_steps-Post :
    (env : Env) (req : PublishRequest) (intent : Bytes) (files : List Bytes) (st : State)
    → Post env Any (commit_steps env req intent files st)
commit_steps-Post env req intent files st =
    >>=-Post env Any Any (stage_files env files st) _ (stage-Post env files st) (λ st₁ _.
      >>=-Post env Any Any (config "user.name" "Forge Engine" env.name_answer st₁) _
        (must-Post env "git config" _ env.name_answer st₁)
        (λ st₂ _.
          >>=-Post env Any Any (config "user.email" "forge@forge-engine.dev" env.email_answer st₂) _
            (must-Post env "git config" _ env.email_answer st₂)
            (λ st₃ _.
              >>=-Post env Any Any (commit_files env message st₃) _
                (commit_files-Post env message st₃) (λ st₄ _. record_commit-Post env message st₄))))
  where
    message : Bytes
    message = commit_message req (commit_summary env req intent)

pub commits-Post :
    (env : Env) (req : PublishRequest) (st : State) → Post env Any (step_create_commits env req st)
unfolding step_create_commits
commits-Post env req st = by_intent env.commit_intent refl
  where
    by_files :
        (intent : Bytes) (files : List Bytes)
        → Post env Any (elim files [
          | [] ↦ stops "nothing to commit: no diffs recorded for this execution" st
          | f ∷ files ↦ commit_steps env req intent (f ∷ files) st
        ])
    by_files intent [] = tt
    by_files intent (f ∷ files) = commit_steps-Post env req intent (f ∷ files) st

    by_intent :
        (o : Option Bytes)
        → env.commit_intent ≡ o
        → Post env Any (elim o [
          | none ↦ panics st
          | some intent ↦ elim (map staged_path env.diffs) [
            | [] ↦ stops "nothing to commit: no diffs recorded for this execution" st
            | f ∷ files ↦ commit_steps env req intent (f ∷ files) st
          ]
        ])
    by_intent none e = inl e
    by_intent (some intent) e = by_files intent (map staged_path env.diffs)

abort_merge-Post :
    (env : Env) (next : State → Outcome) (st : State)
    → ((st' : State) → Post env Any (next st'))
    → Post env Any (abort_merge env next st)
abort_merge-Post env next st h =
    drain-Post env Any (bytes "git" ∷ bytes "merge" ∷ bytes "--abort" ∷ []) env.abort_answer
      (λ es. next) st (λ e. inr (inr (inl e)))
      (λ events. h (exec (bytes "git" ∷ bytes "merge" ∷ bytes "--abort" ∷ []) st))

after_merge-Post :
    (env : Env) (events : List ExecEvent) (st : State) → Post env Any (after_merge env events st)
after_merge-Post env events st =
    if-lift (Post env Any) (has_bad_exit events)
      (abort_merge env (stops "merge conflicts detected with base branch") st)
      (abort_merge env goes st)
      (λ _. abort_merge-Post env (stops "merge conflicts detected with base branch") st (λ st'. tt))
      (λ _. abort_merge-Post env goes st (λ st'. tt))

try_merge-Post : (env : Env) (st : State) → Post env Any (try_merge env st)
unfolding try_merge
try_merge-Post env st = by_answer env.merge_answer
  where
    by_answer :
        (a : Answer)
        → Post env Any (elim a [
          | none ↦ goes (exec merge_command st)
          | some events ↦ after_merge env events (exec merge_command st)
        ])
    by_answer none = tt
    by_answer (some events) = after_merge-Post env events (exec merge_command st)

check_base-Post :
    (env : Env) (es : List ExecEvent) (st : State) → Post env Any (check_base env es st)
unfolding check_base
check_base-Post env [] st = tt
check_base-Post env (exit n ∷ es) st =
    >>=-Post env Any Any (if is_bad n then try_merge env st else goes st) (check_base env es)
      (if-lift (Post env Any) (is_bad n) _ _ (λ _. try_merge-Post env st) (λ _. tt))
      (λ st' _. check_base-Post env es st')
check_base-Post env (stdout c ∷ es) st = check_base-Post env es st
check_base-Post env (stderr c ∷ es) st = check_base-Post env es st
check_base-Post env (timeout n ∷ es) st = check_base-Post env es st
check_base-Post env (stream_error e ∷ es) st = check_base-Post env es st

after_base-Post : (env : Env) (a : Answer) (st : State) → Post env Any (after_base env a st)
after_base-Post env none st = tt
after_base-Post env (some events) st = check_base-Post env events st

check_with_token-Post :
    (env : Env) (req : PublishRequest) (token : Option Bytes) (st : State)
    → Post env Any (check_with_token env req token st)
check_with_token-Post env req none st = tt
check_with_token-Post env req (some token) st = by_fetch env.fetch_answer
  where
    by_fetch :
        (a : Answer) → Post env Any (after_fetch env req a (exec (fetch_command req token) st))
    by_fetch none = tt
    by_fetch (some events) = after_base-Post env env.base_answer _

pub conflicts-Post :
    (env : Env) (req : PublishRequest) (st : State) → Post env Any (step_check_conflicts env req st)
unfolding step_check_conflicts
conflicts-Post env req st = check_with_token-Post env req env.fetch_token st
