-- ===== src/Publishing/Gaps.antt =====
-- Pushes that did not succeed, or of which nothing more is heard.
use forge_engine.Prelude.{
  arith, trim_space, ◌≡◌, refl, ap, ◌∙◌, Bool, true, false, Option, none, some, List, [], ◌∷◌,
  if◌then◌else◌, Bytes, length, leb,
}
use forge_engine.Workspace.Driver.{ExecEvent, stdout}
use forge_engine.Publishing.Git.{has_bad_exit, last_line}
use forge_engine.Publishing.Rows.{
  State, pushing, name_or_empty, update_session_branch, GitBranch, update_branch_head,
}
use forge_engine.Publishing.Steps.{
  goes, stops, hangs, PublishRequest, Env, exec, rev_parse, is_empty,
}
use forge_engine.Publishing.Push.{
  step_push_branch, push_attempts, push_with_token, record_push, after_push, set_head, push_command,
  push_max_retries,
}
use forge_engine.Publishing.Run.{answer_publish, conflict}

branches_kept :
    (db : Bool) (name : Bytes) (st : State)
    → (update_session_branch db name st).branches ≡ st.branches
unfolding update_session_branch
branches_kept db name st = ground arith

module _ (env : Env) (req : PublishRequest) (name token : Bytes) (events : List ExecEvent)
    (st : State) (named : st.branch_name ≡ some name) (full : is_empty name ≡ false)
    (given : env.push_token ≡ some token) (answered : env.push_answer 1 ≡ some events)
    (quiet : has_bad_exit events ≡ false) where
  pushed_first :
      push_attempts push_max_retries 1 env (push_command req token name) st
      ≡ (exec (push_command req token name) st, true)
  unfolding push_attempts
  pushed_first = rw (answered, push_attempts) (rw quiet refl)

  first_push :
      step_push_branch env req st ≡ record_push env name (exec (push_command req token name) st)
  unfolding step_push_branch
  first_push =
      ap
        (λ (o : Option Bytes).
          if is_empty (name_or_empty o)
          then stops "no branch name set" st
          else push_with_token env req (name_or_empty o) env.push_token st)
        named
      ∙ ap
          (λ (b : Bool).
            if b
            then stops "no branch name set" st
            else push_with_token env req name env.push_token st)
          full
      ∙ ap (λ (t : Option Bytes). push_with_token env req name t st) given
      ∙ ap (after_push env name) pushed_first

  -- If the head of the branch cannot be asked for after a push, the pipeline waits forever, with its
  -- session in pushing, and StartPublish refuses every later publication of the item for it.
  pub push_hangs :
      env.head_answer ≡ none
      → (st.row.status ≡ pushing)
      → (st' : State) × (step_push_branch env req st ≡ hangs st')
        × (answer_publish (some st'.row.status) ≡ conflict)
  unfolding record_push answer_publish
  push_hangs head row = (
    exec rev_parse (exec (push_command req token name) st),
    first_push ∙ rw head refl,
    rw row refl,
  )

  -- A push is taken for a success where its stream names no exit code but 0, a timeout included: its
  -- branch is then recorded as pushed.
  pub push_unconfirmed :
      (sha : Bytes) (b : GitBranch) (branches : List GitBranch)
      → env.head_answer ≡ some (stdout sha ∷ [])
      → leb 8 (length (trim_space sha)) ≡ true
      → st.branches ≡ b ∷ branches
      → env.head_query_ok ≡ true
      → env.head_update_ok ≡ true
      → (st' : State) × (step_push_branch env req st ≡ goes st')
        × (st'.branches
            ≡ record b { head_commit_sha = some (trim_space sha); is_pushed = true } ∷ branches)
  unfolding record_push last_line update_branch_head update_session_branch
  push_unconfirmed sha b branches head long rows query update = (
    update_session_branch env.push_update_ok name
        (set_head env (trim_space sha) (exec rev_parse (exec (push_command req token name) st))),
    first_push ∙ rw head refl,
    branches_kept env.push_update_ok name
          (set_head env (trim_space sha) (exec rev_parse (exec (push_command req token name) st)))
        ∙ rw (update, query, rows) (rw long refl),
  )
