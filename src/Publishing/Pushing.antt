-- ===== src/Publishing/Pushing.antt =====
-- A push that goes on has succeeded.
use forge_engine.Prelude.{
  ℕ, zero, suc, ◌+◌, ◌<◌, ◌≤◌, ◌≡◌, refl, ◌∙◌, inl, inr, Bool, true, false, Option, none, some,
  List, [], if-lift, Bool-cases, Bytes, arith,
}
use forge_engine.Publishing.Git.{last_line}
use forge_engine.Publishing.Rows.{State, name_or_empty, update_session_branch}
use forge_engine.Publishing.Steps.{stops, PublishRequest, Env, exec, is_empty, rev_parse}
use forge_engine.Publishing.Push.{
  after_head, push_with_token, step_push_branch, push_attempts, after_push, record_push, set_head,
  push_command, is_pushed, push_max_retries,
}
use forge_engine.Publishing.Progress.{Post, drain-Post}

-- The push: the branch of the session, and one of three attempts that had no error.
abbrev pub IsPushed : Env → State → Type 0
IsPushed env st =
    ((name : Bytes) × (st.branch_name ≡ some name) × (is_empty name ≡ false))
    × ((n : ℕ) × (1 ≤ n) × (n ≤ 3) × (is_pushed (env.push_answer n) ≡ true))

push_attempts-Pushed :
    (left attempt : ℕ) (env : Env) (cmd : List Bytes) (st : State)
    → (push_attempts left attempt env cmd st).1 ≡ true
    → (n : ℕ) × (attempt ≤ n) × (n < attempt + left) × (is_pushed (env.push_answer n) ≡ true)
unfolding push_attempts
push_attempts-Pushed zero attempt env cmd st h = cc
push_attempts-Pushed (suc left) attempt env cmd st h =
    elim (Bool-cases (is_pushed (env.push_answer attempt))) [
      | inl y ↦ (attempt, omega arith, omega arith, y)
      | inr e ↦
          let (n, a, b, p) =
            push_attempts-Pushed left (attempt + 1) env cmd (exec cmd st) (rw e at h) in
          (n, omega arith, omega arith, p)
    ]

push_attempts-branch_name :
    (left attempt : ℕ) (env : Env) (cmd : List Bytes) (st : State)
    → (push_attempts left attempt env cmd st).0.branch_name ≡ st.branch_name
unfolding push_attempts
push_attempts-branch_name zero attempt env cmd st = refl
push_attempts-branch_name (suc left) attempt env cmd st =
    if-lift (λ (r : State × Bool). r.0.branch_name ≡ st.branch_name)
      (is_pushed (env.push_answer attempt)) (exec cmd st, true)
      (push_attempts left (attempt + 1) env cmd (exec cmd st)) (λ _. refl)
      (λ _. push_attempts-branch_name left (attempt + 1) env cmd (exec cmd st))

set_head-branch_name :
    (env : Env) (sha : Bytes) (st : State) → (set_head env sha st).branch_name ≡ st.branch_name
set_head-branch_name env sha st = ground arith

update_session_branch-branch_name :
    (db : Bool) (name : Bytes) (st : State)
    → (update_session_branch db name st).branch_name ≡ st.branch_name
unfolding update_session_branch
update_session_branch-branch_name db name st = ground arith

record_push-Post :
    (env : Env) (name : Bytes) (st : State)
    → IsPushed env st
    → Post env (IsPushed env) (record_push env name st)
unfolding record_push
record_push-Post env name st ((n, e, f), attempt) =
    drain-Post env (IsPushed env) rev_parse env.head_answer (after_head env name) st
      (λ e. inr (inr (inr e)))
      (λ events. (
        (
          n,
          update_session_branch-branch_name env.push_update_ok name _
              ∙ set_head-branch_name env (last_line [] events) (exec rev_parse st)
              ∙ e,
          f,
        ),
        attempt,
      ))

name_of_nonempty :
    (o : Option Bytes)
    → is_empty (name_or_empty o) ≡ false
    → (name : Bytes) × (o ≡ some name) × (is_empty name ≡ false)
name_of_nonempty none h = cc
name_of_nonempty (some name) h = (name, refl, h)

pub push-Post :
    (env : Env) (req : PublishRequest) (st : State)
    → Post env (IsPushed env) (step_push_branch env req st)
unfolding step_push_branch
push-Post env req st =
    if-lift (Post env (IsPushed env)) (is_empty (name_or_empty st.branch_name))
      (stops "no branch name set" st) _ (λ _. tt)
      (λ named. by_token (name_of_nonempty st.branch_name named) env.push_token)
  where
    name : Bytes
    name = name_or_empty st.branch_name

    pushed :
        ((name : Bytes) × (st.branch_name ≡ some name) × (is_empty name ≡ false))
        → (cmd : List Bytes)
        → Post env
            (IsPushed env)
            (after_push env name (push_attempts push_max_retries 1 env cmd st))
    pushed (n, e, f) cmd =
        if-lift (Post env (IsPushed env)) (push_attempts push_max_retries 1 env cmd st).1 _ _
          (λ ok. record_push-Post env name _ (
            (n, push_attempts-branch_name push_max_retries 1 env cmd st ∙ e, f),
            let (m, a, b, p) = push_attempts-Pushed push_max_retries 1 env cmd st ok in
                (m, a, omega arith, p),
          ))
          (λ _. tt)

    by_token :
        ((name : Bytes) × (st.branch_name ≡ some name) × (is_empty name ≡ false))
        → (token : Option Bytes) → Post env (IsPushed env) (push_with_token env req name token st)
    by_token named none = tt
    by_token named (some token) = pushed named (push_command req token name)
