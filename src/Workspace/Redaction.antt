-- ===== src/Workspace/Redaction.antt =====
-- What the log of a workspace says of the installation token.
use forge_engine.Prelude.{
  ◌≡◌, refl, sym, ap, ◌∙◌, String, Option, some, List, [], ◌∷◌, ◌++◌, Bytes, bytes, contains_sub,
  Option-cases, inl, inr, if◌then◌else◌,
}
use mathlib.Core.Path.{fun_ext}
use forge_engine.Workspace.{Slot}
use forge_engine.Workspace.Driver.{ExecEvent}
use forge_engine.Workspace.Exec.{
  after_last_at, redact_arg, redact_command, exec_and_log, run_logged, CommandLog,
}
use forge_engine.Workspace.Provision.{
  ProvisionEnv, clone_url, start_container, conclude, new_slot, create_failed, git_command,
  git_result, clone_command, log_clone, clone_repository, fetch_repository, provision, Outcome,
}

after_last_at-append : (p s r : Bytes) → after_last_at s ≡ some r → after_last_at (p ++ s) ≡ some r
unfolding after_last_at
after_last_at-append [] s r h = h
after_last_at-append (c ∷ p) s r h = rw (after_last_at-append p s r h, after_last_at) refl

after_last_at-at : (s : Bytes) → (r : Bytes) × (after_last_at (64 ∷ s) ≡ some r)
unfolding after_last_at
after_last_at-at s = elim (Option-cases (after_last_at s)) [
  | inl e ↦ (s, rw (e, after_last_at) refl)
  | inr (r, e) ↦ (r, rw (e, after_last_at) refl)
]

redact_arg_at :
    (s r : Bytes)
    → after_last_at s ≡ some r
    → redact_arg (bytes "https://x-access-token:" ++ s) ≡ bytes "https://x-access-token:***@" ++ r
unfolding redact_arg contains_sub
redact_arg_at s r h =
    rw (after_last_at-append (bytes "https://x-access-token:") s r h, redact_arg) refl

-- The redacted address is the same for every token.
redact_arg-clone_url :
    (t₁ t₂ repo : Bytes) → redact_arg (clone_url t₁ repo) ≡ redact_arg (clone_url t₂ repo)
redact_arg-clone_url t₁ t₂ repo = one t₁ ∙ sym (one t₂)
  where
    host : Bytes
    host = bytes "github.com/" ++ (repo ++ bytes ".git")

    last : (r : Bytes) × (after_last_at (64 ∷ host) ≡ some r)
    last = after_last_at-at host

    one :
        (t : Bytes) → redact_arg (clone_url t repo) ≡ bytes "https://x-access-token:***@" ++ last.0
    one t =
        redact_arg_at (t ++ (64 ∷ host)) last.0 (after_last_at-append t (64 ∷ host) last.0 last.1)

-- A command enters the log redacted and nothing else.
git_command_redacted :
    (name : String) (db : CommandLog) (execute : Option (List ExecEvent)) (cmd cmd' : List Bytes)
    (st : Slot)
    → redact_command cmd ≡ redact_command cmd'
    → git_command name db execute cmd st ≡ git_command name db execute cmd' st
unfolding git_command exec_and_log
git_command_redacted name db execute cmd cmd' st e =
    ap (λ safe. git_result name (run_logged db execute safe st)) e

clone_repository_redacted :
    (env : ProvisionEnv) (t₁ t₂ repo : Bytes) (st : Slot)
    → clone_repository env t₁ repo st ≡ clone_repository env t₂ repo st
unfolding clone_repository redact_command
clone_repository_redacted env t₁ t₂ repo st =
    git_command_redacted "git clone" env.clone_log env.clone (clone_command t₁ repo)
      (clone_command t₂ repo) (log_clone env st)
      (ap
        (λ (url : Bytes).
          redact_arg (bytes "git")
          ∷ redact_arg (bytes "clone")
          ∷ redact_arg (bytes "--depth=1")
          ∷ url
          ∷ redact_arg (bytes "/workspace")
          ∷ [])
        (redact_arg-clone_url t₁ t₂ repo))

fetch_repository_redacted :
    (env : ProvisionEnv) (t₁ t₂ repo commit_sha : Bytes) (st : Slot)
    → fetch_repository env t₁ repo commit_sha st ≡ fetch_repository env t₂ repo commit_sha st
unfolding fetch_repository
fetch_repository_redacted env t₁ t₂ repo commit_sha st =
    rw (clone_repository_redacted env t₁ t₂ repo st) refl

-- Nothing of the installation token reaches the row, the log or the result of a provisioning: with
-- the same answers from outside, the output of git among them, two tokens lead to the same workspace.
pub provision_redacted :
    (env : ProvisionEnv) (t₁ t₂ repo commit_sha : Bytes)
    → provision env (some t₁) repo commit_sha ≡ provision env (some t₂) repo commit_sha
unfolding provision
provision_redacted env t₁ t₂ repo commit_sha =
    ap
      (λ (next : Slot → Outcome).
        if env.create_ok
        then conclude env (start_container env (some t₁) commit_sha (λ t. next) (new_slot env))
        else create_failed)
      (fun_ext (fetch_repository_redacted env t₁ t₂ repo commit_sha))
