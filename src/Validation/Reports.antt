-- ===== src/Validation/Reports.antt =====
-- What the commands of a stage reported, where the loop over them ends with no failure.
use forge_engine.Prelude.{
  ℕ, suc, ◌≡◌, refl, sym, ap, ◌∙◌, String, Bool, true, false, ◌||◌, not, some, none, List, [], ◌∷◌,
  nat_eq, if◌then◌else◌, arith,
}
use forge_engine.Workspace.Driver.{ExecEvent, stdout, stderr, exit, timeout, stream_error}
use forge_engine.Validation.Stage.{
  CommandRun, exec_error, ran, Shell, CommandsEnd, ended, tool_not_found, not_started, run_event,
  run_events, run_commands,
}

-- The last exit code that is reported; before that it is the given one.
abbrev pub last_code : List ExecEvent → ℕ → ℕ
last_code [] n = n
last_code (exit (some code) ∷ es) n = last_code es code
last_code (exit none ∷ es) n = last_code es n
last_code (stdout s ∷ es) n = last_code es n
last_code (stderr s ∷ es) n = last_code es n
last_code (timeout code ∷ es) n = last_code es n
last_code (stream_error e ∷ es) n = last_code es n

abbrev pub has_timeout : List ExecEvent → Bool
has_timeout [] = false
has_timeout (timeout code ∷ es) = true
has_timeout (exit code ∷ es) = has_timeout es
has_timeout (stdout s ∷ es) = has_timeout es
has_timeout (stderr s ∷ es) = has_timeout es
has_timeout (stream_error e ∷ es) = has_timeout es

-- The command was started, and it reports no timeout and, in the end, no exit code but 0. One that
-- reports nothing at all is among them.
abbrev pub NoFailure : CommandRun → Type 0
NoFailure exec_error = ⊥
NoFailure (ran es) = (last_code es 0 ≡ 0) × (has_timeout es ≡ false)

-- Every command, from the k-th run on.
abbrev pub NoFailures : (ℕ → CommandRun) → List (List String) → ℕ → Type 0
NoFailures exec [] k = Unit
NoFailures exec (cmd ∷ cmds) k = NoFailure (exec k) × NoFailures exec cmds (suc k)

run_events-code :
    (es : List ExecEvent) (sh : Shell) → (run_events es sh).exit_code ≡ last_code es sh.exit_code
unfolding run_events run_event
run_events-code [] sh = refl
run_events-code (exit (some code) ∷ es) sh = run_events-code es _
run_events-code (exit none ∷ es) sh = run_events-code es _
run_events-code (stdout s ∷ es) sh = run_events-code es _
run_events-code (stderr s ∷ es) sh = run_events-code es _
run_events-code (timeout code ∷ es) sh = run_events-code es _
run_events-code (stream_error e ∷ es) sh = run_events-code es _

run_events_kept :
    (es : List ExecEvent) (sh : Shell) → sh.timed_out ≡ true → (run_events es sh).timed_out ≡ true
unfolding run_events run_event
run_events_kept [] sh h = h
run_events_kept (exit (some code) ∷ es) sh h = run_events_kept es _ h
run_events_kept (exit none ∷ es) sh h = run_events_kept es _ h
run_events_kept (stdout s ∷ es) sh h = run_events_kept es _ h
run_events_kept (stderr s ∷ es) sh h = run_events_kept es _ h
run_events_kept (timeout code ∷ es) sh h = run_events_kept es _ refl
run_events_kept (stream_error e ∷ es) sh h = run_events_kept es _ h

run_events_untimed :
    (es : List ExecEvent) (sh : Shell)
    → (run_events es sh).timed_out ≡ false
    → has_timeout es ≡ false
unfolding run_events run_event
run_events_untimed [] sh h = refl
run_events_untimed (exit (some code) ∷ es) sh h = run_events_untimed es _ h
run_events_untimed (exit none ∷ es) sh h = run_events_untimed es _ h
run_events_untimed (stdout s ∷ es) sh h = run_events_untimed es _ h
run_events_untimed (stderr s ∷ es) sh h = run_events_untimed es _ h
run_events_untimed (timeout code ∷ es) sh h =
    cc (h, run_events_kept es (record sh { timed_out = true }) refl)
run_events_untimed (stream_error e ∷ es) sh h = run_events_untimed es _ h

-- A command whose loop goes on has reported no failure.
ran-NoFailure :
    (es : List ExecEvent) (sh : Shell)
    → sh.exit_code ≡ 0
    → (not (nat_eq (run_events es sh).exit_code 0) || (run_events es sh).timed_out) ≡ false
    → NoFailure (ran es) × ((run_events es sh).exit_code ≡ 0)
ran-NoFailure es sh z h =
    let code : (run_events es sh).exit_code ≡ 0 = ground (arith, h) in
    (
      (
        ap (last_code es) (sym z) ∙ sym (run_events-code es sh) ∙ code,
        run_events_untimed es sh (ground (arith, h)),
      ),
      code,
    )

-- The shell with which the loop ends.
abbrev ends_with : Shell → CommandsEnd → Shell
ends_with sh tool_not_found = sh
ends_with sh not_started = sh
ends_with sh (ended sh' b) = sh'

not_ended :
    (b : Bool) (sh : Shell) (nf : Bool)
    → (if b then tool_not_found else not_started) ≡ ended sh nf
    → ⊥
not_ended true sh nf e = cc
not_ended false sh nf e = cc

-- The loop goes on after a command, if its end is no failure.
goes_on :
    (missing optional bad : Bool) (s sh' : Shell) (nf : Bool) (rest : CommandsEnd)
    → nat_eq s.exit_code 127 ≡ missing
    → (not (nat_eq s.exit_code 0) || s.timed_out) ≡ bad
    → (if missing
        then if optional then tool_not_found else ended s true
        else if bad
        then ended s false
        else rest)
      ≡ ended sh' nf
    → sh'.exit_code ≡ 0
    → sh'.timed_out ≡ false
    → (bad ≡ false) × (rest ≡ ended sh' nf)
goes_on true true bad s sh' nf rest m b e c t = cc
goes_on true false bad s sh' nf rest m b e c t =
    let code = ap (λ (x : CommandsEnd). (ends_with s x).exit_code) e ∙ c in
    absurd (ground (arith, code, m))
goes_on false optional true s sh' nf rest m b e c t =
    let code = ap (λ (x : CommandsEnd). (ends_with s x).exit_code) e ∙ c in
    let timed = ap (λ (x : CommandsEnd). (ends_with s x).timed_out) e ∙ t in
    ground (arith, code, timed, b)
goes_on false optional false s sh' nf rest m b e c t = (refl, e)

-- The loop ends with exit code 0 and no timeout only where no command reported a failure.
pub run_commands-NoFailures :
    (optional : Bool) (exec : ℕ → CommandRun) (cmds : List (List String)) (k : ℕ) (sh sh' : Shell)
    (not_found : Bool)
    → sh.exit_code ≡ 0
    → run_commands optional exec cmds k sh ≡ ended sh' not_found
    → sh'.exit_code ≡ 0
    → sh'.timed_out ≡ false
    → NoFailures exec cmds k
unfolding run_commands
run_commands-NoFailures optional exec [] k sh sh' nf z e c t = tt
run_commands-NoFailures optional exec (cmd ∷ cmds) k sh sh' nf z e c t =
    by_run
      (λ s zero_code rest.
        run_commands-NoFailures optional exec cmds (suc k) s sh' nf zero_code rest c t)
      (exec k) e
  where
    by_run :
        ((s : Shell)
          → s.exit_code ≡ 0
          → run_commands optional exec cmds (suc k) s ≡ ended sh' nf
          → NoFailures exec cmds (suc k))
        → (r : CommandRun)
        → elim r [
          | exec_error ↦ if optional then tool_not_found else not_started
          | ran events ↦
              let s = run_events events sh in
              if nat_eq s.exit_code 127
              then if optional then tool_not_found else ended s true
              else if not (nat_eq s.exit_code 0) || s.timed_out
              then ended s false
              else run_commands optional exec cmds (suc k) s
        ]
          ≡ ended sh' nf
        → NoFailure r × NoFailures exec cmds (suc k)
    by_run next exec_error e = absurd (not_ended optional sh' nf e)
    by_run next (ran es) e =
        let s : Shell = run_events es sh in
        let (fine, rest) =
          goes_on (nat_eq s.exit_code 127) optional (not (nat_eq s.exit_code 0) || s.timed_out) s
            sh' nf (run_commands optional exec cmds (suc k) s) refl refl e c t in
        let (here, zero_code) = ran-NoFailure es sh z fine in (here, next s zero_code rest)
