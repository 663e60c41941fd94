-- ===== src/Publishing/Git.antt =====
-- The reading of the streams of git commands in backend/internal/publishing/orchestrator.go. An
-- answer is `none` where the command could not be started.
use forge_engine.Prelude.{
  trim_space, ℕ, Bool, true, false, not, Option, none, some, List, [], ◌∷◌, ◌++◌, if◌then◌else◌,
  nat_eq, Bytes,
}
use forge_engine.Workspace.Driver.{ExecEvent, stdout, stderr, exit, timeout, stream_error}

-- An event of type "error".
abbrev pub has_error : List ExecEvent → Bool
has_error [] = false
has_error (stream_error e ∷ es) = true
has_error (stdout c ∷ es) = has_error es
has_error (stderr c ∷ es) = has_error es
has_error (exit n ∷ es) = has_error es
has_error (timeout n ∷ es) = has_error es

abbrev pub is_bad : Option ℕ → Bool
is_bad none = false
is_bad (some n) = not (nat_eq n 0)

-- An exit with a code other than 0.
abbrev pub has_bad_exit : List ExecEvent → Bool
has_bad_exit [] = false
has_bad_exit (exit n ∷ es) = if is_bad n then true else has_bad_exit es
has_bad_exit (stream_error e ∷ es) = has_bad_exit es
has_bad_exit (stdout c ∷ es) = has_bad_exit es
has_bad_exit (stderr c ∷ es) = has_bad_exit es
has_bad_exit (timeout n ∷ es) = has_bad_exit es

-- The exit code that is found last; 0 where there is none.
abbrev pub last_code : ℕ → List ExecEvent → ℕ
last_code code [] = code
last_code code (exit (some n) ∷ es) = last_code n es
last_code code (exit none ∷ es) = last_code code es
last_code code (stream_error e ∷ es) = last_code code es
last_code code (stdout c ∷ es) = last_code code es
last_code code (stderr c ∷ es) = last_code code es
last_code code (timeout n ∷ es) = last_code code es

-- All that goes to stdout, and to stdout or stderr.
abbrev pub output : List ExecEvent → Bytes
output [] = []
output (stdout c ∷ es) = c ++ output es
output (stderr c ∷ es) = output es
output (exit n ∷ es) = output es
output (timeout n ∷ es) = output es
output (stream_error e ∷ es) = output es

abbrev pub all_output : List ExecEvent → Bytes
all_output [] = []
all_output (stdout c ∷ es) = c ++ all_output es
all_output (stderr c ∷ es) = c ++ all_output es
all_output (exit n ∷ es) = all_output es
all_output (timeout n ∷ es) = all_output es
all_output (stream_error e ∷ es) = all_output es

-- The last chunk of stdout, trimmed: a commit.
unfoldable pub last_line : Bytes → List ExecEvent → Bytes
unfolding trim_space
last_line sha [] = sha
last_line sha (stdout c ∷ es) = last_line (trim_space c) es
last_line sha (stderr c ∷ es) = last_line sha es
last_line sha (exit n ∷ es) = last_line sha es
last_line sha (timeout n ∷ es) = last_line sha es
last_line sha (stream_error e ∷ es) = last_line sha es
