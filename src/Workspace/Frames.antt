-- ===== src/Workspace/Frames.antt =====
-- The stream of a command in a container: `Execute` and `CopyFile` of
-- backend/internal/workspace/docker_driver.go. The bytes that Docker sends, the deadline and the answer
-- to the inspection are arguments; the time and the number of an event are left out.
use forge_engine.Prelude.{
  ℕ, zero, suc, ◌+◌, ◌-◌, ◌*◌, Bool, true, false, Option, none, some, List, [], ◌∷◌, ◌++◌,
  if◌then◌else◌, nat_eq, ltb, leb, Bytes, take, drop, length,
}
use forge_engine.Workspace.Driver.{ExecEvent, stdout, stderr, exit, timeout, stream_error}

abbrev pub default_exec_timeout_seconds : ℕ
default_exec_timeout_seconds = 60

abbrev pub max_exec_timeout_seconds : ℕ
max_exec_timeout_seconds = 300

-- The seconds a command may take. A negative number is as 0 here.
unfoldable pub exec_timeout : ℕ → ℕ
exec_timeout requested =
    let t = if leb requested 0 then default_exec_timeout_seconds else requested in
    if ltb max_exec_timeout_seconds t then max_exec_timeout_seconds else t

abbrev pub ◌>>=◌ {ℓ κ} : {A : Type ℓ} {B : Type κ} → Option A → (A → Option B) → Option B
none >>= f = none
some a >>= f = f a

infixl 5 ◌>>=◌
abbrev pub read_byte : Bytes → Option (ℕ × Bytes)
read_byte [] = none
read_byte (c ∷ s) = some (c, s)

-- The type of the stream and the size of the frame, from a header of eight bytes.
unfoldable pub read_header : Bytes → Option (ℕ × ℕ × Bytes)
read_header s = do
  (t, s₁) ← read_byte s
  (u₁, s₂) ← read_byte s₁
  (u₂, s₃) ← read_byte s₂
  (u₃, s₄) ← read_byte s₃
  (a, s₅) ← read_byte s₄
  (b, s₆) ← read_byte s₅
  (c, s₇) ← read_byte s₆
  (d, s₈) ← read_byte s₇
  some (t, a * 16777216 + b * 65536 + c * 256 + d, s₈)

abbrev pub event_of : ℕ → Bytes → ExecEvent
event_of stream data_ = if nat_eq stream 2 then stderr data_ else stdout data_

-- What is read when the stream ends inside a chunk.
abbrev pub last_chunk : ℕ → Bytes → List ExecEvent
last_chunk stream [] = []
last_chunk stream (c ∷ s) = event_of stream (c ∷ s) ∷ []

abbrev pub chunk_size : ℕ → ℕ
chunk_size to_read = if ltb (32 * 1024) to_read then 32 * 1024 else to_read

-- The loop over the chunks of a frame: the events, and what follows the frame, if the stream has not
-- ended. Each round reads a byte at least, so that one round more than bytes is enough.
unfoldable pub read_chunks : ℕ → ℕ → ℕ → Bytes → List ExecEvent × Option Bytes
read_chunks zero stream to_read s = ([], some s)
read_chunks (suc fuel) stream to_read s =
    let n = chunk_size to_read in
    let rest = read_chunks fuel stream (to_read - n) (drop n s) in
    if nat_eq to_read 0
    then ([], some s)
    else if ltb (length s) n
    then (last_chunk stream s, none)
    else (event_of stream (take n s) ∷ rest.0, rest.1)

-- The loop over the frames. Each round reads eight bytes, so that there are fewer rounds than bytes.
unfoldable pub read_frames : ℕ → Bytes → List ExecEvent
unfolding read_header read_chunks
read_frames zero s = []
read_frames (suc fuel) s = elim (read_header s) [
  | none ↦ []
  | some (stream, frame_size, s') ↦
      let chunks = read_chunks (suc frame_size) stream frame_size s' in
      chunks.0 ++ elim chunks.1 [ none ↦ [] | some s'' ↦ read_frames fuel s'' ]
]

-- How the reading ends: with the stream, or after some events by the deadline or a cancelled context.
pub data ReadEnd : Type 0 where
  drained : ReadEnd
  expired cancelled : ℕ → ReadEnd

abbrev pub is_expired : ReadEnd → Bool
is_expired drained = false
is_expired (expired k) = true
is_expired (cancelled k) = false

abbrev pub sent_events : ReadEnd → List ExecEvent → List ExecEvent
sent_events drained es = es
sent_events (expired k) es = take k es
sent_events (cancelled k) es = take k es

-- The event at the end, from the inspection: whether the command still runs, and its exit code.
abbrev pub final_event : Bool → Option (Bool × ℕ) → List ExecEvent
final_event timed_out none = []
final_event timed_out (some (running, code)) =
    if running then [] else if timed_out then timeout (some code) ∷ [] else exit (some code) ∷ []

-- The events of `Execute` for a command that has started.
unfoldable pub execute_events : ReadEnd → Option (Bool × ℕ) → Bytes → List ExecEvent
unfolding read_frames
execute_events end inspect s =
    sent_events end (read_frames (length s) s) ++ final_event (is_expired end) inspect

abbrev pub copy_exit : ExecEvent → ℕ → ℕ
copy_exit (exit (some code)) n = code
copy_exit (exit none) n = n
copy_exit (stdout s) n = n
copy_exit (stderr s) n = n
copy_exit (timeout code) n = n
copy_exit (stream_error e) n = n

abbrev pub copy_code : List ExecEvent → ℕ → ℕ
copy_code [] n = n
copy_code (e ∷ es) n = copy_code es (copy_exit e n)

-- `CopyFile` from the answer of `Execute`: whether it succeeds.
unfoldable pub copy_file : Option (List ExecEvent) → Bool
copy_file none = false
copy_file (some events) = nat_eq (copy_code events 0) 0
