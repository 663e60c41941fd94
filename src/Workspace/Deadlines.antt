-- ===== src/Workspace/Deadlines.antt =====
-- What `Exec` learns of a command that outlives its deadline.
use forge_engine.Prelude.{
  ℕ, zero, suc, ◌-◌, ◌≡◌, refl, true, Option, none, some, List, [], ◌∷◌, ◌++◌, Option-cases, inl,
  inr, ◌∙◌, if-lift, nat_eq, ltb, Bytes, take, drop, length, All,
}
use forge_engine.Workspace.Driver.{ExecEvent, stdout, stderr, exit, timeout, stream_error}
use forge_engine.Workspace.{Completion}
use forge_engine.Workspace.Exec.{fold_events, stream_event, collect_event}
use forge_engine.Workspace.Frames.{
  read_header, event_of, chunk_size, last_chunk, read_chunks, read_frames, expired, execute_events,
}

-- An event that carries output.
abbrev IsChunk : ExecEvent → Type 0
IsChunk (stdout s) = Unit
IsChunk (stderr s) = Unit
IsChunk (exit code) = ⊥
IsChunk (timeout code) = ⊥
IsChunk (stream_error e) = ⊥

event_of-IsChunk : (stream : ℕ) (s : Bytes) → IsChunk (event_of stream s)
event_of-IsChunk stream s =
    if-lift IsChunk (nat_eq stream 2) (stderr s) (stdout s) (λ h. tt) (λ h. tt)

last_chunk-IsChunk : (stream : ℕ) (s : Bytes) → All IsChunk (last_chunk stream s)
last_chunk-IsChunk stream [] = tt
last_chunk-IsChunk stream (c ∷ s) = (event_of-IsChunk stream (c ∷ s), tt)

read_chunks-IsChunk : (fuel stream n : ℕ) (s : Bytes) → All IsChunk (read_chunks fuel stream n s).0
unfolding read_chunks
read_chunks-IsChunk zero stream n s = tt
read_chunks-IsChunk (suc fuel) stream n s =
    let k = chunk_size n in
    let Q : List ExecEvent × Option Bytes → Type 0 = λ r. All IsChunk r.0 in
    if-lift Q (nat_eq n 0) _ _ (λ h. tt)
      (λ h.
        if-lift Q (ltb (length s) k) _ _ (λ l. last_chunk-IsChunk stream s)
          (λ l. (
            event_of-IsChunk stream (take k s),
            read_chunks-IsChunk fuel stream (n - k) (drop k s),
          )))

chunks-append : (es gs : List ExecEvent) → All IsChunk es → All IsChunk gs → All IsChunk (es ++ gs)
chunks-append [] gs p q = q
chunks-append (e ∷ es) gs (h, p) q = (h, chunks-append es gs p q)

chunks-take : (k : ℕ) (es : List ExecEvent) → All IsChunk es → All IsChunk (take k es)
chunks-take zero es p = tt
chunks-take (suc k) [] p = tt
chunks-take (suc k) (e ∷ es) (h, p) = (h, chunks-take k es p)

rest-IsChunk :
    (fuel : ℕ) (left : Option Bytes)
    → ((s : Bytes) → All IsChunk (read_frames fuel s))
    → All IsChunk (elim left [ none ↦ [] | some s ↦ read_frames fuel s ])
rest-IsChunk fuel none h = tt
rest-IsChunk fuel (some s) h = h s

read_frames-IsChunk : (fuel : ℕ) (s : Bytes) → All IsChunk (read_frames fuel s)
unfolding read_frames
read_frames-IsChunk zero s = tt
read_frames-IsChunk (suc fuel) s = elim (Option-cases (read_header s)) [
  | inl e ↦ rw (e, read_frames) tt
  | inr ((stream, n, s'), e) ↦
      rw (e, read_frames)
        (let r = read_chunks (suc n) stream n s' in
          chunks-append r.0 _ (read_chunks-IsChunk (suc n) stream n s')
            (rest-IsChunk fuel r.1 (read_frames-IsChunk fuel)))
]

-- No end of the command is told.
abbrev pub SameEnd : Completion → Completion → Type 0
SameEnd c d = (c.exit_code ≡ d.exit_code) × (c.timed_out ≡ d.timed_out)

chunk-SameEnd : (e : ExecEvent) (c : Completion) → IsChunk e → SameEnd (stream_event e c) c
unfolding stream_event collect_event
chunk-SameEnd (stdout s) c h = (refl, refl)
chunk-SameEnd (stderr s) c h = (refl, refl)
chunk-SameEnd (exit code) c h = absurd h
chunk-SameEnd (timeout code) c h = absurd h
chunk-SameEnd (stream_error e) c h = absurd h

chunks-SameEnd :
    (es : List ExecEvent) (c : Completion)
    → All IsChunk es
    → SameEnd (fold_events stream_event es c) c
chunks-SameEnd [] c h = (refl, refl)
chunks-SameEnd (e ∷ es) c (h, hs) =
    let (a, b) = chunks-SameEnd es (stream_event e c) hs in
    let (a', b') = chunk-SameEnd e c h in (a ∙ a', b ∙ b')

-- The deadline passes and the command still runs when it is inspected: whatever it has written, `Exec`
-- is told neither of a timeout nor of an exit code.
pub deadline_unreported :
    (k code : ℕ) (s : Bytes) (c : Completion)
    → SameEnd (fold_events stream_event (execute_events (expired k) (some (true, code)) s) c) c
unfolding execute_events
deadline_unreported k code s c =
    chunks-SameEnd (take k (read_frames (length s) s) ++ []) c
      (chunks-append _ [] (chunks-take k _ (read_frames-IsChunk (length s) s)) tt)
