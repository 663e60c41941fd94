-- ===== src/Workspace/Demux.antt =====
-- The output of a command gets through the frames of Docker's stream.
use forge_engine.Prelude.{
  ℕ, zero, suc, ◌+◌, ◌-◌, ◌*◌, ◌≤◌, ◌<◌, ◌≡◌, refl, sym, subst, ap, ◌∙◌, Bool, true, false, Option,
  none, some, List, [], ◌∷◌, ◌++◌, append-nil, append_assoc, if◌then◌else◌, nat_eq, ltb, Bytes,
  take, drop, length, length-append, All, arith,
}
use Prim.Native.Nat.{◌/◌, ◌%◌}
use forge_engine.Workspace.Driver.{ExecEvent, exit}
use forge_engine.Workspace.{Completion}
use forge_engine.Workspace.Exec.{fold_events, stream_event, collect_event}
use forge_engine.Workspace.Frames.{
  read_header, event_of, chunk_size, read_chunks, read_frames, drained, execute_events,
}

-- A frame of Docker's stream: on standard error or output, and what it carries.
pub record Frame : Type 0 where
  pub is_err : Bool
  pub payload : Bytes

abbrev stream_byte : Frame → ℕ
stream_byte f = if f.is_err then 2 else 1

-- The bytes of a frame: the stream, three zeros, the size in four bytes, and the payload.
abbrev pub encode : Frame → Bytes → Bytes
encode f rest =
    let n = length f.payload in
    stream_byte f
    ∷ 0
    ∷ 0
    ∷ 0
    ∷ n / 16777216 % 256
    ∷ n / 65536 % 256
    ∷ n / 256 % 256
    ∷ n % 256
    ∷ (f.payload ++ rest)

abbrev pub encode_all : List Frame → Bytes
encode_all [] = []
encode_all (f ∷ fs) = encode f (encode_all fs)

abbrev add : Bool → Bytes → Completion → Completion
add true p c = record c { stderr = c.stderr ++ p }
add false p c = record c { stdout = c.stdout ++ p }

-- The payloads are appended to their streams.
abbrev pub add_all : List Frame → Completion → Completion
add_all [] c = c
add_all (f ∷ fs) c = add_all fs (add f.is_err f.payload c)

add_nil : (b : Bool) (c : Completion) → add b [] c ≡ c
add_nil true c = ap (λ s. record c { stderr = s }) (append-nil c.stderr)
add_nil false c = ap (λ s. record c { stdout = s }) (append-nil c.stdout)

add_append : (b : Bool) (p q : Bytes) (c : Completion) → add b q (add b p c) ≡ add b (p ++ q) c
add_append true p q c = ap (λ s. record c { stderr = s }) (append_assoc c.stderr p q)
add_append false p q c = ap (λ s. record c { stdout = s }) (append_assoc c.stdout p q)

pub fold_events-append :
    (es gs : List ExecEvent) (c : Completion)
    → fold_events stream_event (es ++ gs) c
      ≡ fold_events stream_event gs (fold_events stream_event es c)
fold_events-append [] gs c = refl
fold_events-append (e ∷ es) gs c = fold_events-append es gs (stream_event e c)

stream_event-event_of :
    (b : Bool) (p : Bytes) (c : Completion)
    → stream_event (event_of (if b then 2 else 1) p) c ≡ add b p c
unfolding stream_event collect_event
stream_event-event_of true p c = refl
stream_event-event_of false p c = refl

-- The size fits into four bytes.
abbrev pub IsShort : Frame → Type 0
IsShort f = length f.payload < 4294967296

join_size :
    (n : ℕ)
    → n < 4294967296
    → n / 16777216 % 256 * 16777216 + n / 65536 % 256 * 65536 + n / 256 % 256 * 256 + n % 256 ≡ n
join_size n h = omega arith

read_header-encode :
    (f : Frame) (rest : Bytes)
    → IsShort f
    → read_header (encode f rest) ≡ some (stream_byte f, length f.payload, f.payload ++ rest)
unfolding read_header
read_header-encode f rest h =
    ap (λ (n : ℕ). some (stream_byte f, n, f.payload ++ rest)) (join_size (length f.payload) h)

absurd_le : (n : ℕ) → suc n ≤ 0 → ⊥
absurd_le n h = omega arith

module _ {ℓ} {A : Type ℓ} where
  take-append : (n : ℕ) (xs ys : List A) → n ≤ length xs → take n (xs ++ ys) ≡ take n xs
  take-append zero xs ys h = refl
  take-append (suc n) [] ys h = absurd (absurd_le n h)
  take-append (suc n) (x ∷ xs) ys h = ap (λ r. x ∷ r) (take-append n xs ys (omega arith))

  drop-append : (n : ℕ) (xs ys : List A) → n ≤ length xs → drop n (xs ++ ys) ≡ drop n xs ++ ys
  drop-append zero xs ys h = refl
  drop-append (suc n) [] ys h = absurd (absurd_le n h)
  drop-append (suc n) (x ∷ xs) ys h = drop-append n xs ys (omega arith)

  take-drop : (n : ℕ) (xs : List A) → take n xs ++ drop n xs ≡ xs
  take-drop zero xs = refl
  take-drop (suc n) [] = refl
  take-drop (suc n) (x ∷ xs) = ap (λ r. x ∷ r) (take-drop n xs)

  length-drop : (n : ℕ) (xs : List A) → length (drop n xs) ≡ length xs - n
  length-drop zero xs = omega arith
  length-drop (suc n) [] = omega arith
  length-drop (suc n) (x ∷ xs) = omega (arith, length-drop n xs)

-- The events append the payload, and the reading goes on after the frame.
abbrev Reads : Bool → Bytes → Bytes → List ExecEvent × Option Bytes → Type 0
Reads b p rest (es, left) =
    ((c : Completion) → fold_events stream_event es c ≡ add b p c) × (left ≡ some rest)

-- One chunk and the rest of the frame.
chunk-Reads :
    (b : Bool) (n : ℕ) (p rest : Bytes) (r : List ExecEvent × Option Bytes)
    → n ≤ length p
    → Reads b (drop n p) rest r
    → Reads b p rest (event_of (if b then 2 else 1) (take n (p ++ rest)) ∷ r.0, r.1)
chunk-Reads b n p rest (es, left) h (events, after) = (
  λ c.
      ap (λ s. fold_events stream_event es (stream_event (event_of (if b then 2 else 1) s) c))
        (take-append n p rest h)
      ∙ (ap (fold_events stream_event es) (stream_event-event_of b (take n p) c)
          ∙ (events (add b (take n p) c)
              ∙ (add_append b (take n p) (drop n p) c ∙ ap (λ s. add b s c) (take-drop n p)))),
  after,
)

chunk_size-Bounds : (m : ℕ) → (chunk_size (suc m) ≤ suc m) × (0 < chunk_size (suc m))
chunk_size-Bounds m = ground arith

le→not_lt : (n m : ℕ) → n ≤ m → ltb m n ≡ false
le→not_lt n m h = ground arith

not_zero : (n : ℕ) → nat_eq (suc n) 0 ≡ false
not_zero n = ground arith

-- A round in which the chunk is there.
read_chunks_round :
    (fuel stream m : ℕ) (s : Bytes)
    → nat_eq m 0 ≡ false
    → ltb (length s) (chunk_size m) ≡ false
    → (let rest = read_chunks fuel stream (m - chunk_size m) (drop (chunk_size m) s) in
        read_chunks (suc fuel) stream m s
        ≡ (event_of stream (take (chunk_size m) s) ∷ rest.0, rest.1))
unfolding read_chunks
read_chunks_round fuel stream m s z l = rw z (rw l refl)

read_chunks-Reads :
    (fuel : ℕ) (b : Bool) (p rest : Bytes)
    → length p < fuel
    → Reads b p rest (read_chunks fuel (if b then 2 else 1) (length p) (p ++ rest))
unfolding read_chunks
read_chunks-Reads zero b p rest h = elim h [ ]
read_chunks-Reads (suc fuel) b [] rest h = (λ c. sym (add_nil b c), refl)
read_chunks-Reads (suc fuel) b (x ∷ p) rest h =
    let q : Bytes = x ∷ p in
    let n : ℕ = chunk_size (length q) in
    let t : ℕ = if b then 2 else 1 in
    let (le, pos) = chunk_size-Bounds (length p) in
    let same : read_chunks fuel t (length (drop n q)) (drop n q ++ rest)
        ≡ read_chunks fuel t (length q - n) (drop n (q ++ rest)) =
      (λ i. read_chunks fuel t (length-drop n q i) (sym (drop-append n q rest le) i)) in
    let shorter : length (drop n q) < fuel = omega (arith, length-drop n q) in
    subst (Reads b q rest)
      (sym (
        read_chunks_round fuel t (length q) (q ++ rest) (not_zero (length p))
          (le→not_lt n (length (q ++ rest)) (omega (arith, length-append q rest)))))
      (chunk-Reads b n q rest (read_chunks fuel t (length q - n) (drop n (q ++ rest))) le
        (subst (Reads b (drop n q) rest) same (read_chunks-Reads fuel b (drop n q) rest shorter)))

after_frame :
    (fuel : ℕ) (b : Bool) (p rest : Bytes) (r : List ExecEvent × Option Bytes) (c : Completion)
    → Reads b p rest r
    → fold_events stream_event (r.0 ++ elim r.1 [ none ↦ [] | some s ↦ read_frames fuel s ]) c
      ≡ fold_events stream_event (read_frames fuel rest) (add b p c)
after_frame fuel b p rest (es, left) c (events, after) =
    ap
      (λ (o : Option Bytes).
        fold_events stream_event (es ++ elim o [ none ↦ [] | some s ↦ read_frames fuel s ]) c)
      after
    ∙ (fold_events-append es (read_frames fuel rest) c
        ∙ ap (fold_events stream_event (read_frames fuel rest)) (events c))

read_frames_nil : (fuel : ℕ) → read_frames fuel [] ≡ []
unfolding read_frames read_header
read_frames_nil zero = refl
read_frames_nil (suc fuel) = refl

read_frames_round :
    (fuel : ℕ) (s : Bytes) (stream n : ℕ) (s' : Bytes)
    → read_header s ≡ some (stream, n, s')
    → (let chunks = read_chunks (suc n) stream n s' in
        read_frames (suc fuel) s
        ≡ chunks.0 ++ elim chunks.1 [ none ↦ [] | some s'' ↦ read_frames fuel s'' ])
unfolding read_frames
read_frames_round fuel s stream n s' e = rw (e, read_frames) refl

read_frames-add :
    (fuel : ℕ) (fs : List Frame) (c : Completion)
    → length fs ≤ fuel
    → All IsShort fs
    → fold_events stream_event (read_frames fuel (encode_all fs)) c ≡ add_all fs c
read_frames-add fuel [] c l h = ap (λ es. fold_events stream_event es c) (read_frames_nil fuel)
read_frames-add zero (f ∷ fs) c l h = absurd (absurd_le (length fs) l)
read_frames-add (suc fuel) (f ∷ fs) c l (short, h) =
    ap (λ es. fold_events stream_event es c)
      (read_frames_round fuel (encode f (encode_all fs)) (stream_byte f) (length f.payload)
        (f.payload ++ encode_all fs) (read_header-encode f (encode_all fs) short))
    ∙ (after_frame fuel f.is_err f.payload (encode_all fs)
          (read_chunks (suc (length f.payload)) (stream_byte f) (length f.payload)
            (f.payload ++ encode_all fs))
          c
          (read_chunks-Reads (suc (length f.payload)) f.is_err f.payload (encode_all fs)
            (omega arith))
        ∙ read_frames-add fuel fs (add f.is_err f.payload c) (omega arith) h)

length-encode_all : (fs : List Frame) → length fs ≤ length (encode_all fs)
length-encode_all [] = omega arith
length-encode_all (f ∷ fs) =
    omega (arith, length-encode_all fs, length-append f.payload (encode_all fs))

-- A command whose stream ends, and that has exited at the inspection: `Exec` collects what the frames
-- carry, each stream in its order, and the exit code. The frames are shorter than 2 ^ 32 bytes.
pub execute_events-Collects :
    (fs : List Frame) (code : ℕ) (c : Completion)
    → All IsShort fs
    → fold_events stream_event (execute_events drained (some (false, code)) (encode_all fs)) c
      ≡ record (add_all fs c) { exit_code = some code }
unfolding execute_events stream_event collect_event
execute_events-Collects fs code c h =
    fold_events-append (read_frames (length (encode_all fs)) (encode_all fs))
      (exit (some code) ∷ []) c
    ∙ ap {A = Completion} {B = Completion} (λ d. record d { exit_code = some code })
        (read_frames-add (length (encode_all fs)) fs c (length-encode_all fs) h)
