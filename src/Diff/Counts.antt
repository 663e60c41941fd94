-- ===== src/Diff/Counts.antt =====
-- What the statistics of a diff count.
use forge_engine.Prelude.{
  ℕ, zero, suc, ◌+◌, ◌≡◌, ◌≤◌, ◌<◌, refl, ap, true, not, List, [], ◌∷◌, ◌++◌, Option, none, some,
  arith, Bytes, bytes, bytes_eq_self, has_prefix, length, ltb, ltb→lt, ltb→le, if◌then◌else◌,
  Bool-cases, inl, inr,
}
use forge_engine.Diff.{
  EditEntry, edits_from, lcs_edits, line_at, hunk_lines, DiffResult, is_added, is_removed,
  add_lines, add_hunks, hunks_from, next_change, compute_hunks, split_lines, compute_unified_diff,
  context_at,
}

-- The insertions of lines that do not begin with "++", and the deletions of those that do not begin
-- with "--".
abbrev pub insertions : List Bytes → List EditEntry → ℕ
insertions new [] = 0
insertions new (e ∷ es) = elim e.old_idx [
  | some o ↦ insertions new es
  | none ↦ elim e.new_idx [
    | none ↦ insertions new es
    | some n ↦
        if has_prefix (line_at new n ++ (10 ∷ [])) (bytes "++")
        then insertions new es
        else suc (insertions new es)
  ]
]

abbrev pub deletions : List Bytes → List EditEntry → ℕ
deletions old [] = 0
deletions old (e ∷ es) = elim e.old_idx [
  | none ↦ deletions old es
  | some o ↦ elim e.new_idx [
    | some n ↦ deletions old es
    | none ↦
        if has_prefix (line_at old o ++ (10 ∷ [])) (bytes "--")
        then deletions old es
        else suc (deletions old es)
  ]
]

is_added_plus : (s : Bytes) → is_added (43 ∷ s) ≡ not (has_prefix s (bytes "++"))
unfolding is_added has_prefix
is_added_plus s = refl

is_removed_minus : (s : Bytes) → is_removed (45 ∷ s) ≡ not (has_prefix s (bytes "--"))
unfolding is_removed has_prefix
is_removed_minus s = refl

module _ (old new : List Bytes) where
  -- The lines of the edits are counted on top of what has been counted.
  abbrev Counts : List EditEntry → DiffResult → Type 0
  Counts es d =
      ((add_lines (hunk_lines old new es) d).lines_added ≡ d.lines_added + insertions new es)
      × ((add_lines (hunk_lines old new es) d).lines_removed ≡ d.lines_removed + deletions old es)

  edit-Counts :
      (o n : Option ℕ) (es : List EditEntry) (d : DiffResult)
      → ((d' : DiffResult) → Counts es d')
      → Counts (record { old_idx = o; new_idx = n } ∷ es) d
  unfolding add_lines
  edit-Counts none none es d rest = rest d
  edit-Counts none (some n) es d rest =
      let s = line_at new n ++ (10 ∷ []) in
      let d' = record d { unified = d.unified ++ (43 ∷ s) } in
      let one = rest (record d' { lines_added = suc d.lines_added }) in
      elim (Bool-cases (has_prefix s (bytes "++"))) [
        | inl y ↦ rw y (rest d')
        | inr y ↦ rw y (omega (arith, one.0), omega (arith, one.1))
      ]
  edit-Counts (some o) none es d rest =
      let s = line_at old o ++ (10 ∷ []) in
      let d' = record d { unified = d.unified ++ (45 ∷ s) } in
      let one = rest (record d' { lines_removed = suc d.lines_removed }) in
      elim (Bool-cases (has_prefix s (bytes "--"))) [
        | inl y ↦ rw y (rest d')
        | inr y ↦ rw y (omega (arith, one.0), omega (arith, one.1))
      ]
  edit-Counts (some o) (some n) es d rest =
      rest (record d { unified = d.unified ++ (32 ∷ line_at old o ++ (10 ∷ [])) })

  -- What the diff counts for a hunk: the inserted lines that do not begin with "++", and the deleted
  -- ones that do not begin with "--". The kept lines count for nothing.
  pub add_lines-Counts : (es : List EditEntry) (d : DiffResult) → Counts es d
  unfolding add_lines
  add_lines-Counts [] d = (omega arith, omega arith)
  add_lines-Counts (e ∷ es) d = edit-Counts e.old_idx e.new_idx es d (add_lines-Counts es)

edits_from-self-length : (oi ni : ℕ) (ls : List Bytes) → length (edits_from oi ni ls ls) ≡ length ls
unfolding edits_from
edits_from-self-length oi ni [] = refl
edits_from-self-length oi ni (l ∷ ls) =
    let go = edits_from-self-length (suc oi) (suc ni) ls in rw (bytes_eq_self l) (ap suc go)

-- The script of a content against itself keeps every line.
context_at_self :
    (oi ni k : ℕ) (ls : List Bytes) → k < length ls → context_at (edits_from oi ni ls ls) k ≡ true
unfolding edits_from
context_at_self oi ni k [] h = absurd (omega (arith, h))
context_at_self oi ni zero (l ∷ ls) h = rw (bytes_eq_self l) refl
context_at_self oi ni (suc k) (l ∷ ls) h =
    let go = context_at_self (suc oi) (suc ni) k ls (omega (arith, h)) in rw (bytes_eq_self l) go

next_change_none :
    (fuel i : ℕ) (es : List EditEntry)
    → ((k : ℕ) → k < length es → context_at es k ≡ true)
    → i ≤ length es
    → length es ≤ fuel + i
    → next_change fuel es i ≡ length es
unfolding next_change
next_change_none zero i es all l f = omega (arith, l, f)
next_change_none (suc fuel) i es all l f = elim (Bool-cases (ltb i (length es))) [
  | inl y ↦
      rw (y, all i (ltb→lt _ _ y))
        (next_change_none fuel (suc i) es all (omega (arith, ltb→lt _ _ y)) (omega (arith, f)))
  | inr y ↦ rw y (omega (arith, l, ltb→le _ _ y))
]

hunks_from_self :
    (ls : List Bytes) (es : List EditEntry) (fuel : ℕ)
    → ((k : ℕ) → k < length es → context_at es k ≡ true)
    → hunks_from (suc fuel) ls ls es 0 ≡ some []
unfolding hunks_from
hunks_from_self ls es fuel all =
    rw (next_change_none (length es) 0 es all (omega arith) (omega arith)) (ground arith)

compute_hunks_self : (ls : List Bytes) → compute_hunks ls ls ≡ some []
unfolding compute_hunks lcs_edits
compute_hunks_self ls =
    hunks_from_self ls (edits_from 0 0 ls ls) (length (edits_from 0 0 ls ls))
      (λ k h. context_at_self 0 0 k ls (omega (arith, h, edits_from-self-length 0 0 ls)))

-- A content against itself: the two header lines, no hunk and nothing added or removed.
pub compute_unified_diff_self :
    (file_path content : Bytes)
    → compute_unified_diff file_path content content
      ≡ some (record {
        unified =
            (bytes "--- a/" ++ (file_path ++ (10 ∷ [])))
            ++ (bytes "+++ b/" ++ (file_path ++ (10 ∷ [])));
        lines_added = 0;
        lines_removed = 0;
      })
unfolding compute_unified_diff add_hunks
compute_unified_diff_self file_path content =
    rw (compute_unified_diff, compute_hunks_self (split_lines content)) refl
