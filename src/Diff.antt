-- ===== src/Diff.antt =====
-- backend/internal/execution/diff.go: the unified diff of two file contents and its statistics.
pub mod Script
pub mod Windows
pub mod Counts
use forge_engine.Prelude.{
  ℕ, zero, suc, ◌+◌, ◌-◌, min, Bool, true, false, ◌&&◌, ◌||◌, not, List, [], ◌∷◌, ◌++◌, Option,
  none, some, length, take, drop, ltb, nat_eq, if◌then◌else◌, Bytes, bytes, bytes_eq, has_prefix,
  decimal,
}

-- `editEntry`; the index -1 is `none`.
pub record EditEntry : Type 0 where
  pub old_idx : Option ℕ
  pub new_idx : Option ℕ

pub record Hunk : Type 0 where
  pub header : Bytes
  pub lines : List Bytes

pub record DiffResult : Type 0 where
  pub unified : Bytes
  pub lines_added : ℕ
  pub lines_removed : ℕ

-- `strings.Split(s, "\n")`
unfoldable pub split_newline : Bytes → List Bytes
split_newline [] = [] ∷ []
split_newline (c ∷ s) = if nat_eq c 10 then [] ∷ split_newline s else push c (split_newline s)
  where
    push : ℕ → List Bytes → List Bytes
    push c [] = (c ∷ []) ∷ []
    push c (l ∷ ls) = (c ∷ l) ∷ ls

-- The last line goes if it is empty.
unfoldable pub drop_last_empty : List Bytes → List Bytes
drop_last_empty [] = []
drop_last_empty ([] ∷ []) = []
drop_last_empty ((c ∷ cs) ∷ []) = (c ∷ cs) ∷ []
drop_last_empty (l ∷ l' ∷ ls) = l ∷ drop_last_empty (l' ∷ ls)

unfoldable pub split_lines : Bytes → List Bytes
unfolding split_newline drop_last_empty
split_lines [] = []
split_lines (c ∷ s) = drop_last_empty (split_newline (c ∷ s))

-- `lcsEdits` from the indices oi and ni on, at the lines that are left.
unfoldable pub edits_from : ℕ → ℕ → List Bytes → List Bytes → List EditEntry
edits_from oi ni [] [] = []
edits_from oi ni (o ∷ old) [] =
    record { old_idx = some oi; new_idx = none } ∷ edits_from (suc oi) ni old []
edits_from oi ni [] (n ∷ new) =
    record { old_idx = none; new_idx = some ni } ∷ edits_from oi (suc ni) [] new
edits_from oi ni (o ∷ old) (n ∷ new) =
    let rest = edits_from (suc oi) (suc ni) old new in
    if bytes_eq o n
    then record { old_idx = some oi; new_idx = some ni } ∷ rest
    else record { old_idx = some oi; new_idx = none }
      ∷ record { old_idx = none; new_idx = some ni }
      ∷ rest

unfoldable pub lcs_edits : List Bytes → List Bytes → List EditEntry
unfolding edits_from bytes_eq
lcs_edits old new = edits_from 0 0 old new

abbrev pub is_some {ℓ} : {A : Type ℓ} → Option A → Bool
is_some none = false
is_some (some a) = true

-- `e.oldIdx >= 0 && e.newIdx >= 0`
abbrev pub is_context : EditEntry → Bool
is_context e = is_some e.old_idx && is_some e.new_idx

-- `edits[k].oldIdx >= 0 && edits[k].newIdx >= 0`, at an index in range.
abbrev pub context_at : List EditEntry → ℕ → Bool
context_at [] k = false
context_at (e ∷ es) zero = is_context e
context_at (e ∷ es) (suc k) = context_at es k

-- The first loop: the next change at or after i. The fuel is the number of edits left.
unfoldable pub next_change : ℕ → List EditEntry → ℕ → ℕ
next_change zero edits i = i
next_change (suc fuel) edits i =
    let rest = next_change fuel edits (suc i) in
    if ltb i (length edits) && context_at edits i then rest else i

-- The second loop: where the changed region that begins at `start` ends.
unfoldable pub region_end : ℕ → List EditEntry → ℕ → ℕ → ℕ
region_end zero edits start end = end
region_end (suc fuel) edits start end =
    let rest = region_end fuel edits start (suc end) in
    if ltb end (length edits)
      && not (
          ltb start end
          && context_at edits (end - 1)
          && ltb (suc end) (length edits)
          && context_at edits (suc end))
    then rest
    else end

-- `lines[k]`, where the code stays in range.
abbrev pub line_at : List Bytes → ℕ → Bytes
line_at [] k = []
line_at (l ∷ ls) zero = l
line_at (l ∷ ls) (suc k) = line_at ls k

-- The line that the `switch` appends for an edit.
abbrev pub edit_line : List Bytes → List Bytes → EditEntry → List Bytes
edit_line old new e = elim e.old_idx [
  | some o ↦ elim e.new_idx [
    | some n ↦ (32 ∷ line_at old o ++ (10 ∷ [])) ∷ []
    | none ↦ (45 ∷ line_at old o ++ (10 ∷ [])) ∷ []
  ]
  | none ↦ elim e.new_idx [ some n ↦ (43 ∷ line_at new n ++ (10 ∷ [])) ∷ [] | none ↦ [] ]
]

abbrev pub hunk_lines : List Bytes → List Bytes → List EditEntry → List Bytes
hunk_lines old new [] = []
hunk_lines old new (e ∷ es) = edit_line old new e ++ hunk_lines old new es

-- How many of the edits have an old (a new) index.
abbrev pub old_count : List EditEntry → ℕ
old_count [] = 0
old_count (e ∷ es) = if is_some e.old_idx then suc (old_count es) else old_count es

abbrev pub new_count : List EditEntry → ℕ
new_count [] = 0
new_count (e ∷ es) = if is_some e.new_idx then suc (new_count es) else new_count es

-- `@@ -%d,%d +%d,%d @@\n`
unfoldable pub hunk_header : ℕ → ℕ → ℕ → ℕ → Bytes
unfolding decimal
hunk_header old_start old_n new_start new_n =
    bytes "@@ -"
    ++ (decimal old_start
        ++ (44 ∷ decimal old_n
            ++ (bytes " +" ++ (decimal new_start ++ (44 ∷ decimal new_n ++ bytes " @@\n")))))

-- The hunk of the edits from ctx_start to ctx_end.
unfoldable pub hunk_of : List Bytes → List Bytes → List EditEntry → ℕ → ℕ → Hunk
unfolding hunk_header
hunk_of old new edits ctx_start ctx_end =
    let window = take (ctx_end - ctx_start) (drop ctx_start edits) in
    let before = take ctx_start edits in
    record {
      header =
          hunk_header (suc (old_count before)) (old_count window) (suc (new_count before))
            (new_count window);
      lines = hunk_lines old new window;
    }

-- The outer loop at i; `none` is out of fuel. The context is three lines.
unfoldable pub hunks_from : ℕ → List Bytes → List Bytes → List EditEntry → ℕ → Option (List Hunk)
unfolding next_change region_end hunk_of
hunks_from zero old new edits i = none
hunks_from (suc fuel) old new edits i =
    let start = next_change (length edits) edits i in
    let end = region_end (length edits) edits start start in
    let ctx_end = min (end + 3) (length edits) in
    let rest = hunks_from fuel old new edits ctx_end in
    if ltb start (length edits)
    then elim rest [ none ↦ none | some hs ↦ some (hunk_of old new edits (start - 3) ctx_end ∷ hs) ]
    else some []

unfoldable pub compute_hunks : List Bytes → List Bytes → Option (List Hunk)
unfolding lcs_edits hunks_from
compute_hunks old new =
    let edits = lcs_edits old new in hunks_from (suc (length edits)) old new edits 0

-- `strings.HasPrefix(line, "+") && !strings.HasPrefix(line, "+++")`
unfoldable pub is_added : Bytes → Bool
unfolding has_prefix
is_added line = has_prefix line (bytes "+") && not (has_prefix line (bytes "+++"))

unfoldable pub is_removed : Bytes → Bool
unfolding has_prefix
is_removed line = has_prefix line (bytes "-") && not (has_prefix line (bytes "---"))

-- The loop over the lines of a hunk.
unfoldable pub add_lines : List Bytes → DiffResult → DiffResult
unfolding is_added is_removed
add_lines [] d = d
add_lines (line ∷ lines) d = add_lines lines (record {
  unified = d.unified ++ line;
  lines_added = if is_added line then suc d.lines_added else d.lines_added;
  lines_removed =
      if is_added line
      then d.lines_removed
      else if is_removed line
      then suc d.lines_removed
      else d.lines_removed;
})

unfoldable pub add_hunks : List Hunk → DiffResult → DiffResult
unfolding add_lines
add_hunks [] d = d
add_hunks (h ∷ hs) d =
    add_hunks hs (add_lines h.lines (record d { unified = d.unified ++ h.header }))

unfoldable pub compute_unified_diff : Bytes → Bytes → Bytes → Option DiffResult
unfolding split_lines compute_hunks add_hunks
compute_unified_diff file_path old_content new_content =
    elim (compute_hunks (split_lines old_content) (split_lines new_content)) [
      | none ↦ none
      | some hs ↦ some (
          add_hunks hs (record {
            unified =
                (bytes "--- a/" ++ (file_path ++ (10 ∷ [])))
                ++ (bytes "+++ b/" ++ (file_path ++ (10 ∷ [])));
            lines_added = 0;
            lines_removed = 0;
          }))
    ]
