-- ===== src/Examples/Diffs.antt =====
-- Small diffs, and the theorems on them.
use mathlib.Core.List.{Memᴰ}
use forge_engine.Prelude.{◌≡◌, refl, false, some, List, [], ◌∷◌, Bytes, bytes}
use forge_engine.Diff.{
  EditEntry, lcs_edits, compute_hunks, is_context, edit_line, Hunk, DiffResult, add_lines,
  hunk_lines,
}
use forge_engine.Diff.Script.{patch, patch-lcs_edits}
use forge_engine.Diff.Windows.{compute_hunks_complete, printed}

abbrev before : List Bytes
before = bytes "a" ∷ bytes "b" ∷ bytes "c" ∷ []

abbrev after : List Bytes
after = bytes "a" ∷ bytes "x" ∷ bytes "c" ∷ bytes "++d" ∷ []

patch_runs : patch before after (lcs_edits before after) before ≡ some after
unfolding lcs_edits
patch_runs = refl

patch-lcs_edits_example : patch before after (lcs_edits before after) before ≡ some after
patch-lcs_edits_example = patch-lcs_edits before after

compute_hunks_complete_example :
    (hs : List Hunk) × (compute_hunks before after ≡ some hs)
    × ((e : EditEntry) (l : Bytes)
        → is_context e ≡ false
        → Memᴰ e (lcs_edits before after)
        → Memᴰ l (edit_line before after e)
        → Memᴰ l (printed hs))
compute_hunks_complete_example = compute_hunks_complete before after

abbrev nothing : DiffResult
nothing = record { unified = []; lines_added = 0; lines_removed = 0 }

-- Two lines are inserted and one is counted: the other begins with "++".
counts_run : (add_lines (hunk_lines before after (lcs_edits before after)) nothing).lines_added ≡ 1
unfolding lcs_edits add_lines
counts_run = refl
