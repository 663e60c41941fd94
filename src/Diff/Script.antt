-- ===== src/Diff/Script.antt =====
-- The edit script turns the old lines into the new ones.
use forge_engine.Prelude.{
  ℕ, zero, suc, ◌&&◌, ◌≡◌, refl, List, [], ◌∷◌, Option, none, some, arith, Bytes, bytes_eq,
  bytes_eq→≡, bytes_eq_self, drop, if◌then◌else◌, Bool-cases,
}
use mathlib.Core.Logic.{inl, inr}
use forge_engine.Diff.{EditEntry, edits_from, lcs_edits, line_at}

abbrev cons_some : Bytes → Option (List Bytes) → Option (List Bytes)
cons_some l none = none
cons_some l (some ls) = some (l ∷ ls)

-- What one edit does to the old lines that are left, with the rest of the script.
abbrev patch_edit :
    List Bytes
    → List Bytes
    → Option ℕ
    → Option ℕ
    → List Bytes
    → (List Bytes → Option (List Bytes))
    → Option (List Bytes)
patch_edit old new none none left rest = none
patch_edit old new none (some n) left rest = cons_some (line_at new n) (rest left)
patch_edit old new (some o) i [] rest = none
patch_edit old new (some o) none (l ∷ left) rest =
    if bytes_eq l (line_at old o) then rest left else none
patch_edit old new (some o) (some n) (l ∷ left) rest =
    if bytes_eq l (line_at old o) && bytes_eq l (line_at new n)
    then cons_some l (rest left)
    else none

-- The lines that a script makes of the old ones that are left: an index names a line of the whole
-- old or new content, and what is kept or deleted has to be the next line of the old.
abbrev pub patch : List Bytes → List Bytes → List EditEntry → List Bytes → Option (List Bytes)
patch old new [] [] = some []
patch old new [] (l ∷ left) = none
patch old new (e ∷ es) left = patch_edit old new e.old_idx e.new_idx left (patch old new es)

line_at-drop :
    (k : ℕ) (all : List Bytes) (l : Bytes) (ls : List Bytes)
    → drop k all ≡ l ∷ ls
    → (line_at all k ≡ l) × (drop (suc k) all ≡ ls)
line_at-drop zero [] l ls e = cc
line_at-drop zero (x ∷ all) l ls e = ground arith
line_at-drop (suc k) [] l ls e = cc
line_at-drop (suc k) (x ∷ all) l ls e = line_at-drop k all l ls e

patch-edits_from :
    (all_old all_new : List Bytes) (oi ni : ℕ) (old new : List Bytes)
    → drop oi all_old ≡ old
    → drop ni all_new ≡ new
    → patch all_old all_new (edits_from oi ni old new) old ≡ some new
unfolding edits_from
patch-edits_from all_old all_new oi ni [] [] eo en = refl
patch-edits_from all_old all_new oi ni (o ∷ old) [] eo en =
    let (here, next) = line_at-drop oi all_old o old eo in
    let go = patch-edits_from all_old all_new (suc oi) ni old [] next en in
    rw (here, bytes_eq_self o) go
patch-edits_from all_old all_new oi ni [] (n ∷ new) eo en =
    let (here, next) = line_at-drop ni all_new n new en in
    let go = patch-edits_from all_old all_new oi (suc ni) [] new eo next in rw (go, here) refl
patch-edits_from all_old all_new oi ni (o ∷ old) (n ∷ new) eo en =
    let (here_o, next_o) = line_at-drop oi all_old o old eo in
    let (here_n, next_n) = line_at-drop ni all_new n new en in
    let go = patch-edits_from all_old all_new (suc oi) (suc ni) old new next_o next_n in
    elim (Bool-cases (bytes_eq o n)) [
      | inl e ↦ rw (e, here_o, here_n, bytes_eq_self o, e, go, bytes_eq→≡ o n e) refl
      | inr e ↦ rw (e, here_o, bytes_eq_self o, go, here_n) refl
    ]

-- The edit script is right: applied to the old lines it gives exactly the new ones, and it keeps
-- or deletes, one after the other, the old lines that its indices name.
pub patch-lcs_edits : (old new : List Bytes) → patch old new (lcs_edits old new) old ≡ some new
unfolding lcs_edits
patch-lcs_edits old new = patch-edits_from old new 0 0 old new refl refl
