-- ===== src/Workspace/Listing.antt =====
-- What backend/internal/workspace/manager.go reads from the output of grep, find, test and stat:
-- `SearchSymbol`, `ListDir`, `Exists` and `Stat`, from the result of their command on. A result
-- `none` is an error: the workspace is not ready, or the command could not be run. Numbers in that
-- output have no sign and fit into 64 bits. The time of a file is left in seconds, the column of a
-- match, which is always 0, and the path of `Stat` are left out.
use forge_engine.Prelude.{
  ℕ, ◌+◌, ◌-◌, ◌*◌, Bool, false, ◌&&◌, Option, none, some, List, [], ◌∷◌, if◌then◌else◌, nat_eq,
  leb, ltb, Bytes, bytes, bytes_eq, contains_sub, trim_prefix, trim_space, skip_space,
}
use forge_engine.Diff.{split_newline}
use forge_engine.Workspace.{Completion}
use forge_engine.Workspace.Provision.{exit_zero}

-- What goes before the first separator, and after it.
unfoldable pub cut : ℕ → Bytes → Option (Bytes × Bytes)
cut sep [] = none
cut sep (c ∷ s) =
    let rest = cut sep s in
    if nat_eq c sep then some ([], s) else elim rest [ none ↦ none | some p ↦ some (c ∷ p.0, p.1) ]

abbrev pub ◌>>=◌ {ℓ κ} : {A : Type ℓ} {B : Type κ} → Option A → (A → Option B) → Option B
none >>= f = none
some a >>= f = f a

infixl 5 ◌>>=◌
-- The digits at the front, in base ten; a point ends them.
unfoldable pub scan_digits : ℕ → Bytes → ℕ
scan_digits n [] = n
scan_digits n (c ∷ s) =
    let rest = scan_digits (n * 10 + (c - 48)) s in if leb 48 c && leb c 57 then rest else n

-- `fmt.Sscanf(s, "%d", &n)` from n = 0.
abbrev pub scan_number : Bytes → ℕ
scan_number s = scan_digits 0 (skip_space s)

pub record SearchResult : Type 0 where
  pub file_path : Bytes
  pub line : ℕ
  pub preview : Bytes

-- A line "path:number:text" of grep.
unfoldable pub parse_match : Bytes → Option SearchResult
unfolding trim_prefix cut scan_digits trim_space
parse_match line = do
  a ← cut 58 (trim_prefix line (bytes "/workspace/"))
  b ← cut 58 a.1
  some (record { file_path = a.0; line = scan_number b.0; preview = trim_space b.1 })

-- The lines that parse; an empty one does not.
abbrev pub collect {ℓ} : {A : Type ℓ} → (Bytes → Option A) → List Bytes → List A
collect f [] = []
collect f (l ∷ lines) = elim (f l) [ none ↦ collect f lines | some a ↦ a ∷ collect f lines ]

abbrev pub over_one : Option ℕ → Bool
over_one none = false
over_one (some n) = ltb 1 n

-- `SearchSymbol` from the result of its command; `none` is an error.
unfoldable pub search_symbol : Option Completion → Option (List SearchResult)
unfolding parse_match split_newline trim_space
search_symbol result = elim result [
  | none ↦ none
  | some c ↦
      if over_one c.exit_code
      then none
      else some (collect parse_match (split_newline (trim_space c.stdout)))
]

pub data EntryType : Type 0 where
  file dir symlink : EntryType

pub record DirEntry : Type 0 where
  pub name : Bytes
  pub entry_type : EntryType
  pub size : ℕ
  pub mod_time : ℕ

abbrev pub entry_type_of : Bytes → EntryType
entry_type_of ch =
    if bytes_eq ch (bytes "d") then dir else if bytes_eq ch (bytes "l") then symlink else file

-- A line "type|size|time|name" of find.
unfoldable pub parse_entry : Bytes → Option DirEntry
unfolding cut scan_digits bytes_eq
parse_entry line = do
  a ← cut 124 line
  b ← cut 124 a.1
  c ← cut 124 b.1
  some (record {
    name = c.1;
    entry_type = entry_type_of a.0;
    size = scan_number b.0;
    mod_time = scan_number c.0;
  })

-- `ListDir` from the result of its command.
unfoldable pub list_dir : Option Completion → Option (List DirEntry)
unfolding parse_entry split_newline trim_space
list_dir result = elim result [
  | none ↦ none
  | some c ↦
      if exit_zero c.exit_code
      then some (collect parse_entry (split_newline (trim_space c.stdout)))
      else none
]

-- `Exists` from the result of its command.
abbrev pub exists : Option Completion → Option Bool
exists none = none
exists (some c) = some (exit_zero c.exit_code)

-- What `Stat` says of a path that is there.
pub record StatResult : Type 0 where
  pub entry_type : EntryType
  pub size : ℕ
  pub mod_time : ℕ

abbrev pub stat_type : Bytes → EntryType
stat_type name =
    if contains_sub name (bytes "directory")
    then dir
    else if contains_sub name (bytes "symbolic")
    then symlink
    else file

unfoldable pub parse_stat : Bytes → Option StatResult
unfolding cut scan_digits contains_sub
parse_stat text = do
  a ← cut 124 text
  b ← cut 124 a.1
  some (record { entry_type = stat_type a.0; size = scan_number b.0; mod_time = scan_number b.1 })

-- `Stat` from the result of its command: an error, or no such path, or the path.
unfoldable pub stat : Option Completion → Option (Option StatResult)
unfolding parse_stat trim_space
stat result = elim result [
  | none ↦ none
  | some c ↦ some (if exit_zero c.exit_code then parse_stat (trim_space c.stdout) else none)
]
