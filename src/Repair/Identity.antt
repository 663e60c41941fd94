-- ===== src/Repair/Identity.antt =====
-- The key of a diagnostic: diagnosticIdentity of backend/internal/repair/orchestrator.go. Messages are
-- ASCII text.
use forge_engine.Prelude.{
  ℕ, ◌+◌, Bool, true, false, ◌&&◌, ◌||◌, Option, none, some, List, [], ◌∷◌, ◌++◌, map,
  if◌then◌else◌, nat_eq, leb, Bytes, bytes, trim_space,
}

abbrev pub is_digit : ℕ → Bool
is_digit c = leb 48 c && leb c 57

abbrev pub to_lower : ℕ → ℕ
to_lower c = if leb 65 c && leb c 90 then c + 32 else c

-- `diagnosticDigits.ReplaceAllString(s, "#")`, in a run of digits or not.
unfoldable pub replace_digits : Bool → Bytes → Bytes
replace_digits in_run [] = []
replace_digits in_run (c ∷ s) =
    let inside = replace_digits true s in
    let outside = replace_digits false s in
    if is_digit c then (if in_run then inside else 35 ∷ inside) else c ∷ outside

-- `\s`
abbrev pub is_blank : ℕ → Bool
is_blank c = nat_eq c 32 || (nat_eq c 9 || (nat_eq c 10 || (nat_eq c 12 || nat_eq c 13)))

-- `diagnosticWhitespace.ReplaceAllString(s, " ")`
unfoldable pub collapse_blanks : Bool → Bytes → Bytes
collapse_blanks in_run [] = []
collapse_blanks in_run (c ∷ s) =
    let inside = collapse_blanks true s in
    let outside = collapse_blanks false s in
    if is_blank c then (if in_run then inside else 32 ∷ inside) else c ∷ outside

unfoldable pub normalize_diagnostic_message : Bytes → Bytes
unfolding trim_space replace_digits collapse_blanks
normalize_diagnostic_message msg =
    collapse_blanks false (replace_digits false (map to_lower (trim_space msg)))

-- The fields of `models.ValidationDiagnostic` that the key has.
pub record KeyFields : Type 0 where
  pub stage : Bytes
  pub tool : Bytes
  pub category : Bytes
  pub severity : Bytes
  pub file_path : Option Bytes
  pub message : Bytes

-- `strings.Join(parts, sep)`
abbrev pub join : List Bytes → Bytes → Bytes
join [] sep = []
join (p ∷ parts) sep = elim parts [ [] ↦ p | q ∷ qs ↦ p ++ (sep ++ join parts sep) ]

abbrev pub or_none : Option Bytes → Bytes
or_none none = []
or_none (some s) = s

unfoldable pub diagnostic_identity : KeyFields → Bytes
unfolding normalize_diagnostic_message
diagnostic_identity d =
    join
      (d.stage
        ∷ d.tool
        ∷ d.category
        ∷ d.severity
        ∷ or_none d.file_path
        ∷ normalize_diagnostic_message d.message
        ∷ [])
      (bytes ":")
