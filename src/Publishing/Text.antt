-- ===== src/Publishing/Text.antt =====
-- The texts that backend/internal/publishing/orchestrator.go makes: branch names, shortened titles,
-- messages without the token, and the paths to stage. A text is its bytes, in UTF-8; the tables of
-- Go's package unicode are an argument.
use forge_engine.Prelude.{
  encode_rune, ℕ, zero, suc, ◌*◌, List, ◌+◌, ◌-◌, Bool, true, false, ◌&&◌, ◌||◌, [], ◌∷◌, ◌++◌, map,
  length, take, drop, if◌then◌else◌, leb, ltb, nat_eq, Bytes, bytes, has_prefix, trim_prefix,
}

-- `unicode.IsLetter`, `unicode.IsDigit` and `unicode.ToLower`, on runes.
pub record Unicode : Type 0 where
  pub is_letter : ℕ → Bool
  pub is_digit : ℕ → Bool
  pub to_lower : ℕ → ℕ

-- The payload of a byte that goes on with a rune.
abbrev pub low_bits : ℕ → ℕ
low_bits c = c - 128

abbrev pub is_within : ℕ → ℕ → ℕ → Bool
is_within low high c = leb low c && leb c high

-- The rune of an invalid byte, which is one byte wide.
abbrev pub invalid : ℕ × ℕ
invalid = (65533, 0)

abbrev pub two_bytes : ℕ → Bytes → ℕ × ℕ
two_bytes c (d ∷ s) = if is_within 128 191 d then ((c - 192) * 64 + low_bits d, 1) else invalid
two_bytes c [] = invalid

-- The second byte may be narrowed, against surrogates and spellings that are too long.
abbrev pub three_bytes : ℕ → Bytes → ℕ × ℕ
three_bytes c (d ∷ e ∷ s) =
    if is_within (if nat_eq c 224 then 160 else 128) (if nat_eq c 237 then 159 else 191) d
      && is_within 128 191 e
    then ((c - 224) * 4096 + (low_bits d * 64 + low_bits e), 2)
    else invalid
three_bytes c (d ∷ []) = invalid
three_bytes c [] = invalid

abbrev pub four_bytes : ℕ → Bytes → ℕ × ℕ
four_bytes c (d ∷ e ∷ f ∷ s) =
    if is_within (if nat_eq c 240 then 144 else 128) (if nat_eq c 244 then 143 else 191) d
      && (is_within 128 191 e && is_within 128 191 f)
    then ((c - 240) * 262144 + (low_bits d * 4096 + (low_bits e * 64 + low_bits f)), 3)
    else invalid
four_bytes c (d ∷ e ∷ []) = invalid
four_bytes c (d ∷ []) = invalid
four_bytes c [] = invalid

-- The rune that a text begins with, and how many bytes it has after the first.
abbrev pub decode_rune : ℕ → Bytes → ℕ × ℕ
decode_rune c s =
    if ltb c 128
    then (c, 0)
    else if is_within 194 223 c
    then two_bytes c s
    else if is_within 224 239 c
    then three_bytes c s
    else if is_within 240 244 c
    then four_bytes c s
    else invalid

-- The runes of a text, as `range` gives them; the first argument counts the bytes of a rune that are
-- still to be passed over.
unfoldable pub runes : ℕ → Bytes → List ℕ
runes k [] = []
runes (suc k) (c ∷ s) = runes k s
runes zero (c ∷ s) = (decode_rune c s).0 ∷ runes (decode_rune c s).1 s

-- An ASCII lower-case letter or a digit.
abbrev pub is_alnum : ℕ → Bool
is_alnum c = (leb 97 c && leb c 122) || (leb 48 c && leb c 57)

-- The loop of `slugify` over runes: letters and digits stay, a space, "-" or "_" becomes "-".
unfoldable pub slug_chars : Unicode → List ℕ → Bytes
unfolding encode_rune
slug_chars u [] = []
slug_chars u (c ∷ s) =
    let rest = slug_chars u s in
    if u.is_letter c || u.is_digit c
    then encode_rune c ++ rest
    else if nat_eq c 32 || (nat_eq c 45 || nat_eq c 95)
    then 45 ∷ rest
    else rest

-- A run of "-" becomes one; the flag says whether the last one kept was a "-".
unfoldable pub collapse : Bool → Bytes → Bytes
collapse last [] = []
collapse last (c ∷ s) =
    let rest = c ∷ collapse (nat_eq c 45) s in
    let short = collapse true s in if last && nat_eq c 45 then short else rest

unfoldable pub trim_left : Bytes → Bytes
trim_left [] = []
trim_left (c ∷ s) = let rest = trim_left s in if nat_eq c 45 then rest else c ∷ s

unfoldable pub trim_right : Bytes → Bytes
trim_right [] = []
trim_right (c ∷ s) = elim (trim_right s) [
  | [] ↦ if nat_eq c 45 then [] else c ∷ []
  | d ∷ r ↦ c ∷ d ∷ r
]

unfoldable pub slugify : Unicode → Bytes → Bytes
unfolding runes slug_chars collapse trim_left trim_right
slugify u s = trim_right (trim_left (collapse false (slug_chars u (map u.to_lower (runes 0 s)))))

-- `if len(s) > n { s = s[:n] }`
abbrev pub at_most : ℕ → Bytes → Bytes
at_most n s = if ltb n (length s) then take n s else s

-- `generateBranchName`
unfoldable pub generate_branch_name : Unicode → Bytes → Bytes → Bytes
unfolding slugify
generate_branch_name u intent work_item_id =
    bytes "forge/" ++ (at_most 40 (slugify u intent) ++ (45 ∷ at_most 8 work_item_id))

-- `truncate`
unfoldable pub truncate : Bytes → ℕ → Bytes
truncate s max_len = if leb (length s) max_len then s else take (max_len - 3) s ++ bytes "..."

abbrev pub redacted : Bytes
redacted = bytes "***REDACTED***"

-- `strings.ReplaceAll` by the text above; the first argument counts the bytes of an occurrence that
-- are still to be dropped.
unfoldable pub replace_all : ℕ → Bytes → Bytes → Bytes
unfolding has_prefix
replace_all k token [] = []
replace_all (suc k) token (c ∷ s) = replace_all k token s
replace_all zero token (c ∷ s) =
    let found = redacted ++ replace_all (length token - 1) token s in
    let other = c ∷ replace_all 0 token s in if has_prefix (c ∷ s) token then found else other

-- `redactToken`
unfoldable pub redact_token : Bytes → Bytes → Bytes
unfolding replace_all
redact_token msg [] = msg
redact_token msg (t ∷ token) = replace_all 0 (t ∷ token) msg

abbrev pub drop_slash : Bytes → Bytes
drop_slash path = if has_prefix path (bytes "/") then drop 1 path else path

-- The path of a diff as it is staged.
unfoldable pub staged_path : Bytes → Bytes
unfolding has_prefix trim_prefix
staged_path path =
    if has_prefix path (bytes "/")
    then drop_slash (trim_prefix path (bytes "/workspace/"))
    else path
