-- ===== src/Workspace/Matches.antt =====
-- A line of grep is read back as the match that it shows.
use forge_engine.Prelude.{
  ℕ, zero, suc, ◌+◌, ◌-◌, ◌*◌, ◌≤◌, ◌<◌, ◌≡◌, refl, ap, ◌∙◌, Bool, true, false, ◌&&◌, not, Option,
  some, List, [], ◌∷◌, ◌++◌, map, if◌then◌else◌, nat_eq, leb, ltb, Bool-cases, inl, inr, ltb→lt,
  ltb→le, Bytes, bytes, trim_prefix, trim_space, skip_space, decimal, decimal_digits, All, arith,
}
use Prim.Native.Nat.{◌/◌, ◌%◌}
use forge_engine.Workspace.Listing.{
  cut, scan_digits, scan_number, SearchResult, parse_match, collect,
}

-- A text without a byte.
unfoldable pub lacks : ℕ → Bytes → Bool
lacks sep [] = true
lacks sep (c ∷ s) = not (nat_eq c sep) && lacks sep s

cut-append : (sep : ℕ) (a b : Bytes) → lacks sep a ≡ true → cut sep (a ++ (sep ∷ b)) ≡ some (a, b)
unfolding cut lacks
cut-append sep [] b h = ground arith
cut-append sep (c ∷ a) b h = elim (Bool-cases (nat_eq c sep)) [
  | inl y ↦ ground arith
  | inr n ↦ rw n (rw (cut-append sep a b (ground arith)) refl)
]

digit_byte : (d : ℕ) → d < 10 → (leb 48 (48 + d) && leb (48 + d) 57) ≡ true
digit_byte d h = ground arith

scan_step :
    (m d n : ℕ) (out : Bytes)
    → d < 10
    → m * 10 + d ≡ n
    → scan_digits m ((48 + d) ∷ out) ≡ scan_digits n out
unfolding scan_digits
scan_step m d n out h e =
    ap (λ (b : Bool). if b then scan_digits (m * 10 + (48 + d - 48)) out else m) (digit_byte d h)
    ∙ ap (λ (k : ℕ). scan_digits k out) (omega arith)

less : (f n : ℕ) → n < suc f → ltb n 10 ≡ false → n / 10 < f
less f n h m = let l : 10 ≤ n = ltb→le n 10 m in omega arith

scan-decimal_digits :
    (f n : ℕ) (out : Bytes) → n < f → scan_digits 0 (decimal_digits f n out) ≡ scan_digits n out
unfolding decimal_digits
scan-decimal_digits zero n out h = elim h [ ]
scan-decimal_digits (suc f) n out h = elim (Bool-cases (ltb n 10)) [
  | inl y ↦ rw y (scan_step 0 n n out (ltb→lt n 10 y) (omega arith))
  | inr m ↦ rw m (
      scan-decimal_digits f (n / 10) ((48 + n % 10) ∷ out) (less f n h m)
      ∙ scan_step (n / 10) (n % 10) n out (omega arith) (omega arith))
]

-- The first byte of a number is a digit.
abbrev is_digit_first : Bytes → Bool
is_digit_first [] = false
is_digit_first (c ∷ s) = leb 48 c && leb c 57

decimal_digits-first :
    (f n : ℕ) (out : Bytes) → n < f → is_digit_first (decimal_digits f n out) ≡ true
unfolding decimal_digits
decimal_digits-first zero n out h = elim h [ ]
decimal_digits-first (suc f) n out h = elim (Bool-cases (ltb n 10)) [
  | inl y ↦ rw y (digit_byte n (ltb→lt n 10 y))
  | inr m ↦ rw m (decimal_digits-first f (n / 10) ((48 + n % 10) ∷ out) (less f n h m))
]

skip_space-digit : (s : Bytes) → is_digit_first s ≡ true → skip_space s ≡ s
skip_space-digit [] h = refl
skip_space-digit (c ∷ s) h = ground arith

not_colon : (d : ℕ) (out : Bytes) → d < 10 → lacks 58 out ≡ true → lacks 58 ((48 + d) ∷ out) ≡ true
unfolding lacks
not_colon d out h l = ground arith

lacks-decimal_digits :
    (f n : ℕ) (out : Bytes) → lacks 58 out ≡ true → lacks 58 (decimal_digits f n out) ≡ true
unfolding decimal_digits lacks
lacks-decimal_digits zero n out h = h
lacks-decimal_digits (suc f) n out h = elim (Bool-cases (ltb n 10)) [
  | inl y ↦ rw y (not_colon n out (ltb→lt n 10 y) h)
  | inr m ↦ rw m (
      lacks-decimal_digits f (n / 10) ((48 + n % 10) ∷ out)
        (not_colon (n % 10) out (omega arith) h))
]

pub scan_number-decimal : (n : ℕ) → scan_number (decimal n) ≡ n
unfolding decimal scan_digits
scan_number-decimal n =
    ap (scan_digits 0) (
      skip_space-digit (decimal_digits (suc n) n [])
        (decimal_digits-first (suc n) n [] (omega arith)))
    ∙ scan-decimal_digits (suc n) n [] (omega arith)

-- A match as grep shows it.
abbrev pub show_match : SearchResult → Bytes
show_match m = bytes "/workspace/" ++ (m.file_path ++ (58 ∷ (decimal m.line ++ (58 ∷ m.preview))))

-- No ":" in the path, and no white space around the text.
abbrev pub IsPlain : SearchResult → Type 0
IsPlain m = (lacks 58 m.file_path ≡ true) × (trim_space m.preview ≡ m.preview)

parse-show : (m : SearchResult) → IsPlain m → parse_match (show_match m) ≡ some m
unfolding parse_match trim_prefix decimal lacks
parse-show m (path, text) =
    rw (cut-append 58 m.file_path (decimal m.line ++ (58 ∷ m.preview)) path) (
      rw
        (cut-append 58 (decimal m.line) m.preview
          (lacks-decimal_digits (suc m.line) m.line [] refl))
        (λ i. some (record {
          file_path = m.file_path;
          line = scan_number-decimal m.line i;
          preview = text i;
        })))

collect-cons {ℓ} :
    {A : Type ℓ} (f : Bytes → Option A) (l : Bytes) (ls : List Bytes) (a : A)
    → f l ≡ some a
    → collect f (l ∷ ls) ≡ a ∷ collect f ls
collect-cons f l ls a e = rw (e, collect) refl

-- The lines that grep shows for matches are read back as these matches, where no path has a ":" and no
-- text white space around it.
pub collect-show :
    (ms : List SearchResult) → All IsPlain ms → collect parse_match (map show_match ms) ≡ ms
collect-show [] h = refl
collect-show (m ∷ ms) (p, h) =
    collect-cons parse_match (show_match m) (map show_match ms) m (parse-show m p)
    ∙ ap (λ rest. m ∷ rest) (collect-show ms h)
