-- ===== src/Publishing/Branches.antt =====
-- What the names of branches are like.
use Prim.Native.Nat.{◌/◌, ◌%◌}
use forge_engine.Prelude.{
  encode_rune, ℕ, zero, suc, List, ◌<◌, ◌+◌, ◌++◌, leb, ltb→lt, ◌≤◌, ◌≡◌, refl, Bool, true, false,
  ◌&&◌, ◌||◌, [], ◌∷◌, length, take, if◌then◌else◌, if-lift, nat_eq, Bytes, bytes, has_prefix,
  has_prefix-append, arith, map, ltb, ltb→le, All, All-append, All-map, length-append,
}
use forge_engine.Publishing.Text.{
  Unicode, runes, is_alnum, slug_chars, collapse, trim_left, trim_right, slugify, at_most,
  generate_branch_name,
}

-- An ASCII lower-case letter, a digit, "-", or a byte of a rune that is not ASCII.
abbrev pub IsSlugChar : ℕ → Type 0
IsSlugChar c = (is_alnum c || (nat_eq c 45 || leb 128 c)) ≡ true

-- What the tables of `unicode` say of ASCII: an ASCII rune that is a letter or a digit is one of
-- A to Z, a to z and 0 to 9, and nothing is lowered to one of A to Z.
abbrev pub IsAsciiSound : Unicode → Type 0
IsAsciiSound u =
    ((r : ℕ)
      → r < 128
      → (u.is_letter r || u.is_digit r) ≡ true
      → (is_alnum r || (leb 65 r && leb r 90)) ≡ true)
    × ((r : ℕ) → (leb 65 (u.to_lower r) && leb (u.to_lower r) 90) ≡ false)

high_byte : (k n : ℕ) → 128 ≤ k → IsSlugChar (k + n)
high_byte k n h = ground arith

-- The bytes of a rune.
encode_rune-All : (r : ℕ) → (r < 128 → is_alnum r ≡ true) → All IsSlugChar (encode_rune r)
unfolding encode_rune
encode_rune-All r h =
    if-lift (All IsSlugChar) (ltb r 128) _ _ (λ y. (ascii (h (ltb→lt r 128 y)), tt))
      (λ n.
        if-lift (All IsSlugChar) (ltb r 2048) _ _
          (λ _. (high_byte 192 (r / 64) (omega arith), (high_byte 128 (r % 64) (omega arith), tt)))
          (λ _.
            if-lift (All IsSlugChar) (ltb r 65536) _ _
              (λ _. (
                high_byte 224 (r / 4096) (omega arith),
                (
                  high_byte 128 (r / 64 % 64) (omega arith),
                  (high_byte 128 (r % 64) (omega arith), tt),
                ),
              ))
              (λ _. (
                high_byte 240 (r / 262144) (omega arith),
                (
                  high_byte 128 (r / 4096 % 64) (omega arith),
                  (
                    high_byte 128 (r / 64 % 64) (omega arith),
                    (high_byte 128 (r % 64) (omega arith), tt),
                  ),
                ),
              ))))
  where
    ascii : is_alnum r ≡ true → IsSlugChar r
    ascii a = rw a refl

-- Lowered runes.
abbrev IsLowered : ℕ → Type 0
IsLowered r = (leb 65 r && leb r 90) ≡ false

slug_chars-All :
    (u : Unicode) (s : List ℕ) → IsAsciiSound u → All IsLowered s → All IsSlugChar (slug_chars u s)
unfolding slug_chars
slug_chars-All u [] a l = tt
slug_chars-All u (c ∷ s) a (low, l) =
    if-lift (All IsSlugChar) (u.is_letter c || u.is_digit c) (encode_rune c ++ slug_chars u s) _
      (λ y.
        All-append IsSlugChar (encode_rune c) (slug_chars u s)
          (encode_rune-All c (λ r. small (is_alnum c) (leb 65 c && leb c 90) (a.0 c r y) low))
          (slug_chars-All u s a l))
      (λ _.
        if-lift (All IsSlugChar) (nat_eq c 32 || (nat_eq c 45 || nat_eq c 95)) (45 ∷ slug_chars u s)
          (slug_chars u s) (λ _. (refl, slug_chars-All u s a l)) (λ _. slug_chars-All u s a l))
  where
    small : (b d : Bool) → (b || d) ≡ true → d ≡ false → b ≡ true
    small b d h e = ground arith

lowered : (u : Unicode) (s : List ℕ) → IsAsciiSound u → All IsLowered (map u.to_lower s)
lowered u [] a = tt
lowered u (r ∷ s) a = (a.1 r, lowered u s a)

collapse-All : (last : Bool) (s : Bytes) → All IsSlugChar s → All IsSlugChar (collapse last s)
unfolding collapse
collapse-All last [] h = tt
collapse-All last (c ∷ s) (p, h) =
    if-lift (All IsSlugChar) (last && nat_eq c 45) (collapse true s) (c ∷ collapse (nat_eq c 45) s)
      (λ _. collapse-All true s h) (λ _. (p, collapse-All (nat_eq c 45) s h))

trim_left-All : (s : Bytes) → All IsSlugChar s → All IsSlugChar (trim_left s)
unfolding trim_left
trim_left-All [] h = tt
trim_left-All (c ∷ s) (p, h) =
    if-lift (All IsSlugChar) (nat_eq c 45) (trim_left s) (c ∷ s) (λ _. trim_left-All s h)
      (λ _. (p, h))

-- The end of `trim_right`, on what is left of the rest.
abbrev trimmed : ℕ → Bytes → Bytes
trimmed c r = elim r [ [] ↦ if nat_eq c 45 then [] else c ∷ [] | d ∷ r ↦ c ∷ d ∷ r ]

trim_right-cons : (c : ℕ) (s : Bytes) → trim_right (c ∷ s) ≡ trimmed c (trim_right s)
unfolding trim_right
trim_right-cons c s = refl

trimmed-All : (c : ℕ) (r : Bytes) → IsSlugChar c → All IsSlugChar r → All IsSlugChar (trimmed c r)
trimmed-All c [] p h = if-lift (All IsSlugChar) (nat_eq c 45) [] (c ∷ []) (λ _. tt) (λ _. (p, tt))
trimmed-All c (d ∷ r) p h = (p, h)

trim_right-All : (s : Bytes) → All IsSlugChar s → All IsSlugChar (trim_right s)
unfolding trim_right
trim_right-All [] h = tt
trim_right-All (c ∷ s) (p, h) = trimmed-All c (trim_right s) p (trim_right-All s h)

slugify-All : (u : Unicode) (s : Bytes) → IsAsciiSound u → All IsSlugChar (slugify u s)
unfolding slugify
slugify-All u s a = trim_right-All _ (
    trim_left-All _ (
      collapse-All false _
        (slug_chars-All u (map u.to_lower (runes 0 s)) a (lowered u (runes 0 s) a))))

take-All : (n : ℕ) (s : Bytes) → All IsSlugChar s → All IsSlugChar (take n s)
take-All zero s h = tt
take-All (suc n) [] h = tt
take-All (suc n) (c ∷ s) (p, h) = (p, take-All n s h)

length-take_le : (n : ℕ) (s : Bytes) → length (take n s) ≤ n
length-take_le zero s = omega arith
length-take_le (suc n) [] = omega arith
length-take_le (suc n) (c ∷ s) = omega (arith, length-take_le n s)

at_most-All : (n : ℕ) (s : Bytes) → All IsSlugChar s → All IsSlugChar (at_most n s)
at_most-All n s h =
    if-lift (All IsSlugChar) (ltb n (length s)) (take n s) s (λ _. take-All n s h) (λ _. h)

at_most-length : (n : ℕ) (s : Bytes) → length (at_most n s) ≤ n
at_most-length n s =
    if-lift (λ r. length r ≤ n) (ltb n (length s)) (take n s) s (λ _. length-take_le n s)
      (λ e. ltb→le n (length s) e)

-- A byte of a branch name.
abbrev pub IsRefChar : ℕ → Type 0
IsRefChar c = (is_alnum c || (nat_eq c 47 || (nat_eq c 45 || leb 128 c))) ≡ true

slug_ref : (c : ℕ) → IsSlugChar c → IsRefChar c
slug_ref c h = more (is_alnum c) (nat_eq c 45 || leb 128 c) (nat_eq c 47) h
  where
    more : (a b d : Bool) → (a || b) ≡ true → (a || (d || b)) ≡ true
    more a b d h = ground arith

-- Whatever the intent of a work item says, the name of its branch begins with "forge/", has at most
-- 55 bytes, and consists of ASCII lower-case letters, digits, "-", "/" and bytes beyond ASCII alone,
-- if the item's id consists of such letters, digits, "-" and bytes. Letters of other scripts stay,
-- and the cut at 40 bytes may split one. Of the tables of `unicode` it is assumed that they have no
-- other ASCII letters and digits, and lower nothing to an ASCII capital.
pub generate_branch_name-IsRef :
    (u : Unicode) (intent id : Bytes)
    → IsAsciiSound u
    → All IsSlugChar id
    → (has_prefix (generate_branch_name u intent id) (bytes "forge/") ≡ true)
      × All IsRefChar (generate_branch_name u intent id)
      × (length (generate_branch_name u intent id) ≤ 55)
unfolding generate_branch_name
generate_branch_name-IsRef u intent id a h = (
  has_prefix-append (bytes "forge/") _,
  (
    refl,
    (
      refl,
      (
        refl,
        (
          refl,
          (
            refl,
            (
              refl,
              All-append IsRefChar (at_most 40 (slugify u intent)) _
                  (All-map IsSlugChar IsRefChar _ slug_ref
                    (at_most-All 40 _ (slugify-All u intent a)))
                  (refl, All-map IsSlugChar IsRefChar _ slug_ref (at_most-All 8 id h)),
            ),
          ),
        ),
      ),
    ),
  ),
  omega (
    arith,
    at_most-length 40 (slugify u intent),
    at_most-length 8 id,
    length-append (at_most 40 (slugify u intent)) (45 ∷ at_most 8 id),
  ),
)
