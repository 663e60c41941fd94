-- ===== src/Publishing/Secrets.antt =====
-- Messages that name no token.
use forge_engine.Prelude.{
  ℕ, zero, suc, ◌-◌, ◌<◌, ◌≤◌, ◌≡◌, refl, sym, subst, ◌∙◌, Bool, true, false, ◌&&◌, [], ◌∷◌, ◌++◌,
  length, if◌then◌else◌, nat_eq, Bool-cases, inl, inr, Bytes, bytes, has_prefix, contains_sub,
  arith, not,
}
use forge_engine.Publishing.Text.{replace_all, redact_token, redacted}

-- A text without "*".
unfoldable pub has_no_star : Bytes → Bool
has_no_star [] = true
has_no_star (c ∷ s) = not (nat_eq c 42) && has_no_star s

-- A text without "*" that begins before a "*" ends before it.
prefix_before_star :
    (r u p : Bytes)
    → has_no_star p ≡ true
    → has_prefix (r ++ (42 ∷ u)) p ≡ true
    → length p ≤ length r
unfolding has_no_star has_prefix
prefix_before_star r u [] n h = omega arith
prefix_before_star [] u (c ∷ p) n h = ground arith
prefix_before_star (d ∷ r) u (c ∷ p) n h = ground (arith, prefix_before_star r u p)

contains_before_star :
    (r u token : Bytes)
    → has_no_star token ≡ true
    → length r < length token
    → contains_sub u token ≡ false
    → contains_sub (r ++ (42 ∷ u)) token ≡ false
unfolding contains_sub
contains_before_star [] u token n l h = elim (Bool-cases (has_prefix (42 ∷ u) token)) [
  | inl y ↦ absurd (omega (arith, prefix_before_star [] u token n y))
  | inr e ↦ rw e h
]
contains_before_star (c ∷ r) u token n l h =
    elim (Bool-cases (has_prefix (c ∷ (r ++ (42 ∷ u))) token)) [
      | inl y ↦ absurd (omega (arith, prefix_before_star (c ∷ r) u token n y))
      | inr e ↦ rw e (contains_before_star r u token n (omega arith) h)
    ]

replace_step :
    (token s : Bytes) (c : ℕ)
    → replace_all 0 token (c ∷ s) ≡ (
        if has_prefix (c ∷ s) token
        then redacted ++ replace_all (length token - 1) token s
        else c ∷ replace_all 0 token s)
unfolding replace_all
replace_step token s c = refl

star_first :
    (u p : Bytes) (d : ℕ) → has_no_star (d ∷ p) ≡ true → has_prefix (42 ∷ u) (d ∷ p) ≡ false
unfolding has_no_star has_prefix
star_first u p d n = ground arith

-- What begins the replaced text begins the text.
prefix_kept :
    (token s p : Bytes)
    → has_no_star p ≡ true
    → has_prefix (replace_all 0 token s) p ≡ true
    → has_prefix s p ≡ true
unfolding replace_all has_no_star has_prefix
prefix_kept token s [] n h = refl
prefix_kept token [] (d ∷ p) n h = h
prefix_kept token (c ∷ s) (d ∷ p) n h = elim (Bool-cases (has_prefix (c ∷ s) token)) [
  | inl y ↦ absurd (
      cc (
        star_first _ p d n,
        subst
            (λ b.
              has_prefix
                (if b
                  then redacted ++ replace_all (length token - 1) token s
                  else c ∷ replace_all 0 token s)
                (d ∷ p)
              ≡ true)
            y h,
      ))
  | inr e ↦ ground (
    arith,
    prefix_kept token s p,
    subst
        (λ b.
          has_prefix
            (if b
              then redacted ++ replace_all (length token - 1) token s
              else c ∷ replace_all 0 token s)
            (d ∷ p)
          ≡ true)
        e h,
  )
]

no_prefix_left :
    (t : ℕ) (token s : Bytes)
    → has_no_star (t ∷ token) ≡ true
    → has_prefix (replace_all 0 (t ∷ token) s) (t ∷ token) ≡ false
unfolding replace_all
no_prefix_left t token [] n = refl
no_prefix_left t token (c ∷ s) n = elim (Bool-cases (has_prefix (c ∷ s) (t ∷ token))) [
  | inl y ↦ rw (replace_step (t ∷ token) s c) (rw y (star_first _ token t n))
  | inr e ↦ elim (Bool-cases (has_prefix (replace_all 0 (t ∷ token) (c ∷ s)) (t ∷ token))) [
    | inl y ↦ absurd (cc (e, prefix_kept (t ∷ token) (c ∷ s) (t ∷ token) n y))
    | inr m ↦ m
  ]
]

-- The text that replaces the token, before more text.
redacted_before :
    (u token : Bytes)
    → has_no_star token ≡ true
    → 8 < length token
    → contains_sub u token ≡ false
    → contains_sub (redacted ++ u) token ≡ false
redacted_before u token n l h = starred (42 ∷ 42 ∷ (bytes "REDACTED" ++ (42 ∷ 42 ∷ 42 ∷ u))) (
    starred (42 ∷ (bytes "REDACTED" ++ (42 ∷ 42 ∷ 42 ∷ u))) (
      starred (bytes "REDACTED" ++ (42 ∷ 42 ∷ 42 ∷ u)) (
        contains_before_star (bytes "REDACTED") (42 ∷ 42 ∷ u) token n l
          (starred (42 ∷ u) (starred u h)))))
  where
    starred : (v : Bytes) → contains_sub v token ≡ false → contains_sub (42 ∷ v) token ≡ false
    starred v e = contains_before_star [] v token n (omega arith) e

contains_cons :
    (r p : Bytes) (c : ℕ)
    → has_prefix (c ∷ r) p ≡ false
    → contains_sub r p ≡ false
    → contains_sub (c ∷ r) p ≡ false
unfolding contains_sub
contains_cons r p c h e = rw (h, e) refl

kept_byte :
    (token s : Bytes) (c : ℕ)
    → has_prefix (c ∷ s) token ≡ false
    → replace_all 0 token (c ∷ s) ≡ c ∷ replace_all 0 token s
kept_byte token s c e = replace_step token s c ∙ rw e refl

dropped_bytes :
    (token s : Bytes) (c : ℕ)
    → has_prefix (c ∷ s) token ≡ true
    → replace_all 0 token (c ∷ s) ≡ redacted ++ replace_all (length token - 1) token s
dropped_bytes token s c e = replace_step token s c ∙ rw e refl

module _ (t : ℕ) (token : Bytes) (n : has_no_star (t ∷ token) ≡ true)
    (l : 8 < length {A = ℕ} (t ∷ token)) where
  replaced_free :
      (k : ℕ) (s : Bytes) → contains_sub (replace_all k (t ∷ token) s) (t ∷ token) ≡ false
  unfolding replace_all contains_sub
  replaced_free k [] = refl
  replaced_free (suc k) (c ∷ s) = replaced_free k s
  replaced_free zero (c ∷ s) = elim (Bool-cases (has_prefix (c ∷ s) (t ∷ token))) [
    | inl y ↦
        subst (λ m. contains_sub m (t ∷ token) ≡ false) (sym (dropped_bytes (t ∷ token) s c y))
          (redacted_before (replace_all (length {A = ℕ} (t ∷ token) - 1) (t ∷ token) s) (t ∷ token)
            n l (replaced_free (length {A = ℕ} (t ∷ token) - 1) s))
    | inr e ↦
        subst (λ m. contains_sub m (t ∷ token) ≡ false) (sym (kept_byte (t ∷ token) s c e))
          (contains_cons (replace_all 0 (t ∷ token) s) (t ∷ token) c
            (subst (λ m. has_prefix m (t ∷ token) ≡ false) (kept_byte (t ∷ token) s c e)
              (no_prefix_left t token (c ∷ s) n))
            (replaced_free 0 s))
  ]

-- A message that is redacted does not contain the token, wherever it stood in it, if the token has
-- more than eight bytes and no "*".
pub redact_token_free :
    (msg token : Bytes)
    → has_no_star token ≡ true
    → 8 < length token
    → contains_sub (redact_token msg token) token ≡ false
unfolding redact_token
redact_token_free msg [] n l = absurd (omega arith)
redact_token_free msg (t ∷ token) n l = replaced_free t token n l 0 msg
