-- ===== src/Repair/Positions.antt =====
-- The key of a diagnostic does not depend on the numbers in its message.
use forge_engine.Prelude.{
  ℕ, ◌≡◌, refl, sym, ap, ◌∙◌, Bool, true, false, List, [], ◌∷◌, ◌++◌, map, if◌then◌else◌,
  Bool-cases, inl, inr, Bytes, is_space, skip_space, drop_end, trim_space, arith,
}
use forge_engine.Repair.Identity.{
  is_digit, to_lower, replace_digits, collapse_blanks, normalize_diagnostic_message, KeyFields,
  or_none, diagnostic_identity,
}

-- A text of digits, which is not empty.
abbrev pub IsNumber : Bytes → Type 0
IsNumber [] = ⊥
IsNumber (d ∷ ds) = (is_digit d ≡ true) × elim ds [ [] ↦ Unit | e ∷ es ↦ IsNumber ds ]

digit_lower : (d : ℕ) → is_digit d ≡ true → to_lower d ≡ d
digit_lower d h = ground arith

digit_no_space : (d : ℕ) → is_digit d ≡ true → is_space d ≡ false
digit_no_space d h = ground arith

lower_number : (ds : Bytes) → IsNumber ds → map to_lower ds ≡ ds
lower_number [] h = refl
lower_number (d ∷ []) (h, t) = ap (λ c. c ∷ []) (digit_lower d h)
lower_number (d ∷ e ∷ ds) (h, t) = λ i. digit_lower d h i ∷ lower_number (e ∷ ds) t i

map-append {ℓ κ} :
    {A : Type ℓ} {B : Type κ} (f : A → B) (xs ys : List A) → map f (xs ++ ys) ≡ map f xs ++ map f ys
map-append f [] ys = refl
map-append f (x ∷ xs) ys = ap (λ r. f x ∷ r) (map-append f xs ys)

-- What a number adds to the text before the rest, in a run of digits or not.
replace_digits-number :
    (in_run : Bool) (ds s : Bytes)
    → IsNumber ds
    → replace_digits in_run (ds ++ s)
      ≡ (if in_run then replace_digits true s else 35 ∷ replace_digits true s)
unfolding replace_digits
replace_digits-number in_run [] s h = absurd h
replace_digits-number in_run (d ∷ []) s (h, t) = rw h refl
replace_digits-number true (d ∷ e ∷ ds) s (h, t) = rw h (replace_digits-number true (e ∷ ds) s t)
replace_digits-number false (d ∷ e ∷ ds) s (h, t) =
    rw h (ap (λ r. 35 ∷ r) (replace_digits-number true (e ∷ ds) s t))

replace_digits-same :
    (in_run : Bool) (a ds es s : Bytes)
    → IsNumber ds
    → IsNumber es
    → replace_digits in_run (a ++ (ds ++ s)) ≡ replace_digits in_run (a ++ (es ++ s))
unfolding replace_digits
replace_digits-same in_run [] ds es s h k =
    replace_digits-number in_run ds s h ∙ sym (replace_digits-number in_run es s k)
replace_digits-same in_run (c ∷ a) ds es s h k = λ i.
    let inside = replace_digits-same true a ds es s h k i in
    let outside = replace_digits-same false a ds es s h k i in
    if is_digit c then (if in_run then inside else 35 ∷ inside) else c ∷ outside

skip_space-number : (ds s : Bytes) → IsNumber ds → skip_space (ds ++ s) ≡ ds ++ s
skip_space-number [] s h = absurd h
skip_space-number (d ∷ ds) s (h, t) = rw (digit_no_space d h) refl

skip_space-before :
    (a ds s : Bytes) → IsNumber ds → skip_space (a ++ (ds ++ s)) ≡ skip_space a ++ (ds ++ s)
skip_space-before [] ds s h = skip_space-number ds s h
skip_space-before (c ∷ a) ds s h = elim (Bool-cases (is_space c)) [
  | inl y ↦ rw y (skip_space-before a ds s h)
  | inr n ↦ rw n refl
]

-- The step of `drop_end`, where a byte stays in front of what is left.
abbrev put_front : ℕ → Bytes → Bytes
put_front c r = elim r [ [] ↦ if is_space c then [] else c ∷ [] | d ∷ ds ↦ c ∷ d ∷ ds ]

put_front-digit : (d : ℕ) (r : Bytes) → is_digit d ≡ true → put_front d r ≡ d ∷ r
put_front-digit d [] h = rw (digit_no_space d h) refl
put_front-digit d (e ∷ r) h = refl

put_front-number :
    (c : ℕ) (a ds s : Bytes) → IsNumber ds → put_front c (a ++ (ds ++ s)) ≡ c ∷ (a ++ (ds ++ s))
put_front-number c [] [] s h = absurd h
put_front-number c [] (d ∷ ds) s h = refl
put_front-number c (b ∷ a) ds s h = refl

drop_end-number : (ds s : Bytes) → IsNumber ds → drop_end (ds ++ s) ≡ ds ++ drop_end s
drop_end-number [] s h = absurd h
drop_end-number (d ∷ []) s (h, t) = put_front-digit d (drop_end s) h
drop_end-number (d ∷ e ∷ ds) s (h, t) = ap (put_front d) (drop_end-number (e ∷ ds) s t)

drop_end-before :
    (a ds s : Bytes) → IsNumber ds → drop_end (a ++ (ds ++ s)) ≡ a ++ (ds ++ drop_end s)
drop_end-before [] ds s h = drop_end-number ds s h
drop_end-before (c ∷ a) ds s h =
    ap (put_front c) (drop_end-before a ds s h) ∙ put_front-number c a ds (drop_end s) h

lower_trim :
    (a ds s : Bytes)
    → IsNumber ds
    → map to_lower (trim_space (a ++ (ds ++ s)))
      ≡ map to_lower (skip_space a) ++ (ds ++ map to_lower (drop_end s))
unfolding trim_space
lower_trim a ds s h =
    ap (λ r. map to_lower (drop_end r)) (skip_space-before a ds s h)
    ∙ (ap (map to_lower) (drop_end-before (skip_space a) ds s h)
        ∙ (map-append to_lower (skip_space a) (ds ++ drop_end s)
            ∙ ap (λ r. map to_lower (skip_space a) ++ r)
                (map-append to_lower ds (drop_end s)
                  ∙ ap (λ r. r ++ map to_lower (drop_end s)) (lower_number ds h))))

normalize_diagnostic_message-moved :
    (a ds es s : Bytes)
    → IsNumber ds
    → IsNumber es
    → normalize_diagnostic_message (a ++ (ds ++ s)) ≡ normalize_diagnostic_message (a ++ (es ++ s))
unfolding normalize_diagnostic_message
normalize_diagnostic_message-moved a ds es s h k = ap (collapse_blanks false) (
    ap (replace_digits false) (lower_trim a ds s h)
    ∙ (replace_digits-same false (map to_lower (skip_space a)) ds es (map to_lower (drop_end s)) h k
        ∙ sym (ap (replace_digits false) (lower_trim a es s k))))

-- A number in the message of a diagnostic, such as a line, is replaced by another, of any length: the
-- key stays the same.
pub diagnostic_identity-moved :
    (d : KeyFields) (a ds es s : Bytes)
    → IsNumber ds
    → IsNumber es
    → diagnostic_identity (record d { message = a ++ (ds ++ s) })
      ≡ diagnostic_identity (record d { message = a ++ (es ++ s) })
unfolding diagnostic_identity
diagnostic_identity-moved d a ds es s h k =
    ap
      (λ m.
        d.stage
        ++ (58
            ∷ (d.tool
                ++ (58
                    ∷ (d.category
                        ++ (58 ∷ (d.severity ++ (58 ∷ (or_none d.file_path ++ (58 ∷ m))))))))))
      (normalize_diagnostic_message-moved a ds es s h k)
