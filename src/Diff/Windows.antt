-- ===== src/Diff/Windows.antt =====
-- Every change of the script is printed in a hunk.
use Prim.Native.Nat.{◌≤◌, ◌<◌}
use mathlib.Core.List.{Memᴰ}
use mathlib.Core.Logic.{inl, inr, ◌⊎◌}
use forge_engine.Prelude.{
  ℕ, zero, suc, ◌+◌, ◌-◌, min, ◌≡◌, refl, ap, sym, subst, true, false, ◌&&◌, List, [], ◌∷◌, ◌++◌,
  some, arith, Bytes, length, take, drop, ltb, Bool-cases, ltb→lt, ltb→le,
}
use forge_engine.Diff.{
  EditEntry, is_context, context_at, next_change, region_end, edit_line, hunk_lines, Hunk, hunk_of,
  hunks_from, compute_hunks, lcs_edits,
}

drop-drop {ℓ} : {A : Type ℓ} (m n k : ℕ) (xs : List A) → k ≡ m + n → drop n (drop m xs) ≡ drop k xs
drop-drop zero n k xs e = ap (λ j. drop j xs) (omega (arith, e))
drop-drop (suc m) n zero xs e = absurd (omega (arith, e))
drop-drop (suc m) zero (suc k) [] e = refl
drop-drop (suc m) (suc n) (suc k) [] e = refl
drop-drop (suc m) n (suc k) (x ∷ xs) e = drop-drop m n k xs (omega (arith, e))

drop_all {ℓ} : {A : Type ℓ} (n : ℕ) (xs : List A) → length xs ≤ n → drop n xs ≡ []
drop_all zero [] h = refl
drop_all zero (x ∷ xs) h = absurd (omega (arith, h))
drop_all (suc n) [] h = refl
drop_all (suc n) (x ∷ xs) h = drop_all n xs (omega (arith, h))

Memᴰ-drop {ℓ} : {A : Type ℓ} (n : ℕ) (xs : List A) (a : A) → Memᴰ a (drop n xs) → Memᴰ a xs
Memᴰ-drop zero xs a m = m
Memᴰ-drop (suc n) [] a m = m
Memᴰ-drop (suc n) (x ∷ xs) a m = Memᴰ.tail (Memᴰ-drop n xs a m)

Memᴰ-split {ℓ} :
    {A : Type ℓ} (n : ℕ) (xs : List A) (a : A) → Memᴰ a xs → Memᴰ a (take n xs) ⊎ Memᴰ a (drop n xs)
Memᴰ-split zero xs a m = inr m
Memᴰ-split (suc n) [] a m = elim m [ ]
Memᴰ-split (suc n) (x ∷ xs) a (Memᴰ.head e) = inl (Memᴰ.head e)
Memᴰ-split (suc n) (x ∷ xs) a (Memᴰ.tail m) = elim (Memᴰ-split n xs a m) [
  | inl l ↦ inl (Memᴰ.tail l)
  | inr r ↦ inr r
]

-- An edit from start on stands in the window or after it.
Memᴰ-window :
    (lo start hi : ℕ) (es : List EditEntry) (e : EditEntry)
    → lo ≤ start
    → lo ≤ hi
    → Memᴰ e (drop start es)
    → Memᴰ e (take (hi - lo) (drop lo es)) ⊎ Memᴰ e (drop hi es)
Memᴰ-window lo start hi es e l h m =
    let back =
      subst (λ (xs : List EditEntry). Memᴰ e xs)
        (sym (drop-drop lo (start - lo) start es (omega (arith, l)))) m in
    elim (Memᴰ-split (hi - lo) (drop lo es) e (Memᴰ-drop (start - lo) (drop lo es) e back)) [
      | inl w ↦ inl w
      | inr r ↦ inr (
          subst (λ (xs : List EditEntry). Memᴰ e xs)
            (drop-drop lo (hi - lo) hi es (omega (arith, h))) r)
    ]

-- Where a context line stands, no change is passed over.
context-step :
    (i : ℕ) (es : List EditEntry) (e : EditEntry)
    → is_context e ≡ false
    → context_at es i ≡ true
    → Memᴰ e (drop i es)
    → Memᴰ e (drop (suc i) es)
context-step i [] e n c m = cc
context-step zero (x ∷ es) e n c (Memᴰ.head p) = absurd (cc (n, c, ap is_context p))
context-step zero (x ∷ es) e n c (Memᴰ.tail m) = m
context-step (suc i) (x ∷ es) e n c m = context-step i es e n c m

next_change-Memᴰ :
    (fuel : ℕ) (es : List EditEntry) (i : ℕ) (e : EditEntry)
    → is_context e ≡ false
    → Memᴰ e (drop i es)
    → (i ≤ next_change fuel es i) × Memᴰ e (drop (next_change fuel es i) es)
unfolding next_change
next_change-Memᴰ zero es i e n m = (omega arith, m)
next_change-Memᴰ (suc fuel) es i e n m = elim (Bool-cases (ltb i (length es) && context_at es i)) [
  | inl t ↦
      let go = next_change-Memᴰ fuel es (suc i) e n (context-step i es e n (ground arith) m) in
      rw t (omega (arith, go.0), go.1)
  | inr f ↦ rw f (omega arith, m)
]

next_change_le : (fuel : ℕ) (es : List EditEntry) (i : ℕ) → i ≤ next_change fuel es i
unfolding next_change
next_change_le zero es i = omega arith
next_change_le (suc fuel) es i = let go = next_change_le fuel es (suc i) in ground arith

region_end_le :
    (fuel : ℕ) (es : List EditEntry) (start end : ℕ) → end ≤ region_end fuel es start end
unfolding region_end
region_end_le zero es start end = omega arith
region_end_le (suc fuel) es start end =
    let go = region_end_le fuel es start (suc end) in ground arith

-- The region is not empty.
region_end_lt :
    (fuel : ℕ) (es : List EditEntry) (start : ℕ)
    → 0 < fuel
    → start < length es
    → start < region_end fuel es start start
unfolding region_end
region_end_lt zero es start f h = absurd (omega (arith, f))
region_end_lt (suc fuel) es start f h =
    let go = region_end_le fuel es start (suc start) in ground arith

Memᴰ-append_left {ℓ} : {A : Type ℓ} (xs ys : List A) (a : A) → Memᴰ a xs → Memᴰ a (xs ++ ys)
Memᴰ-append_left [] ys a m = elim m [ ]
Memᴰ-append_left (x ∷ xs) ys a (Memᴰ.head e) = Memᴰ.head e
Memᴰ-append_left (x ∷ xs) ys a (Memᴰ.tail m) = Memᴰ.tail (Memᴰ-append_left xs ys a m)

Memᴰ-append_right {ℓ} : {A : Type ℓ} (xs ys : List A) (a : A) → Memᴰ a ys → Memᴰ a (xs ++ ys)
Memᴰ-append_right [] ys a m = m
Memᴰ-append_right (x ∷ xs) ys a m = Memᴰ.tail (Memᴰ-append_right xs ys a m)

-- The lines of all hunks.
abbrev pub printed : List Hunk → List Bytes
printed [] = []
printed (h ∷ hs) = h.lines ++ printed hs

module _ (old new : List Bytes) where
  hunk_lines-Memᴰ :
      (es : List EditEntry) (e : EditEntry) (l : Bytes)
      → Memᴰ e es
      → Memᴰ l (edit_line old new e)
      → Memᴰ l (hunk_lines old new es)
  hunk_lines-Memᴰ [] e l m h = elim m [ ]
  hunk_lines-Memᴰ (x ∷ es) e l (Memᴰ.head p) h =
      Memᴰ-append_left _ _ l (subst (λ y. Memᴰ l (edit_line old new y)) p h)
  hunk_lines-Memᴰ (x ∷ es) e l (Memᴰ.tail m) h =
      Memᴰ-append_right (edit_line old new x) _ l (hunk_lines-Memᴰ es e l m h)

  -- The hunks hold every change from the index i on.
  abbrev Shown : List EditEntry → ℕ → List Hunk → Type 0
  Shown es i hs =
      (e : EditEntry) (l : Bytes)
      → is_context e ≡ false
      → Memᴰ e (drop i es)
      → Memᴰ l (edit_line old new e)
      → Memᴰ l (printed hs)

  hunk_of-Shown :
      (es : List EditEntry) (i start hi : ℕ) (hs : List Hunk)
      → start ≡ next_change (length es) es i
      → start ≤ hi
      → Shown es hi hs
      → Shown es i (hunk_of old new es (start - 3) hi ∷ hs)
  unfolding hunk_of
  hunk_of-Shown es i start hi hs s le rest e l n m h =
      let (i_le, at) = next_change-Memᴰ (length es) es i e n m in
      elim (Memᴰ-window (start - 3) start hi es e (omega arith) (omega (arith, le))
        (subst (λ k. Memᴰ e (drop k es)) (sym s) at)) [
          | inl w ↦ Memᴰ-append_left _ (printed hs) l (hunk_lines-Memᴰ _ e l w h)
          | inr r ↦
              Memᴰ-append_right (hunk_lines old new (take (hi - (start - 3)) (drop (start - 3) es)))
                (printed hs) l (rest e l n r h)
        ]

  hunks_from-Shown :
      (fuel : ℕ) (es : List EditEntry) (i : ℕ)
      → length es < fuel + i
      → i ≤ length es
      → (hs : List Hunk) × (hunks_from fuel old new es i ≡ some hs) × Shown es i hs
  unfolding hunks_from
  hunks_from-Shown zero es i f b = absurd (omega (arith, f, b))
  hunks_from-Shown (suc fuel) es i f b = elim (Bool-cases (ltb start (length es))) [
    | inl t ↦
        let (hs, eq, shown) =
          hunks_from-Shown fuel es hi
            (omega (arith, f, start_le, end_lt (ltb→lt _ _ t), ltb→lt _ _ t)) (omega arith) in
        rw (t, eq)
          (
            (hunk_of old new es (start - 3) hi ∷ hs),
            refl,
            hunk_of-Shown es i start hi hs refl (omega (arith, end_lt (ltb→lt _ _ t), ltb→lt _ _ t))
                shown,
          )
    | inr o ↦ rw o (
      [],
      refl,
      (λ e l n m h. no_member e (
          subst (λ (xs : List EditEntry). Memᴰ e xs) (drop_all start es (ltb→le _ _ o))
            (next_change-Memᴰ (length es) es i e n m).1)),
    )
  ]
    where
      start : ℕ
      start = next_change (length es) es i

      hi : ℕ
      hi = min (region_end (length es) es start start + 3) (length es)

      start_le : i ≤ start
      start_le = next_change_le (length es) es i

      end_lt : start < length es → start < region_end (length es) es start start
      end_lt h = region_end_lt (length es) es start (omega (arith, h)) h

      no_member : {T : Type 0} (e : EditEntry) → Memᴰ {A = EditEntry} e [] → T
      no_member e m = elim m [ ]

-- The hunks are always produced within the fuel, and they print every change: whatever edit of the
-- script is not a kept line, its line stands in one of the hunks.
pub compute_hunks_complete :
    (old new : List Bytes)
    → (hs : List Hunk) × (compute_hunks old new ≡ some hs)
      × ((e : EditEntry) (l : Bytes)
          → is_context e ≡ false
          → Memᴰ e (lcs_edits old new)
          → Memᴰ l (edit_line old new e)
          → Memᴰ l (printed hs))
unfolding compute_hunks
compute_hunks_complete old new =
    hunks_from-Shown old new (suc (length (lcs_edits old new))) (lcs_edits old new) 0 (omega arith)
      (omega arith)
