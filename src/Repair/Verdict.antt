-- ===== src/Repair/Verdict.antt =====
-- What the policy gate and the verdict on an attempt mean.
use mathlib.Core.List.{Memᴰ}
use forge_engine.Prelude.{
  ◌<◌, ◌≡◌, ◌↔◌, refl, sym, subst, ap, String, Bool, true, false, Option, none, some, List, [], ◌∷◌,
  arith, if-lift, Option-cases, Bool-cases, ◌⊎◌, inl, inr, ltb, ltb→lt, ltb→le, contains, ◌==◌,
  ==→≡, ==_self, contains_head, contains_tail, contains_cons_inv, if◌then◌else◌,
}
use forge_engine.Repair.{
  Diagnostic, ValidationRun, Outcome, passed, improved, no_change, regressed, error, is_text,
  auto_fixable, evaluate, count_error_diagnostics, failing_stages, newly_failing,
  compare_validation_outcomes,
}

abbrev pub IsAutoFixable : Diagnostic → Type 0
IsAutoFixable d = d.repair_category ≡ some "auto_fixable"

is_text→≡ : (o : Option String) (s : String) → is_text o s ≡ true → o ≡ some s
is_text→≡ none s h = cc
is_text→≡ (some t) s h = ap some (==→≡ t s h)

is_text-some : (o : Option String) (s : String) → o ≡ some s → is_text o s ≡ true
is_text-some none s h = cc
is_text-some (some t) s h = ground (arith, ==_self s)

if-Memᴰ :
    (b : Bool) (d x : Diagnostic) (rest : List Diagnostic)
    → Memᴰ d (if b then x ∷ rest else rest)
    → ((b ≡ true) × (d ≡ x)) ⊎ Memᴰ d rest
if-Memᴰ true d x rest (Memᴰ.head e) = inl (refl, e)
if-Memᴰ true d x rest (Memᴰ.tail m) = inr m
if-Memᴰ false d x rest m = inr m

if-nil :
    (b : Bool) (x : String) (rest : List String)
    → (if b then rest else x ∷ rest) ≡ []
    → (b ≡ true) × (rest ≡ [])
if-nil true x rest e = (refl, e)
if-nil false x rest e = cc

if-cons :
    (b : Bool) (x s : String) (rest ss : List String)
    → (if b then rest else x ∷ rest) ≡ s ∷ ss
    → ((b ≡ true) × (rest ≡ s ∷ ss)) ⊎ ((b ≡ false) × (x ≡ s))
if-cons true x s rest ss e = inl (refl, e)
if-cons false x s rest ss e = inr (refl, cc)

auto_fixable-Memᴰ :
    (ds : List Diagnostic) (d : Diagnostic) → Memᴰ d (auto_fixable ds) → Memᴰ d ds × IsAutoFixable d
unfolding auto_fixable
auto_fixable-Memᴰ [] d m = elim m [ ]
auto_fixable-Memᴰ (x ∷ ds) d m =
    let rec = auto_fixable-Memᴰ ds d in
    elim (if-Memᴰ (is_text x.repair_category "auto_fixable") d x (auto_fixable ds) m) [
      | inl (t, e) ↦ (Memᴰ.head e, subst IsAutoFixable (sym e) (is_text→≡ _ _ t))
      | inr n ↦ let (m', f) = rec n in (Memᴰ.tail m', f)
    ]

auto_fixable_keeps :
    (ds : List Diagnostic) (d : Diagnostic) → Memᴰ d ds → IsAutoFixable d → Memᴰ d (auto_fixable ds)
unfolding auto_fixable
auto_fixable_keeps [] d m f = elim m [ ]
auto_fixable_keeps (x ∷ ds) d (Memᴰ.head e) f =
    let x_fixable = is_text-some x.repair_category "auto_fixable" (subst IsAutoFixable e f) in
    rw x_fixable (Memᴰ.head e)
auto_fixable_keeps (x ∷ ds) d (Memᴰ.tail m) f =
    let kept = auto_fixable_keeps ds d m f in
    if-lift (λ (xs : List Diagnostic). Memᴰ d xs) (is_text x.repair_category "auto_fixable")
      (x ∷ auto_fixable ds) (auto_fixable ds) (λ _. Memᴰ.tail kept) (λ _. kept)

List-cases {ℓ} : {A : Type ℓ} (xs : List A) → (xs ≡ []) ⊎ ((x : A) × (ys : List A) × (xs ≡ x ∷ ys))
List-cases [] = inl refl
List-cases (x ∷ xs) = inr (x, xs, refl)

evaluate_inv :
    (run : ValidationRun)
    → (evaluate run).allowed ≡ true
    → (run.overall_result ≡ some "failed_repairable")
      × ((evaluate run).repairable_diags ≡ auto_fixable run.diagnostics)
      × ((d : Diagnostic) × Memᴰ d (auto_fixable run.diagnostics))
unfolding evaluate
evaluate_inv run = elim (Bool-cases (is_text run.overall_result "failed_repairable")) [
  | inr n ↦ rw n (λ h. cc)
  | inl y ↦ elim (List-cases (auto_fixable run.diagnostics)) [
    | inl e ↦ rw (y, e) (λ h. cc)
    | inr (d, ds, e) ↦ rw (y, e) (λ h. (is_text→≡ _ _ y, refl, (d, Memᴰ.head refl)))
  ]
]

evaluate_allows :
    (run : ValidationRun) (d : Diagnostic)
    → run.overall_result ≡ some "failed_repairable"
    → Memᴰ d (auto_fixable run.diagnostics)
    → (evaluate run).allowed ≡ true
unfolding evaluate
evaluate_allows run d result m = elim (List-cases (auto_fixable run.diagnostics)) [
  | inl e ↦ elim (subst (λ (xs : List Diagnostic). Memᴰ d xs) e m) [ ]
  | inr (x, ds, e) ↦ rw (is_text-some _ _ result, e) refl
]

-- The policy allows a repair exactly for a run that failed as repairable with an auto-fixable
-- diagnostic, and then it hands over the auto-fixable diagnostics of the run, all and only those.
pub evaluate_allowed :
    (run : ValidationRun)
    → (((evaluate run).allowed ≡ true) ↔ (
        (run.overall_result ≡ some "failed_repairable")
        × (d : Diagnostic) × Memᴰ d run.diagnostics
        × IsAutoFixable d))
      × ((d : Diagnostic)
          → (evaluate run).allowed ≡ true
          → (Memᴰ d (evaluate run).repairable_diags ↔ (Memᴰ d run.diagnostics × IsAutoFixable d)))
unfolding evaluate
evaluate_allowed run = (
  (
    (λ h.
        let (result, same, some_d) = evaluate_inv run h in
        let (d, m) = some_d in
        let (m', f) = auto_fixable-Memᴰ run.diagnostics d m in (result, d, m', f)),
    (λ (result, d, m, f). evaluate_allows run d result (auto_fixable_keeps run.diagnostics d m f)),
  ),
  (λ d h.
      let (result, same, some_d) = evaluate_inv run h in
      rw same (
        (λ m. auto_fixable-Memᴰ run.diagnostics d m),
        (λ (m, f). auto_fixable_keeps run.diagnostics d m f),
      )),
)

-- Some stage fails now that did not before.
abbrev pub Breaks : ValidationRun → ValidationRun → Type 0
Breaks before after =
    (s : String) × (contains (failing_stages after.diagnostics) s ≡ true)
    × (contains (failing_stages before.diagnostics) s ≡ false)

abbrev pub IsOpen : ValidationRun → Type 0
IsOpen after =
    (r : String) × (after.overall_result ≡ some r)
    × ((r == "passed") ≡ false)
    × ((r == "failed_environment") ≡ false)
    × ((r == "failed_requires_human") ≡ false)

-- What each outcome says of the two runs.
abbrev pub Means : ValidationRun → ValidationRun → Outcome → Type 0
Means before after passed = after.overall_result ≡ some "passed"
Means before after error = after.overall_result ≡ none
Means before after improved =
    IsOpen after
    × (¬ Breaks before after)
    × (count_error_diagnostics after.diagnostics < count_error_diagnostics before.diagnostics)
Means before after regressed =
    IsOpen after
    × (Breaks before after
        ⊎ (count_error_diagnostics before.diagnostics < count_error_diagnostics after.diagnostics))
Means before after no_change =
    (after.overall_result ≡ some "failed_environment")
    ⊎ (after.overall_result ≡ some "failed_requires_human")
    ⊎ (IsOpen after
        × (¬ Breaks before after)
        × (count_error_diagnostics after.diagnostics ≡ count_error_diagnostics before.diagnostics))

newly_failing-nil :
    (before after : List String)
    → newly_failing before after ≡ []
    → (s : String) → contains after s ≡ true
    → contains before s ≡ true
unfolding newly_failing
newly_failing-nil before [] e s h = cc
newly_failing-nil before (x ∷ after) e s h =
    let (here, rest) = if-nil (contains before x) x (newly_failing before after) e in
    elim (contains_cons_inv x s after h) [
      | inl p ↦ subst (λ y. contains before y ≡ true) p here
      | inr q ↦ newly_failing-nil before after rest s q
    ]

newly_failing-cons :
    (before after : List String) (s : String) (ss : List String)
    → newly_failing before after ≡ s ∷ ss
    → (contains after s ≡ true) × (contains before s ≡ false)
unfolding newly_failing
newly_failing-cons before [] s ss e = cc
newly_failing-cons before (x ∷ after) s ss e =
    elim (if-cons (contains before x) x s (newly_failing before after) ss e) [
      | inl (c, rest) ↦
          let (inside, outside) = newly_failing-cons before after s ss rest in
          (contains_tail x s after inside, outside)
      | inr (c, p) ↦ (
        subst (λ y. contains (y ∷ after) s ≡ true) (sym p) (contains_head s after),
        subst (λ y. contains before y ≡ false) p c,
      )
    ]

open-Means :
    (before after : ValidationRun)
    → IsOpen after
    → (n : List String)
    → newly_failing (failing_stages before.diagnostics) (failing_stages after.diagnostics) ≡ n
    → Means before after (elim n [
      | s ∷ ss ↦ regressed
      | [] ↦
          if ltb
            (count_error_diagnostics after.diagnostics)
            (count_error_diagnostics before.diagnostics)
          then improved
          else if ltb
              (count_error_diagnostics before.diagnostics)
              (count_error_diagnostics after.diagnostics)
          then regressed
          else no_change
    ])
open-Means before after o (s ∷ ss) e =
    (let (inside, outside) = newly_failing-cons _ _ s ss e in (o, inl (s, inside, outside)))
open-Means before after o [] e =
    if-lift (Means before after) _ improved _ (λ fewer. (o, unbroken, ltb→lt _ _ fewer))
      (λ not_fewer.
        if-lift (Means before after) _ regressed no_change (λ more. (o, inr (ltb→lt _ _ more)))
          (λ not_more.
            inr (inr (o, unbroken, omega (arith, ltb→le _ _ not_fewer, ltb→le _ _ not_more)))))
  where
    unbroken : ¬ Breaks before after
    unbroken b = cc (newly_failing-nil _ _ e b.0 b.1, b.2)

-- The verdict on an attempt, for every pair of runs: passed and error by the result alone; no change
-- for an environment failure or one that needs a human; and else a regression if a stage fails that
-- did not, or if there are more errors, an improvement if no stage is new and there are fewer
-- errors, and no change if no stage is new and there are as many.
pub compare_validation_outcomes-Means :
    (before after : ValidationRun) → Means before after (compare_validation_outcomes before after)
unfolding compare_validation_outcomes
compare_validation_outcomes-Means before after = elim (Option-cases after.overall_result) [
  | inl e ↦ rw e refl
  | inr (r, e) ↦ rw e (by_result r)
]
  where
    by_result :
        (r : String)
        → let after' = record after { overall_result = some r } in
          Means before after' (compare_validation_outcomes before after')
    by_result r =
        let after' = record after { overall_result = some r } in
        if-lift (Means before after') _ passed _ (λ p. ap some (==→≡ _ _ p))
          (λ np.
            if-lift (Means before after') _ no_change _ (λ p. inl (ap some (==→≡ _ _ p)))
              (λ ne.
                if-lift (Means before after') _ no_change _ (λ p. inr (inl (ap some (==→≡ _ _ p))))
                  (λ nh. open-Means before after' (r, refl, np, ne, nh) _ refl)))
