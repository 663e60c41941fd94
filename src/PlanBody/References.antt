-- ===== src/PlanBody/References.antt =====
-- The loop that collects the steps of a plan body: different ids, and an error that it can have.
use mathlib.Core.List.{Nodup, Nodup-nil}
use forge_engine.Prelude.{
  ap, map, ◌∙◌, ◌≡◌, ◌≢◌, refl, sym, subst, String, Bool, true, false, not, List, [], ◌∷◌, arith,
  if-lift, Bool-cases, inl, inr, if◌then◌else◌, ◌==◌, contains, contains_head, contains_cons_inv,
  Nodup-cons_new,
}
use forge_engine.Json.{
  Fields, objects, null, bool, num, str, arr, obj, Items, nil, cons, get, str_or_empty,
  extract_string_slice,
}
use forge_engine.PlanBody.{
  BodyError, out_of_fuel, missing_step_field, empty_id, duplicate_id, StepRef, Refs, refs, bad,
  add_ref, ids, step_refs, step_required, has_fields,
}

add_ref-refs :
    (r : StepRef) (x : Refs) (rs : List StepRef)
    → add_ref r x ≡ refs rs
    → (rest : List StepRef) × (x ≡ refs rest) × (rs ≡ r ∷ rest)
add_ref-refs r (refs rest) rs e = (rest, refl, cc)
add_ref-refs r (bad b) rs e = cc

-- The ids of the references are new and different.
abbrev pub FreshIds : List String → List StepRef → Type 0
FreshIds seen rs =
    Nodup (ids rs) × ((x : String) → contains (ids rs) x ≡ true → contains seen x ≡ false)

step_tests :
    (missing empty twice : Bool) (r : StepRef) (x : Refs) (rs : List StepRef) (e₁ e₂ e₃ : BodyError)
    → (if missing then bad e₁ else if empty then bad e₂ else if twice then bad e₃ else add_ref r x)
      ≡ refs rs
    → (twice ≡ false) × (add_ref r x ≡ refs rs)
step_tests true empty twice r x rs e₁ e₂ e₃ h = cc
step_tests false true twice r x rs e₁ e₂ e₃ h = cc
step_tests false false true r x rs e₁ e₂ e₃ h = cc
step_tests false false false r x rs e₁ e₂ e₃ h = (refl, h)

cons_FreshIds :
    (seen : List String) (id : String) (deps : List String) (rest : List StepRef)
    → contains seen id ≡ false
    → Nodup (ids rest)
    → ((x : String) → contains (ids rest) x ≡ true → contains (id ∷ seen) x ≡ false)
    → FreshIds seen (record { id = id; depends_on = deps } ∷ rest)
unfolding contains
cons_FreshIds seen id deps rest new distinct fresh = (
  Nodup-cons_new id (ids rest) other distinct,
  (λ x m. elim (contains_cons_inv id x (ids rest) m) [
    | inl e ↦ subst (λ y. contains seen y ≡ false) e new
    | inr k ↦ let f = fresh x k in ground (arith, f)
  ]),
)
  where
    other : contains (ids rest) id ≡ false
    other = elim (Bool-cases (contains (ids rest) id)) [
      | inl y ↦ absurd (cc (fresh id y, contains_head id seen))
      | inr n ↦ n
    ]

pub step_refs-FreshIds :
    (seen : List String) (items : Items) (rs : List StepRef)
    → step_refs seen items ≡ refs rs
    → FreshIds seen rs
unfolding step_refs contains
step_refs-FreshIds seen nil [] h = (Nodup-nil, (λ x m. cc))
step_refs-FreshIds seen nil (r ∷ rs) h = cc
step_refs-FreshIds seen (cons (obj step) items) rs h =
    let id = str_or_empty (get "id" step) in
    let (new, added) =
      step_tests (not (has_fields step step_required)) (id == "") (contains seen id)
        (record { id = id; depends_on = extract_string_slice (get "depends_on" step) })
        (step_refs (id ∷ seen) items) rs missing_step_field empty_id duplicate_id h in
    let (rest, e, rs_e) = add_ref-refs _ (step_refs (id ∷ seen) items) rs added in
    let (distinct, fresh) = step_refs-FreshIds (id ∷ seen) items rest e in
    subst (FreshIds seen) (sym rs_e)
      (cons_FreshIds seen id (extract_string_slice (get "depends_on" step)) rest new distinct fresh)
step_refs-FreshIds seen (cons null items) rs h = cc
step_refs-FreshIds seen (cons (bool b) items) rs h = cc
step_refs-FreshIds seen (cons (num n) items) rs h = cc
step_refs-FreshIds seen (cons (str s) items) rs h = cc
step_refs-FreshIds seen (cons (arr xs) items) rs h = cc

-- The reference that the loop makes of a step.
abbrev pub ref_of : Fields → StepRef
ref_of step = record {
  id = str_or_empty (get "id" step);
  depends_on = extract_string_slice (get "depends_on" step);
}

-- Without an error there is one reference for each step, in order.
pub step_refs-map :
    (seen : List String) (items : Items) (rs : List StepRef)
    → step_refs seen items ≡ refs rs
    → rs ≡ map ref_of (objects items)
unfolding step_refs objects
step_refs-map seen nil [] h = refl
step_refs-map seen nil (r ∷ rs) h = cc
step_refs-map seen (cons (obj step) items) rs h =
    let id = str_or_empty (get "id" step) in
    let (new, added) =
      step_tests (not (has_fields step step_required)) (id == "") (contains seen id) (ref_of step)
        (step_refs (id ∷ seen) items) rs missing_step_field empty_id duplicate_id h in
    let (rest, e, rs_e) = add_ref-refs _ (step_refs (id ∷ seen) items) rs added in
    rs_e ∙ ap (◌∷◌ (ref_of step)) (step_refs-map (id ∷ seen) items rest e)
step_refs-map seen (cons null items) rs h = cc
step_refs-map seen (cons (bool b) items) rs h = cc
step_refs-map seen (cons (num n) items) rs h = cc
step_refs-map seen (cons (str s) items) rs h = cc
step_refs-map seen (cons (arr xs) items) rs h = cc

add_ref-ends : (r : StepRef) (x : Refs) → x ≢ bad out_of_fuel → add_ref r x ≢ bad out_of_fuel
add_ref-ends r (refs rs) n e = cc
add_ref-ends r (bad b) n e = n e

abbrev pub Ends : Refs → Type 0
Ends r = r ≢ bad out_of_fuel

pub step_refs-ends : (seen : List String) (items : Items) → step_refs seen items ≢ bad out_of_fuel
unfolding step_refs
step_refs-ends seen nil = λ e. cc
step_refs-ends seen (cons (obj step) items) =
    let id = str_or_empty (get "id" step) in
    let r : StepRef = record {
      id = id;
      depends_on = extract_string_slice (get "depends_on" step);
    } in
    let rest = add_ref-ends r (step_refs (id ∷ seen) items) (step_refs-ends (id ∷ seen) items) in
    if-lift Ends (not (has_fields step step_required)) (bad missing_step_field) _ (λ _ e. cc)
      (λ _.
        if-lift Ends (id == "") (bad empty_id) _ (λ _ e. cc)
          (λ _. if-lift Ends (contains seen id) (bad duplicate_id) _ (λ _ e. cc) (λ _. rest)))
step_refs-ends seen (cons null items) = λ e. cc
step_refs-ends seen (cons (bool b) items) = λ e. cc
step_refs-ends seen (cons (num n) items) = λ e. cc
step_refs-ends seen (cons (str s) items) = λ e. cc
step_refs-ends seen (cons (arr xs) items) = λ e. cc
