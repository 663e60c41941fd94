-- ===== src/Plan/Order.antt =====
-- What every state of the sort satisfies: the steps ordered so far come from the plan, each after
-- its dependencies, and the rounds run out of steps before they run out of fuel.
use mathlib.Core.List.{Memᴰ, Nodup, Perm, perm_middle, Nodup-nil}
use mathlib.Core.List.Perm
use forge_engine.Prelude.{
  ℕ, suc, ◌+◌, ◌≤◌, ◌<◌, ◌≡◌, refl, ap, String, true, false, List, [], ◌∷◌, ◌++◌, map, arith,
  length, length-append, All, All-append, if◌then◌else◌, contains, contains-cons, ==_self,
  Bool-cases, inl, inr, Nodup-cons_new,
}
use forge_engine.Json.{Fields}
use forge_engine.Plan.Steps.{
  stable_id-annotate, dep_stable_ids-annotate, AllDone, deps_ready→AllDone,
}
use forge_engine.Plan.{
  IdTable, stable_id, depends_on, dep_stable_ids, deps_ready, annotate, Sort, visit, pass, start,
}

-- Each step stands after its dependencies, and no stable id comes twice.
abbrev pub InOrder : List String → List Fields → Type 0
InOrder seen [] = Unit {0}
InOrder seen (step ∷ steps) =
    AllDone seen (dep_stable_ids step)
    × (contains seen (stable_id step) ≡ false)
    × InOrder (stable_id step ∷ seen) steps

abbrev pub seen_after : List String → List Fields → List String
seen_after seen [] = seen
seen_after seen (step ∷ steps) = seen_after (stable_id step ∷ seen) steps

InOrder-snoc :
    (seen : List String) (steps : List Fields) (step : Fields)
    → InOrder seen steps
    → AllDone (seen_after seen steps) (dep_stable_ids step)
    → contains (seen_after seen steps) (stable_id step) ≡ false
    → InOrder seen (steps ++ (step ∷ []))
InOrder-snoc seen [] step i d n = (d, n, tt)
InOrder-snoc seen (s ∷ steps) step i d n =
    (i.0, i.1, InOrder-snoc (stable_id s ∷ seen) steps step i.2 d n)

seen_after-snoc :
    (seen : List String) (steps : List Fields) (step : Fields)
    → seen_after seen (steps ++ (step ∷ [])) ≡ stable_id step ∷ seen_after seen steps
seen_after-snoc seen [] step = refl
seen_after-snoc seen (s ∷ steps) step = seen_after-snoc (stable_id s ∷ seen) steps step

pub seen_after-perm :
    (seen : List String) (steps : List Fields)
    → Perm (seen_after seen steps) (map stable_id steps ++ seen)
seen_after-perm seen [] = Perm.refl seen
seen_after-perm seen (s ∷ steps) =
    Perm.trans (seen_after-perm (stable_id s ∷ seen) steps) (perm_middle (map stable_id steps) seen)

-- How many steps are not done yet.
abbrev pub pending : List Fields → List String → ℕ
pending [] done = 0
pending (step ∷ steps) done =
    let rest = pending steps done in if contains done (stable_id step) then rest else suc rest

pending-cons_le :
    (steps : List Fields) (sid : String) (done : List String)
    → pending steps (sid ∷ done) ≤ pending steps done
pending-cons_le [] sid done = omega arith
pending-cons_le (step ∷ steps) sid done =
    ground (arith, pending-cons_le steps sid done, contains-cons sid (stable_id step) done)

pending-cons_lt :
    (steps : List Fields) (step : Fields) (done : List String)
    → Memᴰ step steps
    → contains done (stable_id step) ≡ false
    → pending steps (stable_id step ∷ done) < pending steps done
pending-cons_lt [] step done m n = elim m [ ]
pending-cons_lt (s ∷ steps) step done (Memᴰ.head e) n = ground (
  arith,
  pending-cons_le steps (stable_id step) done,
  contains-cons (stable_id step) (stable_id s) done,
  ==_self (stable_id step),
)
pending-cons_lt (s ∷ steps) step done (Memᴰ.tail m) n =
    ground (
      arith,
      pending-cons_lt steps step done m n,
      contains-cons (stable_id step) (stable_id s) done,
    )

-- An ordered step is a step of the plan with its annotation.
pub data FromPlan (ids : IdTable) (plan : List Fields) (o : Fields) : Type 0 where
  from : (step : Fields) → Memᴰ step plan → o ≡ annotate ids step → FromPlan ids plan o

pub record IsSorting (ids : IdTable) (plan : List Fields) (s : Sort) : Type 0 where
  pub tracked : s.done ≡ seen_after [] s.ordered
  pub in_order : InOrder [] s.ordered
  pub distinct : Nodup s.done
  pub from_plan : All (FromPlan ids plan) s.ordered
  pub counted : length s.ordered + pending plan s.done ≤ length plan

module _ (ids : IdTable) (plan : List Fields) where
  -- A step that is visited, not done and ready is put behind the others.
  put-IsSorting :
      (step : Fields) (s : Sort)
      → Memᴰ step plan
      → contains s.done (stable_id step) ≡ false
      → deps_ready ids s.done (depends_on step) ≡ true
      → IsSorting ids plan s
      → IsSorting ids plan (record {
        done = stable_id step ∷ s.done;
        ordered = s.ordered ++ (annotate ids step ∷ []);
        progress = true;
      })
  put-IsSorting step s m n r i = record {
    tracked =
        rw (seen_after-snoc [] s.ordered (annotate ids step), stable_id-annotate, ← i.tracked);
    in_order =
        InOrder-snoc [] s.ordered (annotate ids step) i.in_order
          (rw (← i.tracked, dep_stable_ids-annotate)
            (deps_ready→AllDone ids s.done (depends_on step) r))
          (rw (← i.tracked, stable_id-annotate) n);
    distinct = Nodup-cons_new (stable_id step) s.done n i.distinct;
    from_plan = All-append _ s.ordered _ i.from_plan (from step m refl, tt);
    counted = omega (
      arith,
      length-append s.ordered (annotate ids step ∷ []),
      pending-cons_lt plan step s.done m n,
      i.counted,
    );
  }

  visit-IsSorting :
      (step : Fields) (s : Sort)
      → Memᴰ step plan
      → IsSorting ids plan s
      → IsSorting ids plan (visit ids step s)
  unfolding visit
  visit-IsSorting step s m i = elim (Bool-cases (contains s.done (stable_id step))) [
    | inl seen ↦ rw seen i
    | inr new ↦ elim (Bool-cases (deps_ready ids s.done (depends_on step))) [
      | inl ready ↦ rw (new, ready) (put-IsSorting step s m new ready i)
      | inr blocked ↦ rw (new, blocked) i
    ]
  ]

  -- The start of a round clears the flag alone.
  pub reset-IsSorting :
      (s : Sort) → IsSorting ids plan s → IsSorting ids plan (record s { progress = false })
  reset-IsSorting s i = record {
    tracked = i.tracked;
    in_order = i.in_order;
    distinct = i.distinct;
    from_plan = i.from_plan;
    counted = i.counted;
  }

  -- So a whole round keeps it.
  pub pass-IsSorting :
      (steps : List Fields) (s : Sort)
      → ((step : Fields) → Memᴰ step steps → Memᴰ step plan)
      → IsSorting ids plan s
      → IsSorting ids plan (pass ids steps s)
  unfolding pass
  pass-IsSorting [] s sub i = i
  pass-IsSorting (step ∷ steps) s sub i =
      pass-IsSorting steps (visit ids step s) (λ t m. sub t (Memᴰ.tail m))
        (visit-IsSorting step s (sub step (Memᴰ.head refl)) i)

pending-start : (plan : List Fields) → pending plan [] ≡ length plan
unfolding contains
pending-start [] = refl
pending-start (step ∷ plan) = ap suc (pending-start plan)

pub start-IsSorting : (ids : IdTable) (plan : List Fields) → IsSorting ids plan start
start-IsSorting ids plan = record {
  tracked = refl;
  in_order = tt;
  distinct = Nodup-nil;
  from_plan = tt;
  counted = omega (arith, pending-start plan);
}

-- A round that makes progress orders a step, so it shortens what is pending.
module _ (ids : IdTable) where
  visit-length : (step : Fields) (s : Sort) → length s.ordered ≤ length (visit ids step s).ordered
  unfolding visit
  visit-length step s = ground (arith, length-append s.ordered (annotate ids step ∷ []))

  visit_progress :
      (step : Fields) (s : Sort) (n : ℕ)
      → (s.progress ≡ true → n < length s.ordered)
      → n ≤ length s.ordered
      → (visit ids step s).progress ≡ true
      → n < length (visit ids step s).ordered
  unfolding visit
  visit_progress step s n h k = ground (arith, length-append s.ordered (annotate ids step ∷ []))

  pub pass_progress :
      (steps : List Fields) (s : Sort) (n : ℕ)
      → (s.progress ≡ true → n < length s.ordered)
      → n ≤ length s.ordered
      → (pass ids steps s).progress ≡ true
      → n < length (pass ids steps s).ordered
  unfolding pass
  pass_progress [] s n h k = h
  pass_progress (step ∷ steps) s n h k =
      pass_progress steps (visit ids step s) n (visit_progress step s n h k)
        (omega (arith, visit-length step s))
