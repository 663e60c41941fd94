-- ===== src/PlanBody/Depth.antt =====
-- The depth-first search: it ends within its fuel, and what it blackens is an order of the steps.
use mathlib.Core.List.{Nodup}
use forge_engine.Prelude.{
  ℕ, zero, suc, ◌+◌, ◌≤◌, ◌<◌, ◌≡◌, subst, String, true, false, List, [], ◌∷◌, arith, if-lift, inl,
  inr, contains, contains_head, contains_tail, contains_cons_inv, length, Nodup-cons_new,
  Nodup-length_le, mem→contains, contains→mem,
}
use forge_engine.PlanBody.{
  StepRef, ids, deps_of, Search, cycle, no_fuel, searched, each, blacken, dfs,
}

-- The steps in the list come after their dependencies, read from the end.
abbrev pub IsSettled : List StepRef → List String → Type 0
IsSettled rs [] = Unit
IsSettled rs (id ∷ black) =
    ((d : String) → contains (deps_of rs id) d ≡ true → contains black d ≡ true)
    × IsSettled rs black

abbrev pub IsIn : List String → List String → Type 0
IsIn xs ys = (x : String) → contains xs x ≡ true → contains ys x ≡ true

-- What a search makes of the black ids, when it was to blacken ds.
abbrev pub Searched : List StepRef → List String → List String → Search → Type 0
Searched rs black ds cycle = Unit
Searched rs black ds no_fuel = ⊥
Searched rs black ds (searched black') = IsSettled rs black' × IsIn black black' × IsIn ds black'

only : (x d : String) → contains (x ∷ []) d ≡ true → x ≡ d
unfolding contains
only x d h = elim (contains_cons_inv x d [] h) [ inl e ↦ e | inr m ↦ cc ]

pub each-Searched :
    (rs : List StepRef) (go : List String → String → Search) (black ds : List String)
    → ((black' : List String) (d : String)
        → contains ds d ≡ true
        → IsSettled rs black'
        → Searched rs black' (d ∷ []) (go black' d))
    → IsSettled rs black
    → Searched rs black ds (each go black ds)
unfolding contains
each-Searched rs go black [] h s = (s, (λ x m. m), (λ x m. cc))
each-Searched rs go black (d ∷ ds) h s =
    first (go black d) (h black d (contains_head d ds) s)
      (λ black' s'. each-Searched rs go black' ds (λ b x m. h b x (contains_tail d x ds m)) s')
  where
    all_in :
        (black' black'' : List String)
        → IsIn (d ∷ []) black'
        → IsIn black' black''
        → IsIn ds black''
        → IsIn (d ∷ ds) black''
    all_in black' black'' here mono rest x m = elim (contains_cons_inv d x ds m) [
      | inl e ↦ subst (λ y. contains black'' y ≡ true) e (mono d (here d (contains_head d [])))
      | inr k ↦ rest x k
    ]

    later :
        (black' : List String) (t : Search)
        → IsIn black black'
        → IsIn (d ∷ []) black'
        → Searched rs black' ds t
        → Searched rs black (d ∷ ds) t
    later black' cycle up here r = tt
    later black' no_fuel up here r = r
    later black' (searched black'') up here (s', mono, rest) =
        (s', (λ x m. mono x (up x m)), all_in black' black'' here mono rest)

    first :
        (t : Search)
        → Searched rs black (d ∷ []) t
        → ((black' : List String) → IsSettled rs black' → Searched rs black' ds (each go black' ds))
        → Searched rs black
            (d ∷ ds)
            (elim t [ cycle ↦ cycle | no_fuel ↦ no_fuel | searched black' ↦ each go black' ds ])
    first cycle r rest = tt
    first no_fuel r rest = r
    first (searched black') (s', up, here) rest =
        later black' (each go black' ds) up here (rest black' s')

blacken-Searched :
    (rs : List StepRef) (black : List String) (id : String) (t : Search)
    → Searched rs black (deps_of rs id) t
    → Searched rs black (id ∷ []) (blacken id t)
blacken-Searched rs black id cycle r = tt
blacken-Searched rs black id no_fuel r = r
blacken-Searched rs black id (searched black') (s, up, deps) = (
  (deps, s),
  (λ x m. contains_tail id x black' (up x m)),
  (λ x m. subst (λ y. contains (id ∷ black') y ≡ true) (only id x m) (contains_head id black')),
)

-- The grey ids are steps, all different.
abbrev pub IsPath : List StepRef → List String → Type 0
IsPath rs grey = Nodup grey × IsIn grey (ids rs)

path_length :
    (rs : List StepRef) (grey : List String) → IsPath rs grey → length grey ≤ length (ids rs)
path_length rs grey (n, inside) =
    Nodup-length_le grey (ids rs) n
      (λ x m. contains→mem x (ids rs) (inside x (mem→contains x grey m)))

IsPath-next :
    (rs : List StepRef) (grey : List String) (id : String)
    → contains (ids rs) id ≡ true
    → contains grey id ≡ false
    → IsPath rs grey
    → IsPath rs (id ∷ grey)
IsPath-next rs grey id known new (n, inside) = (
  Nodup-cons_new id grey new n,
  (λ x m. elim (contains_cons_inv id x grey m) [
    | inl e ↦ subst (λ y. contains (ids rs) y ≡ true) e known
    | inr k ↦ inside x k
  ]),
)

-- Every dependency is a step.
abbrev pub IsClosed : List StepRef → Type 0
IsClosed rs = (id : String) → IsIn (deps_of rs id) (ids rs)

pub dfs-Searched :
    (fuel : ℕ) (rs : List StepRef) (grey black : List String) (id : String)
    → IsClosed rs
    → IsPath rs grey
    → length (ids rs) < fuel + length grey
    → contains (ids rs) id ≡ true
    → IsSettled rs black
    → Searched rs black (id ∷ []) (dfs fuel rs grey black id)
unfolding dfs
dfs-Searched zero rs grey black id closed path enough known s =
    absurd (omega (arith, enough, path_length rs grey path))
dfs-Searched (suc fuel) rs grey black id closed path enough known s =
    if-lift (Searched rs black (id ∷ [])) (contains black id) (searched black) _
      (λ done. (s, (λ x m. m), (λ x m. subst (λ y. contains black y ≡ true) (only id x m) done)))
      (λ _.
        if-lift (Searched rs black (id ∷ [])) (contains grey id) cycle _ (λ _. tt)
          (λ new. blacken-Searched rs black id _ (
            each-Searched rs (dfs fuel rs (id ∷ grey)) black (deps_of rs id)
              (λ black' d m s'.
                dfs-Searched fuel rs (id ∷ grey) black' d closed
                  (IsPath-next rs grey id known new path) (omega (arith, enough)) (closed id d m)
                  s')
              s)))
