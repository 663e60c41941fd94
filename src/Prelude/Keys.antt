-- ===== src/Prelude/Keys.antt =====
-- Go's `map[string]bool` and `map[string]string` as lists, newest entry first.
use Prim.Native.String.{String}
use mathlib.Core.Path.{◌≡◌, refl}
use mathlib.Core.Logic.{◌⊎◌, inl, inr}
use mathlib.Core.Bool.{Bool, true, false, ◌||◌}
use mathlib.Core.List.{List, [], ◌∷◌, ◌++◌}
use mathlib.Core.Option.{Option, none, some}
use native.Mathlib.Omega.{arith}
use text.Mathlib.Text
use text.Mathlib.TextEquality.{eq_iff}
use text.Mathlib.TextPositions.{eq_refl}
use forge_engine.Prelude.Tests.{if◌then◌else◌, Bool-cases}

infix 50 ◌==◌
abbrev pub ◌==◌ : String → String → Bool
s == t = Text.◌==◌ s t

pub ==_self : (s : String) → (s == s) ≡ true
==_self s = eq_refl s

pub ==→≡ : (s t : String) → (s == t) ≡ true → s ≡ t
==→≡ s t h = (eq_iff s t).0 h

pub String-discrete : Discrete String
String-discrete s t = elim (Bool-cases (s == t)) [
  | inl e ↦ yes (==→≡ s t e)
  | inr n ↦ no (λ p. cc (n, (eq_iff s t).1 p))
]

-- `set[x]` of a `map[string]bool`.
unfoldable pub contains : List String → String → Bool
contains [] x = false
contains (y ∷ ys) x = y == x || contains ys x

pub contains-cons :
    (y x : String) (ys : List String) → contains (y ∷ ys) x ≡ (y == x || contains ys x)
unfolding contains
contains-cons y x ys = refl

pub contains_head : (x : String) (xs : List String) → contains (x ∷ xs) x ≡ true
unfolding contains
contains_head x xs = ground (arith, ==_self x)

pub contains_tail :
    (y x : String) (xs : List String) → contains xs x ≡ true → contains (y ∷ xs) x ≡ true
unfolding contains
contains_tail y x xs h = ground arith

pub contains_cons_inv :
    (y x : String) (ys : List String)
    → contains (y ∷ ys) x ≡ true
    → (y ≡ x) ⊎ (contains ys x ≡ true)
unfolding contains
contains_cons_inv y x ys h = ground (arith, eq_iff y x)

pub contains-append :
    (xs ys : List String) (x : String) → contains (xs ++ ys) x ≡ (contains xs x || contains ys x)
unfolding contains
contains-append [] ys x = refl
contains-append (y ∷ xs) ys x = ground (arith, contains-append xs ys x)

-- `m[k]` of a map, with its `ok`.
module _ {ℓ} {V : Type ℓ} where
  unfoldable pub lookup : String → List (String × V) → Option V
  lookup k [] = none
  lookup k ((j, v) ∷ m) = if j == k then some v else lookup k m
