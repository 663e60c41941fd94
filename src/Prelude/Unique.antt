-- ===== src/Prelude/Unique.antt =====
-- Lists without repetition.
use mathlib.Core.Path.{◌≡◌, refl, sym, ap, subst}
use mathlib.Core.Logic.{∥∥₁_elim, inl, inr}
use mathlib.Core.Logic.Or
use mathlib.Core.Bool.{true, false}
use mathlib.Core.List.{List, [], ◌∷◌, Mem, Memᴰ, Perm, Nodup, Subset, Nodup-cons, mem-cons}
use mathlib.Core.List
use mathlib.Core.List.Nodup
use mathlib.Core.List.Subperm
use Prim.Native.Nat.{suc, ◌≤◌}
use Prim.Native.String.{String}
use native.Mathlib.Bridge.{from_ℕ, from_le, from_le⁻¹}
use native.Mathlib.Omega.{arith}
use forge_engine.Prelude.Lists.{length}
use forge_engine.Prelude.Keys.{contains, contains_head, contains_tail, contains_cons_inv}

from_ℕ-length {ℓ} : {A : Type ℓ} (xs : List A) → from_ℕ (List.length xs) ≡ length xs
from_ℕ-length [] = refl
from_ℕ-length (x ∷ xs) = ap suc (from_ℕ-length xs)

-- A list without repetition inside another that is no longer has the same members.
pub Nodup-perm {ℓ} :
    {A : Type ℓ} (xs ys : List A) → Nodup xs → Subset xs ys → length ys ≤ length xs → Perm xs ys
Nodup-perm xs ys n s h =
    Subperm.perm_of_length_le (Nodup.subperm n s)
      (from_le⁻¹ _ _ (omega (arith, from_ℕ-length ys, from_ℕ-length xs)))

-- A list without repetition is no longer than one that holds all its members.
pub Nodup-length_le {ℓ} :
    {A : Type ℓ} (xs ys : List A) → Nodup xs → Subset xs ys → length xs ≤ length ys
Nodup-length_le xs ys n s =
    omega
      (arith, from_le (Subperm.length-le (Nodup.subperm n s)), from_ℕ-length ys, from_ℕ-length xs)

Memᴰ-contains : (x : String) (xs : List String) → Memᴰ x xs → contains xs x ≡ true
Memᴰ-contains x [] m = elim m [ ]
Memᴰ-contains x (y ∷ xs) (Memᴰ.head e) =
    subst (λ z. contains (z ∷ xs) x ≡ true) e (contains_head x xs)
Memᴰ-contains x (y ∷ xs) (Memᴰ.tail m) = contains_tail y x xs (Memᴰ-contains x xs m)

-- The members of a key list, read by the program's test.
pub mem→contains : (x : String) (xs : List String) → Mem x xs → contains xs x ≡ true
mem→contains x xs m = ∥∥₁_elim m (hlevel) (Memᴰ-contains x xs)

pub contains→mem : (x : String) (xs : List String) → contains xs x ≡ true → Mem x xs
unfolding contains
contains→mem x [] h = cc
contains→mem x (y ∷ xs) h = elim (contains_cons_inv y x xs h) [
  | inl e ↦ mem-cons.1 (Or.inl (sym e))
  | inr m ↦ mem-cons.1 (Or.inr (contains→mem x xs m))
]

-- Adding a key that the test does not find keeps the keys distinct.
pub Nodup-cons_new :
    (x : String) (xs : List String) → contains xs x ≡ false → Nodup xs → Nodup (x ∷ xs)
Nodup-cons_new x xs fresh n = Nodup-cons.1 ((λ m. cc (fresh, mem→contains x xs m)), n)
