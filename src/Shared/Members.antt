-- ===== src/Shared/Members.antt =====
-- The members of a list, and that ordering keeps them.
use edo_adapter_enterprise.Shared.Tests.{Bool-cases, leb}
use edo_adapter_enterprise.Shared.Lists.{All}
use edo_adapter_enterprise.Shared.Tables.{insert_asc, order_by}
use Prim.Native.Nat.{ℕ}
use mathlib.Core.Logic.{inl, inr}
use mathlib.Core.List.{List, [], ◌∷◌, Perm}
use mathlib.Core.List.Perm

-- The element stands in the list.
pub data IsIn {ℓ} {A : Type ℓ} : A → List A → Type ℓ where
  first : {x : A} {xs : List A} → IsIn x (x ∷ xs)
  later : {x y : A} {xs : List A} → IsIn x xs → IsIn x (y ∷ xs)

module _ {ℓ} {A : Type ℓ} where
  weaken : (y : A) (ys xs : List A) → All (λ x. IsIn x ys) xs → All (λ x. IsIn x (y ∷ ys)) xs
  weaken y ys [] h = tt
  weaken y ys (x ∷ xs) h = (later h.0, weaken y ys xs h.1)

  pub All-IsIn : (xs : List A) → All (λ x. IsIn x xs) xs
  All-IsIn [] = tt
  All-IsIn (x ∷ xs) = (first, weaken x xs xs (All-IsIn xs))

  insert_asc-Perm : (key : A → ℕ) (x : A) (xs : List A) → Perm (insert_asc key x xs) (x ∷ xs)
  insert_asc-Perm key x [] = Perm.refl (x ∷ [])
  insert_asc-Perm key x (y ∷ ys) = elim (Bool-cases (leb (key x) (key y))) [
    | inl e ↦ rw e (Perm.refl (x ∷ y ∷ ys))
    | inr e ↦ rw e (Perm.trans (Perm.cons y (insert_asc-Perm key x ys)) (Perm.swap x y ys))
  ]

  pub order_by-Perm : (key : A → ℕ) (xs : List A) → Perm (order_by key xs) xs
  order_by-Perm key [] = Perm.refl []
  order_by-Perm key (x ∷ xs) =
      Perm.trans (insert_asc-Perm key x (order_by key xs)) (Perm.cons x (order_by-Perm key xs))
