-- ===== src/Shared/Ascending.antt =====
-- Lists in the order of a key.
use edo_adapter_enterprise.Shared.Tests.{Bool-cases, leb}
use edo_adapter_enterprise.Shared.Lists.{All}
use edo_adapter_enterprise.Shared.Tables.{insert_asc, order_by}
use edo_adapter_enterprise.Shared.Comprehensions.{All-insert_asc}
use Prim.Native.Nat.{ℕ, ◌≤◌}
use mathlib.Core.Logic.{inl, inr}
use mathlib.Core.List.{List, [], ◌∷◌}
use native.Mathlib.Omega.{arith}

module _ {ℓ} {A : Type ℓ} (key : A → ℕ) where
  abbrev AtLeast : ℕ → A → Type 0
  AtLeast n y = n ≤ key y

  abbrev pub IsAscending : List A → Type 0
  IsAscending [] = Unit
  IsAscending (x ∷ xs) = All (AtLeast (key x)) xs × IsAscending xs

  weaken : (m n : ℕ) → m ≤ n → (xs : List A) → All (AtLeast n) xs → All (AtLeast m) xs
  weaken m n h [] all = tt
  weaken m n h (x ∷ xs) all = (omega (arith, all.0), weaken m n h xs all.1)

  insert_asc-IsAscending :
      (x : A) (xs : List A) → IsAscending xs → IsAscending (insert_asc key x xs)
  insert_asc-IsAscending x [] h = (tt, tt)
  insert_asc-IsAscending x (y ∷ ys) h = elim (Bool-cases (leb (key x) (key y))) [
    | inl e ↦ rw e ((ground arith, weaken (key x) (key y) (ground arith) ys h.0), h)
    | inr e ↦ rw e (
      All-insert_asc (AtLeast (key y)) key x ys (ground arith) h.0,
      insert_asc-IsAscending x ys h.1,
    )
  ]

  pub order_by-IsAscending : (xs : List A) → IsAscending (order_by key xs)
  order_by-IsAscending [] = tt
  order_by-IsAscending (x ∷ xs) =
      insert_asc-IsAscending x (order_by key xs) (order_by-IsAscending xs)
