-- ===== src/Shared/Selected.antt =====
-- Lists whose elements all have a property: what a selection, a reading or a page of them keeps.
use edo_adapter_enterprise.Shared.Tests.{Bool-cases, Option-cases}
use edo_adapter_enterprise.Shared.Lists.{take, drop, filter, All}
use edo_adapter_enterprise.Shared.Results.{Result, ok, traverse, traverse_option}
use edo_adapter_enterprise.Shared.Tables.{select_one}
use Prim.Native.Nat.{ℕ, zero, suc}
use mathlib.Core.Path.{◌≡◌, refl, subst}
use mathlib.Core.Logic.{inl, inr}
use mathlib.Core.Bool.{Bool, false}
use mathlib.Core.Option.{Option, none, some}
use mathlib.Core.List.{List, [], ◌∷◌}
use native.Mathlib.Omega.{arith}

pub All-filter_keep {ℓ κ} :
    {A : Type ℓ} (P : A → Type κ) (p : A → Bool) (xs : List A) → All P xs → All P (filter p xs)
All-filter_keep P p [] h = tt
All-filter_keep P p (x ∷ xs) h = elim (Bool-cases (p x)) [
  | inl e ↦ rw e (h.0, All-filter_keep P p xs h.1)
  | inr e ↦ rw e (All-filter_keep P p xs h.1)
]

pub filter-none {ℓ} :
    {A : Type ℓ} (p : A → Bool) (xs : List A) → All (λ x. p x ≡ false) xs → filter p xs ≡ []
filter-none p [] h = refl
filter-none p (x ∷ xs) h = rw h.0 (filter-none p xs h.1)

pub traverse-ok {ℓ κ} :
    {A : Type ℓ} {B : Type κ} (f : A → Result B) (xs : List A)
    → All (λ x. (y : B) × (f x ≡ ok y)) xs
    → (ys : List B) × (traverse f xs ≡ ok ys)
traverse-ok f [] h = ([], refl)
traverse-ok f (x ∷ xs) h =
    let (y, e) = h.0 in let (ys, q) = traverse-ok f xs h.1 in (y ∷ ys, rw e (rw q refl))

select_one-All {ℓ κ} :
    {A : Type ℓ} (P : A → Type κ) (p : A → Bool) (xs : List A) (x : A)
    → All P xs
    → select_one p xs ≡ some x
    → P x
select_one-All P p [] x h e = absurd (ground arith)
select_one-All P p (y ∷ ys) x h e = elim (Bool-cases (p y)) [
  | inl q ↦ let same : y ≡ x = ground (arith, q, e) in subst P same h.0
  | inr q ↦ select_one-All P p ys x h.1 (ground (arith, q, e))
]

pub read_one {ℓ κ} :
    {A : Type ℓ} {B : Type κ} (f : A → Result B) (p : A → Bool) (xs : List A)
    → All (λ x. (y : B) × (f x ≡ ok y)) xs
    → (y : Option B) × (traverse_option f (select_one p xs) ≡ ok y)
read_one {B} f p xs h = elim (Option-cases (select_one p xs)) [
  | inl e ↦ (none, rw e refl)
  | inr (x, e) ↦
      let (y, q) = select_one-All (λ x. (y : B) × (f x ≡ ok y)) p xs x h e in
      (some y, rw e (rw q refl))
]

pub drop-nil {ℓ} : {A : Type ℓ} (n : ℕ) → drop {A = A} n [] ≡ []
drop-nil zero = refl
drop-nil (suc n) = refl

pub take-nil {ℓ} : {A : Type ℓ} (n : ℕ) → take {A = A} n [] ≡ []
take-nil zero = refl
take-nil (suc n) = refl
