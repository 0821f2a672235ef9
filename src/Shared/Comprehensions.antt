-- ===== src/Shared/Comprehensions.antt =====
-- What holds of every element that a filtered, limited and mapped list keeps.
use edo_adapter_enterprise.Shared.Tests.{Bool-cases, leb}
use edo_adapter_enterprise.Shared.Lists.{length, take, drop, filter, All}
use edo_adapter_enterprise.Shared.Results.{Result, ok, err, ◌>>=◌, traverse}
use edo_adapter_enterprise.Shared.Tables.{insert_desc, order_by_desc, insert_asc, order_by}
use Prim.Native.Nat.{ℕ, zero, suc, ◌≤◌}
use mathlib.Core.Path.{◌≡◌, refl, ap, subst}
use mathlib.Core.Logic.{inl, inr}
use mathlib.Core.Bool.{Bool, true}
use mathlib.Core.List.{List, [], ◌∷◌, map}
use native.Mathlib.Omega.{arith}

module _ {ℓ} {A : Type ℓ} where
  pub All-filter : (p : A → Bool) (xs : List A) → All (λ x. p x ≡ true) (filter p xs)
  All-filter p [] = tt
  All-filter p (x ∷ xs) = elim (Bool-cases (p x)) [
    | inl e ↦ rw e (e, All-filter p xs)
    | inr e ↦ rw e (All-filter p xs)
  ]

  pub All-take {κ} : (P : A → Type κ) (n : ℕ) (xs : List A) → All P xs → All P (take n xs)
  All-take P zero xs h = tt
  All-take P (suc n) [] h = tt
  All-take P (suc n) (x ∷ xs) h = (h.0, All-take P n xs h.1)

  pub length-take-le : (n : ℕ) (xs : List A) → length (take n xs) ≤ n
  length-take-le zero xs = omega arith
  length-take-le (suc n) [] = omega arith
  length-take-le (suc n) (x ∷ xs) = omega (arith, length-take-le n xs)

ok_or {ℓ} : {A : Type ℓ} → A → Result A → A
ok_or d (ok a) = a
ok_or d (err e) = d

ok-injective {ℓ} : {A : Type ℓ} {a b : A} → ok a ≡ ok b → a ≡ b
unfolding ok_or
ok-injective {a} p = ap (ok_or a) p

-- A step that returns after another one: both have returned.
module _ {ℓ κ} {A : Type ℓ} {B : Type κ} (next : A → Result B) where
  pub both_returned :
      (y : B) (first : Result A)
      → (first >>= next) ≡ ok y
      → (x : A) × (first ≡ ok x) × (next x ≡ ok y)
  both_returned y (err fault) whole = cc
  both_returned y (ok x) whole = (x, refl, whole)

pub All-traverse {ℓ κ μ ν} :
    {A : Type ℓ} {B : Type κ} (P : A → Type μ) (Q : B → Type ν) (f : A → Result B)
    → ((x : A) (y : B) → P x → f x ≡ ok y → Q y)
    → (xs : List A) (ys : List B) → All P xs
    → traverse f xs ≡ ok ys
    → All Q ys × (length ys ≡ length xs)
All-traverse P Q f keep [] [] h e = (tt, refl)
All-traverse P Q f keep [] (y ∷ ys) h e = cc
All-traverse P Q f keep (x ∷ xs) ys h e =
    let (y, fy, rest) = both_returned (λ y. traverse f xs >>= λ ys. ok (y ∷ ys)) ys (f x) e in
    let (zs, fxs, all) = both_returned (λ zs. ok (y ∷ zs)) ys (traverse f xs) rest in
    let (hs, n) = All-traverse P Q f keep xs zs h.1 fxs in
    subst (λ l. All Q l × (length l ≡ suc (length xs))) (ok-injective all)
      ((keep x y h.0 fy, hs), ap suc n)

-- Every element of the result of a query was in the table.
pub All-drop {ℓ κ} :
    {A : Type ℓ} (P : A → Type κ) (n : ℕ) (xs : List A) → All P xs → All P (drop n xs)
All-drop P zero xs h = h
All-drop P (suc n) [] h = tt
All-drop P (suc n) (x ∷ xs) h = All-drop P n xs h.1

All-insert_desc {ℓ κ} :
    {A : Type ℓ} (P : A → Type κ) (key : A → ℕ) (x : A) (xs : List A)
    → P x
    → All P xs
    → All P (insert_desc key x xs)
All-insert_desc P key x [] p h = (p, tt)
All-insert_desc P key x (y ∷ ys) p h = elim (Bool-cases (leb (key y) (key x))) [
  | inl e ↦ rw e (p, h)
  | inr e ↦ rw e (h.0, All-insert_desc P key x ys p h.1)
]

pub All-order_by_desc {ℓ κ} :
    {A : Type ℓ} (P : A → Type κ) (key : A → ℕ) (xs : List A)
    → All P xs
    → All P (order_by_desc key xs)
All-order_by_desc P key [] h = tt
All-order_by_desc P key (x ∷ xs) h =
    All-insert_desc P key x (order_by_desc key xs) h.0 (All-order_by_desc P key xs h.1)

pub length-map {ℓ κ} :
    {A : Type ℓ} {B : Type κ} (f : A → B) (xs : List A) → length (map f xs) ≡ length xs
length-map f [] = refl
length-map f (x ∷ xs) = ap suc (length-map f xs)

pub All-map {ℓ κ μ ν} :
    {A : Type ℓ} {B : Type κ} (P : A → Type μ) (Q : B → Type ν) (f : A → B)
    → ((x : A) → P x → Q (f x))
    → (xs : List A) → All P xs
    → All Q (map f xs)
All-map P Q f keep [] h = tt
All-map P Q f keep (x ∷ xs) h = (keep x h.0, All-map P Q f keep xs h.1)

pub All-insert_asc {ℓ κ} :
    {A : Type ℓ} (P : A → Type κ) (key : A → ℕ) (x : A) (xs : List A)
    → P x
    → All P xs
    → All P (insert_asc key x xs)
All-insert_asc P key x [] p h = (p, tt)
All-insert_asc P key x (y ∷ ys) p h = elim (Bool-cases (leb (key x) (key y))) [
  | inl e ↦ rw e (p, h)
  | inr e ↦ rw e (h.0, All-insert_asc P key x ys p h.1)
]

pub All-order_by {ℓ κ} :
    {A : Type ℓ} (P : A → Type κ) (key : A → ℕ) (xs : List A) → All P xs → All P (order_by key xs)
All-order_by P key [] h = tt
All-order_by P key (x ∷ xs) h =
    All-insert_asc P key x (order_by key xs) h.0 (All-order_by P key xs h.1)

pub All-imp {ℓ κ μ} :
    {A : Type ℓ} (P : A → Type κ) (Q : A → Type μ)
    → ((x : A) → P x → Q x)
    → (xs : List A) → All P xs
    → All Q xs
All-imp P Q imp [] h = tt
All-imp P Q imp (x ∷ xs) h = (imp x h.0, All-imp P Q imp xs h.1)

pub All-both {ℓ κ μ} :
    {A : Type ℓ} (P : A → Type κ) (Q : A → Type μ) (xs : List A)
    → All P xs
    → All Q xs
    → All (λ x. P x × Q x) xs
All-both P Q [] p q = tt
All-both P Q (x ∷ xs) p q = ((p.0, q.0), All-both P Q xs p.1 q.1)
