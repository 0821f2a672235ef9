-- ===== src/Shared/Tables.antt =====
-- A relational table as the list of its rows, in the order of their insertion: the reads and writes
-- that the program's SELECT, INSERT and UPDATE statements make.
use edo_adapter_enterprise.Shared.Tests.{leb, if◌then◌else◌}
use Prim.Native.Nat.{ℕ}
use mathlib.Core.Path.{◌≡◌, refl}
use mathlib.Core.Bool.{Bool, true, false}
use mathlib.Core.Option.{Option, none, some}
use mathlib.Core.List.{List, [], ◌∷◌, ◌++◌}
use native.Mathlib.Omega.{arith}

module _ {ℓ} {A : Type ℓ} where
  -- `scalar_one_or_none` of a SELECT whose condition a primary key or a unique constraint makes
  -- single: the row, if there is one.
  abbrev pub select_one : (A → Bool) → List A → Option A
  select_one p [] = none
  select_one p (x ∷ xs) = let rest = select_one p xs in if p x then some x else rest

  -- `session.add`
  abbrev pub add : A → List A → List A
  add x xs = xs ++ x ∷ []

  -- An UPDATE with a condition.
  abbrev pub update_where : (A → Bool) → (A → A) → List A → List A
  update_where p f [] = []
  update_where p f (x ∷ xs) = (if p x then f x else x) ∷ update_where p f xs

  abbrev pub insert_desc : (A → ℕ) → A → List A → List A
  insert_desc key x [] = x ∷ []
  insert_desc key x (y ∷ ys) =
      let rest = insert_desc key x ys in if leb (key y) (key x) then x ∷ y ∷ ys else y ∷ rest

  -- `order_by(key.desc())`; of rows with one key the earlier comes first, where SQL leaves the order
  -- open.
  abbrev pub order_by_desc : (A → ℕ) → List A → List A
  order_by_desc key [] = []
  order_by_desc key (x ∷ xs) = insert_desc key x (order_by_desc key xs)

  -- `order_by(key)`, in the same way.
  abbrev pub insert_asc : (A → ℕ) → A → List A → List A
  insert_asc key x [] = x ∷ []
  insert_asc key x (y ∷ ys) =
      let rest = insert_asc key x ys in if leb (key x) (key y) then x ∷ y ∷ ys else y ∷ rest

  abbrev pub order_by : (A → ℕ) → List A → List A
  order_by key [] = []
  order_by key (x ∷ xs) = insert_asc key x (order_by key xs)

  pub select_one-add :
      (p : A → Bool) (x : A) (xs : List A)
      → select_one p xs ≡ none
      → select_one p (add x xs) ≡ (if p x then some x else none)
  select_one-add p x [] h = refl
  select_one-add p x (y ∷ ys) h = ground (arith, select_one-add p x ys)

  pub select_one-holds :
      (p : A → Bool) (xs : List A) (x : A) → select_one p xs ≡ some x → p x ≡ true
  select_one-holds p [] x h = ground arith
  select_one-holds p (y ∷ ys) x h = ground (arith, select_one-holds p ys x)

  -- The updated row is found in the place of the old one, if the update keeps what is looked for.
  pub select_one-update_where :
      (p : A → Bool) (f : A → A) (xs : List A) (x : A)
      → ((y : A) → p (f y) ≡ p y)
      → select_one p xs ≡ some x
      → select_one p (update_where p f xs) ≡ some (f x)
  select_one-update_where p f [] x keep h = ground arith
  select_one-update_where p f (y ∷ ys) x keep h =
      ground (arith, keep y, select_one-update_where p f ys x keep)

  -- A row that the update does not touch is found as before.
  pub select_one-update_other :
      (p q : A → Bool) (f : A → A) (xs : List A)
      → ((y : A) → q y ≡ true → p y ≡ false)
      → ((y : A) → q y ≡ true → p (f y) ≡ false)
      → select_one p (update_where q f xs) ≡ select_one p xs
  select_one-update_other p q f [] apart apart' = refl
  select_one-update_other p q f (y ∷ ys) apart apart' =
      ground (arith, apart y, apart' y, select_one-update_other p q f ys apart apart')
