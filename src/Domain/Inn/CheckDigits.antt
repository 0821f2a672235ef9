-- ===== src/Domain/Inn/CheckDigits.antt =====
-- The check digits of an INN: they exist, they are unique, and what they detect.
use edo_adapter_enterprise.Shared.{
  ℕ, ◌<◌, ◌≡◌, ◌↔◌, refl, true, ◌&&◌, List, [], ◌∷◌, ◌++◌, ◌==◌, length, take, length-append,
  take-append_length, arith, subst,
}
use mathlib.Core.List.{append_assoc}
use edo_adapter_enterprise.Domain.Inn.{
  legal_weights_1, indiv_weights_1, indiv_weights_2, weighted, digit, validate,
}

weighted-lt : (digits weights : List ℕ) → weighted digits weights < 10
unfolding weighted
weighted-lt digits weights = omega arith

digit-append : (xs ys : List ℕ) (y : ℕ) → digit (xs ++ y ∷ ys) (length xs) ≡ y
unfolding digit
digit-append [] ys y = refl
digit-append (x ∷ xs) ys y = digit-append xs ys y

-- The parts of a list that ends in known digits.
module _ (ds : List ℕ) {n : ℕ} (h : length ds ≡ n) where
  take-append : (ys : List ℕ) → take n (ds ++ ys) ≡ ds
  take-append ys = subst (λ k. take k (ds ++ ys) ≡ ds) h (take-append_length ds ys)

  digit-append_at : (y : ℕ) (ys : List ℕ) → digit (ds ++ y ∷ ys) n ≡ y
  digit-append_at y ys = subst (λ k. digit (ds ++ y ∷ ys) k ≡ y) h (digit-append ds ys y)

-- What `validate` says of nine digits and a check digit.
pub validate_legal :
    (ds : List ℕ) (c : ℕ)
    → length ds ≡ 9
    → validate (ds ++ c ∷ []) ≡ (c == weighted ds legal_weights_1)
unfolding validate
validate_legal ds c h =
    ground (arith, length-append ds (c ∷ []), take-append ds h (c ∷ []), digit-append_at ds h c [])

-- What `validate` says of ten digits and two check digits.
validate_individual :
    (ds : List ℕ) (c e : ℕ)
    → length ds ≡ 10
    → validate (ds ++ c ∷ e ∷ [])
      ≡ (c == weighted ds indiv_weights_1 && e == weighted (ds ++ c ∷ []) indiv_weights_2)
unfolding validate
validate_individual ds c e h = ground (
  arith,
  length-append ds (c ∷ e ∷ []),
  length-append ds (c ∷ []),
  take-append ds h (c ∷ e ∷ []),
  digit-append_at ds h c (e ∷ []),
  append_assoc ds (c ∷ []) (e ∷ []),
  take-append (ds ++ c ∷ []) {n = 11} (omega (arith, length-append ds (c ∷ []))) (e ∷ []),
  digit-append_at (ds ++ c ∷ []) {n = 11} (omega (arith, length-append ds (c ∷ []))) e [],
)

-- Any nine digits are completed to a valid INN of a legal entity by exactly one check digit, and
-- that is a decimal digit.
legal_check_digit :
    (ds : List ℕ)
    → length ds ≡ 9
    → (c : ℕ) × (c < 10) × ((d : ℕ) → (validate (ds ++ d ∷ []) ≡ true) ↔ (d ≡ c))
legal_check_digit ds h = (
  weighted ds legal_weights_1,
  weighted-lt ds legal_weights_1,
  λ d. ground (arith, validate_legal ds d h),
)

-- Any ten digits are completed to a valid INN of a person by exactly one pair of check digits, and
-- both are decimal digits.
individual_check_digits :
    (ds : List ℕ)
    → length ds ≡ 10
    → (c e : ℕ) × (c < 10)
      × (e < 10)
      × ((c' e' : ℕ) → (validate (ds ++ c' ∷ e' ∷ []) ≡ true) ↔ ((c' ≡ c) × (e' ≡ e)))
individual_check_digits ds h =
    let c = weighted ds indiv_weights_1 in
    let e = weighted (ds ++ c ∷ []) indiv_weights_2 in
    (
      c,
      e,
      weighted-lt ds indiv_weights_1,
      weighted-lt (ds ++ c ∷ []) indiv_weights_2,
      λ c' e'. ground (arith, validate_individual ds c' e' h, validate_individual ds c e h),
    )
