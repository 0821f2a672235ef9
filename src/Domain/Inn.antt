-- ===== src/Domain/Inn.antt =====
-- src/domain/value_objects/inn.py: the taxpayer number INN, with its check digits, and the code KPP.
pub mod CheckDigits
pub mod Detection
pub mod Reading
use edo_adapter_enterprise.Shared.{
  ℕ, zero, suc, ◌+◌, ◌*◌, ◌%◌, ◌<◌, ◌≡◌, Bool, true, false, ◌&&◌, ◌||◌, Option, none, some, List,
  [], ◌∷◌, ◌==◌, if◌then◌else◌, length, take, is_some, not,
}
use mathlib.Core.List.{reverse}

-- What Python's `str` knows of a code point: its value as a decimal digit, for which `\d` stands
-- and which `int` reads, and whether `strip` removes it.
pub record Unicode : Type 0 where
  pub decimal : ℕ → Option ℕ
  pub is_space : ℕ → Bool

-- The weights of the class.
abbrev pub legal_weights_1 : List ℕ
legal_weights_1 = 2 ∷ 4 ∷ 10 ∷ 3 ∷ 5 ∷ 9 ∷ 4 ∷ 6 ∷ 8 ∷ []

abbrev pub indiv_weights_1 : List ℕ
indiv_weights_1 = 7 ∷ 2 ∷ 4 ∷ 10 ∷ 3 ∷ 5 ∷ 9 ∷ 4 ∷ 6 ∷ 8 ∷ []

abbrev pub indiv_weights_2 : List ℕ
indiv_weights_2 = 3 ∷ 7 ∷ 2 ∷ 4 ∷ 10 ∷ 3 ∷ 5 ∷ 9 ∷ 4 ∷ 6 ∷ 8 ∷ []

-- `sum(d * w for d, w in zip(digits, weights))`: the shorter list ends the sum.
unfoldable pub weighted_sum : List ℕ → List ℕ → ℕ
weighted_sum [] weights = 0
weighted_sum (d ∷ digits) [] = 0
weighted_sum (d ∷ digits) (w ∷ weights) = d * w + weighted_sum digits weights

-- `_weighted`
unfoldable pub weighted : List ℕ → List ℕ → ℕ
unfolding weighted_sum
weighted digits weights = weighted_sum digits weights % 11 % 10

-- `digits[i]`; the constructor has checked the length, so no index is out of range.
unfoldable pub digit : List ℕ → ℕ → ℕ
digit [] i = 0
digit (d ∷ ds) zero = d
digit (d ∷ ds) (suc i) = digit ds i

-- `_validate`, on the digits that `int` reads.
unfoldable pub validate : List ℕ → Bool
unfolding weighted digit
validate digits =
    if length digits == 10
    then digit digits 9 == weighted (take 9 digits) legal_weights_1
    else let c1 = weighted (take 10 digits) indiv_weights_1 in
      let c2 = weighted (take 11 digits) indiv_weights_2 in
      digit digits 10 == c1 && digit digits 11 == c2

-- The exceptions of the constructors.
pub data InnError : Type 0 where
  not_ten_or_twelve_digits checksum_invalid : InnError

pub data Parsed : Type 0 where
  accepted : List ℕ → Parsed
  refused : InnError → Parsed

-- The lengths that the patterns `\d{10}|\d{12}` and `\d{9}` match.
abbrev pub ten_or_twelve : ℕ → Bool
ten_or_twelve n = n == 10 || n == 12

abbrev pub nine : ℕ → Bool
nine n = n == 9

module _ (u : Unicode) where
  unfoldable pub strip_start : List ℕ → List ℕ
  strip_start [] = []
  strip_start (c ∷ cs) = let rest = strip_start cs in if u.is_space c then rest else c ∷ cs

  -- `value.strip()`
  unfoldable pub strip : List ℕ → List ℕ
  unfolding strip_start
  strip value = reverse (strip_start (reverse (strip_start value)))

  -- The digits of a text that is all digits.
  unfoldable pub all_digits : List ℕ → Option (List ℕ)
  all_digits [] = some []
  all_digits (c ∷ cs) = elim (u.decimal c) [
    | none ↦ none
    | some d ↦ elim (all_digits cs) [ none ↦ none | some ds ↦ some (d ∷ ds) ]
  ]

  -- The digits of a text that `re.fullmatch` finds to be `n` of them.
  unfoldable pub digits_of_length : (ℕ → Bool) → List ℕ → Option (List ℕ)
  unfolding all_digits
  digits_of_length fits value = elim (all_digits value) [
    | none ↦ none
    | some ds ↦ if fits (length ds) then some ds else none
  ]

  -- `INN(value)`
  unfoldable pub inn : List ℕ → Parsed
  inn value =
      let v = strip value in
      elim (digits_of_length ten_or_twelve v) [
        | none ↦ refused not_ten_or_twelve_digits
        | some ds ↦ if validate ds then accepted v else refused checksum_invalid
      ]

  -- `KPP(value)`; `none` is the `ValueError`.
  unfoldable pub kpp : List ℕ → Option (List ℕ)
  kpp value =
      let v = strip value in elim (digits_of_length nine v) [ none ↦ none | some _ ↦ some v ]
