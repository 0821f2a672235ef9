-- ===== src/Domain/Inn/Reading.antt =====
-- What the constructors `INN` and `KPP` accept, and that an accepted value is read back as itself.
use edo_adapter_enterprise.Shared.{
  ℕ, ◌≡◌, ◌⊎◌, inl, inr, refl, Bool, true, false, some, List, [], ◌∷◌, length, All, All-append,
  arith, Option-cases, Bool-cases,
}
use mathlib.Core.List.{reverse, reverse-reverse, reverse-append}
use edo_adapter_enterprise.Domain.Inn.{
  Unicode, accepted, strip_start, strip, ten_or_twelve, nine, all_digits, digits_of_length,
  validate, inn, kpp,
}

-- `strip` removes no decimal digit: a documented fact of Unicode, on which the round trip rests.
abbrev pub DigitsStay : Unicode → Type 0
DigitsStay u = (c d : ℕ) → u.decimal c ≡ some d → u.is_space c ≡ false

module _ (u : Unicode) where
  abbrev pub NoSpaces : List ℕ → Type 0
  NoSpaces = All (λ c. u.is_space c ≡ false)

  strip_start-NoSpaces : (v : List ℕ) → NoSpaces v → strip_start u v ≡ v
  unfolding strip_start
  strip_start-NoSpaces [] h = refl
  strip_start-NoSpaces (c ∷ cs) h = ground arith

  NoSpaces-reverse : (v : List ℕ) → NoSpaces v → NoSpaces (reverse v)
  NoSpaces-reverse [] h = tt
  NoSpaces-reverse (c ∷ cs) h = rw (reverse-append (c ∷ []) cs) (
      All-append (λ x. u.is_space x ≡ false) (reverse cs) (c ∷ []) (NoSpaces-reverse cs h.1)
        (h.0, tt))

  pub strip-NoSpaces : (v : List ℕ) → NoSpaces v → strip u v ≡ v
  unfolding strip
  strip-NoSpaces v h =
      rw (strip_start-NoSpaces v h)
        (rw (strip_start-NoSpaces (reverse v) (NoSpaces-reverse v h)) (reverse-reverse v))

  all_digits-NoSpaces : DigitsStay u → (v ds : List ℕ) → all_digits u v ≡ some ds → NoSpaces v
  unfolding all_digits
  all_digits-NoSpaces stay [] ds h = tt
  all_digits-NoSpaces stay (c ∷ cs) ds h = elim (Option-cases (u.decimal c)) [
    | inl e ↦ absurd (ground arith)
    | inr (d, e) ↦ elim (Option-cases (all_digits u cs)) [
      | inl f ↦ absurd (ground arith)
      | inr (rest, f) ↦ (stay c d e, all_digits-NoSpaces stay cs rest f)
    ]
  ]

  length-all_digits : (v ds : List ℕ) → all_digits u v ≡ some ds → length ds ≡ length v
  unfolding all_digits
  length-all_digits [] ds h = ground arith
  length-all_digits (c ∷ cs) ds h = elim (Option-cases (u.decimal c)) [
    | inl e ↦ absurd (ground arith)
    | inr (d, e) ↦ elim (Option-cases (all_digits u cs)) [
      | inl f ↦ absurd (ground arith)
      | inr (rest, f) ↦ ground (arith, length-all_digits cs rest f)
    ]
  ]

  -- What is known of an accepted value: it is the stripped text, all digits, of a length that fits.
  digits_of_length-some :
      (fits : ℕ → Bool) (v ds : List ℕ)
      → digits_of_length u fits v ≡ some ds
      → (all_digits u v ≡ some ds) × (fits (length v) ≡ true)
  unfolding digits_of_length
  digits_of_length-some fits v ds h = elim (Option-cases (all_digits u v)) [
    | inl e ↦ absurd (ground arith)
    | inr (r, e) ↦ elim (Bool-cases (fits (length r))) [
      | inl f ↦ (ground arith, rw (← length-all_digits v r e) f)
      | inr f ↦ absurd (ground arith)
    ]
  ]

  strip-digits :
      DigitsStay u
      → (fits : ℕ → Bool) (v ds : List ℕ) → digits_of_length u fits v ≡ some ds
      → strip u v ≡ v
  strip-digits stay fits v ds h =
      strip-NoSpaces v (all_digits-NoSpaces stay v ds (digits_of_length-some fits v ds h).0)

  inn_fits :
      (x v : List ℕ)
      → inn u x ≡ accepted v
      → (strip u x ≡ v)
        × ((ds : List ℕ) × (digits_of_length u ten_or_twelve v ≡ some ds) × (validate ds ≡ true))
  unfolding inn
  inn_fits x v h = elim (Option-cases (digits_of_length u ten_or_twelve (strip u x))) [
    | inl e ↦ absurd (ground arith)
    | inr (ds, e) ↦ elim (Bool-cases (validate ds)) [
      | inl f ↦ let same : strip u x ≡ v = ground arith in (same, (ds, rw same at e, f))
      | inr f ↦ absurd (ground arith)
    ]
  ]

  -- An accepted INN has ten or twelve characters, none of them white space, and is accepted again
  -- as the same value; this rests on `strip` removing no digit.
  pub inn-inn :
      DigitsStay u
      → (x v : List ℕ) → inn u x ≡ accepted v
      → (inn u v ≡ accepted v) × NoSpaces v × (strip u v ≡ v) × ((length v ≡ 10) ⊎ (length v ≡ 12))
  unfolding inn
  inn-inn stay x v h =
      let (_, (ds, fits, valid)) = inn_fits x v h in
      let stripped : strip u v ≡ v = strip-digits stay ten_or_twelve v ds fits in
      let sized : ten_or_twelve (length v) ≡ true =
        (digits_of_length-some ten_or_twelve v ds fits).1 in
      let spaceless : NoSpaces v =
        all_digits-NoSpaces stay v ds (digits_of_length-some ten_or_twelve v ds fits).0 in
      (ground arith, spaceless, stripped, ground arith)

  -- An accepted KPP has nine characters, none of them white space, and is accepted again as the same
  -- value; this rests on `strip` removing no digit.
  kpp-kpp :
      DigitsStay u
      → (x v : List ℕ) → kpp u x ≡ some v
      → (kpp u v ≡ some v) × NoSpaces v × (strip u v ≡ v) × (length v ≡ 9)
  unfolding kpp
  kpp-kpp stay x v h = elim (Option-cases (digits_of_length u nine (strip u x))) [
    | inl e ↦ absurd (ground arith)
    | inr (ds, e) ↦
        let same : strip u x ≡ v = ground arith in
        let fits : digits_of_length u nine v ≡ some ds = rw same at e in
        let stripped : strip u v ≡ v = strip-digits stay nine v ds fits in
        let (digits, sized) = digits_of_length-some nine v ds fits in
        (ground arith, all_digits-NoSpaces stay v ds digits, stripped, ground arith)
  ]
