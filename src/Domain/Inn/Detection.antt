-- ===== src/Domain/Inn/Detection.antt =====
-- What the check digit of a ten-digit INN detects.
use edo_adapter_enterprise.Shared.{
  ℕ, zero, suc, ◌+◌, ◌*◌, ◌%◌, ◌<◌, ◌≡◌, ◌≢◌, sym, ap, ◌∙◌, true, List, [], ◌∷◌, ◌++◌, ==_iff,
  length, length-append, arith,
}
use edo_adapter_enterprise.Domain.Inn.{legal_weights_1, weighted_sum, weighted, digit, validate}
use edo_adapter_enterprise.Domain.Inn.CheckDigits.{validate_legal}

-- One digit's share of the sum.
weighted_sum-split :
    (pre : List ℕ) (a : ℕ) (post weights : List ℕ)
    → length pre < length weights
    → weighted_sum (pre ++ a ∷ post) weights
      ≡ weighted_sum (pre ++ 0 ∷ post) weights + a * digit weights (length pre)
unfolding weighted_sum digit
weighted_sum-split pre a post [] h = absurd (omega arith)
weighted_sum-split [] a post (w ∷ ws) h = omega arith
weighted_sum-split (p ∷ pre) a post (w ∷ ws) h =
    omega (arith, weighted_sum-split pre a post ws (omega arith))

-- Two digits with the same check digit at one place: the check digit is 0.
collision :
    (i s a b c : ℕ)
    → i < 9
    → a < 10
    → b < 10
    → a ≢ b
    → c ≡ (s + a * digit legal_weights_1 i) % 11 % 10
    → c ≡ (s + b * digit legal_weights_1 i) % 11 % 10
    → c ≡ 0
unfolding digit
collision zero s a b c h ha hb ne p q = omega arith
collision (suc zero) s a b c h ha hb ne p q = omega arith
collision (suc (suc zero)) s a b c h ha hb ne p q = omega arith
collision (suc (suc (suc zero))) s a b c h ha hb ne p q = omega arith
collision (suc (suc (suc (suc zero)))) s a b c h ha hb ne p q = omega arith
collision (suc (suc (suc (suc (suc zero))))) s a b c h ha hb ne p q = omega arith
collision (suc (suc (suc (suc (suc (suc zero)))))) s a b c h ha hb ne p q = omega arith
collision (suc (suc (suc (suc (suc (suc (suc zero))))))) s a b c h ha hb ne p q = omega arith
collision (suc (suc (suc (suc (suc (suc (suc (suc zero)))))))) s a b c h ha hb ne p q = omega arith
collision (suc (suc (suc (suc (suc (suc (suc (suc (suc i))))))))) s a b c h ha hb ne p q =
    absurd (omega arith)

check_digit_at :
    (pre : List ℕ) (a : ℕ) (post : List ℕ) (c : ℕ)
    → length pre + length post ≡ 8
    → validate ((pre ++ a ∷ post) ++ c ∷ []) ≡ true
    → c
      ≡ (weighted_sum (pre ++ 0 ∷ post) legal_weights_1 + a * digit legal_weights_1 (length pre))
        % 11
        % 10
unfolding weighted
check_digit_at pre a post c h v =
    (==_iff _ _).0
      (sym (validate_legal (pre ++ a ∷ post) c (omega (arith, length-append pre (a ∷ post)))) ∙ v)
    ∙ ap (λ s. s % 11 % 10) (weighted_sum-split pre a post legal_weights_1 (omega arith))

-- A wrong digit among the first nine of an INN of a legal entity is detected, unless the check digit
-- is 0: if the number stays valid with one of its first nine digits replaced by another digit, its
-- check digit is 0.
pub single_error_detected :
    (pre : List ℕ) (a b : ℕ) (post : List ℕ) (c : ℕ)
    → length pre + length post ≡ 8
    → a < 10
    → b < 10
    → a ≢ b
    → validate ((pre ++ a ∷ post) ++ c ∷ []) ≡ true
    → validate ((pre ++ b ∷ post) ++ c ∷ []) ≡ true
    → c ≡ 0
single_error_detected pre a b post c h ha hb ne va vb =
    collision (length pre) (weighted_sum (pre ++ 0 ∷ post) legal_weights_1) a b c (omega arith) ha
      hb ne (check_digit_at pre a post c h va) (check_digit_at pre b post c h vb)
