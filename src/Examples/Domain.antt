-- ===== src/Examples/Domain.antt =====
-- Statuses, the life of a delivery and taxpayer numbers on concrete inputs.
use edo_adapter_enterprise.Domain.Inn.{digits_of_length}
use edo_adapter_enterprise.Shared.{ℕ, ◌≡◌, ◌⊎◌, refl, List, [], ◌∷◌, ◌++◌, length, arith}
use edo_adapter_enterprise.Domain.Delivery
use edo_adapter_enterprise.Domain.Delivery.Lifecycle.{
  Call, perform_all, IsConsistent, lifecycle-IsConsistent,
}
use edo_adapter_enterprise.Domain.Inn.{validate, inn, strip, accepted}
use edo_adapter_enterprise.Domain.Inn.Detection.{single_error_detected}
use edo_adapter_enterprise.Domain.Inn.Reading.{DigitsStay, NoSpaces, inn-inn}
use edo_adapter_enterprise.Examples.Fixtures.{ascii}

abbrev failed_and_retried : List Call
failed_and_retried =
    Call.sending_at 10
    ∷ Call.failed_with "UNKNOWN_ERROR" "no route" 20
    ∷ Call.retry_at 60 21
    ∷ Call.sending_at 70
    ∷ Call.sent_as "STUB-1" 80
    ∷ Call.signed_at 90
    ∷ []

lifecycle-IsConsistent_example :
    IsConsistent (perform_all failed_and_retried (Delivery.create 7 1 3 5 "3:5" 1 2))
lifecycle-IsConsistent_example = lifecycle-IsConsistent 7 1 3 5 "3:5" 1 2 failed_and_retried

single_error_detected_example : ◌≡◌ {A = ℕ} 0 0
unfolding validate
single_error_detected_example =
    single_error_detected [] 4 9 (2 ∷ 9 ∷ 1 ∷ 4 ∷ 1 ∷ 7 ∷ 7 ∷ 7 ∷ []) 0 refl (omega arith)
      (omega arith) (λ e. omega arith) refl refl

ascii-DigitsStay : DigitsStay ascii
ascii-DigitsStay c d h = ground arith

abbrev inn_text : List ℕ
inn_text = 55 ∷ 55 ∷ 48 ∷ 55 ∷ 48 ∷ 56 ∷ 51 ∷ 56 ∷ 57 ∷ 51 ∷ []

inn-inn_example :
    (inn ascii inn_text ≡ accepted inn_text)
    × NoSpaces ascii inn_text
    × (strip ascii inn_text ≡ inn_text)
    × ((length inn_text ≡ 10) ⊎ (length inn_text ≡ 12))
unfolding inn digits_of_length strip validate
inn-inn_example = inn-inn ascii ascii-DigitsStay (32 ∷ inn_text ++ 10 ∷ []) inn_text refl
