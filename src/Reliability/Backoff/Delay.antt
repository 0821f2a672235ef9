-- ===== src/Reliability/Backoff/Delay.antt =====
-- The growth and the bounds of the delay, and which errors count as transient.
use edo_adapter_enterprise.Shared.{
  ℕ, suc, ◌+◌, ◌*◌, ◌^◌, ◌≤◌, ◌<◌, ◌≡◌, min, String, true, false, some, arith, refl,
}
use native.Mathlib.Nat.{pow-suc}
use edo_adapter_enterprise.Core.Config.{Settings}
use edo_adapter_enterprise.Reliability.Backoff.{
  delay, datetime_max, compute_next_retry, is_transient,
}
use edo_adapter_enterprise.Domain.Errors.{
  provider_transient_error, provider_permanent_error, provider_rate_limit_error, circuit_open_error,
  document_not_found_error, duplicate_document_error, delivery_not_found_error,
  delivery_already_final_error, idempotency_conflict_error, provider_account_not_found_error,
  provider_account_inactive_error, webhook_signature_error, webhook_duplicate_error,
  authentication_error, authorization_error, dlq_entry_not_found_error,
  dlq_entry_not_retryable_error,
}

-- The delay starts at the base, doubles with every retry, and never passes the maximum.
delay_doubles :
    (s : Settings) (n : ℕ)
    → (delay s 0 ≡ min s.default_retry_base s.default_retry_max)
      × (delay s (suc n) ≡ min (2 * delay s n) s.default_retry_max)
      × (delay s n ≤ s.default_retry_max)
      × (delay s n ≤ delay s (suc n))
unfolding delay
delay_doubles s n =
    let twice : s.default_retry_base * 2 ^ suc n ≡ 2 * (s.default_retry_base * 2 ^ n) =
      rw pow-suc (omega arith) in
    (omega arith, omega arith, omega arith, omega arith)

-- For every retry count below 1024 the next retry is computed, if the configured maximum from now on does not lead
-- past the last date of Python. It is not before now, and at most the base
-- times two to the retry count later, and at most the configured maximum later, whatever number between 0 and
-- its bound is drawn.
pub compute_next_retry_bounds :
    (s : Settings) (uniform : ℕ → ℕ) (now n : ℕ)
    → ((bound : ℕ) → uniform bound ≤ bound)
    → n < 1024
    → now + s.default_retry_max ≤ datetime_max
    → (t : ℕ) × (compute_next_retry s uniform now n ≡ some t)
      × (now ≤ t)
      × (t ≤ now + s.default_retry_base * 2 ^ n)
      × (t ≤ now + s.default_retry_max)
unfolding compute_next_retry delay
compute_next_retry_bounds s uniform now n draw few dated =
    let bound = min (s.default_retry_base * 2 ^ n) s.default_retry_max in
    (
      now + uniform bound,
      ground (arith, draw bound),
      omega arith,
      omega (arith, draw bound),
      omega (arith, draw bound),
    )

-- Of the errors that the program raises, the transient ones of a provider, its rate limit and an
-- open circuit have a code that counts as transient; no other has.
is_transient_errors :
    (str : ℕ → String) (id : ℕ) (text provider : String)
    → (is_transient (provider_transient_error text provider).code ≡ true)
      × (is_transient (provider_rate_limit_error provider).code ≡ true)
      × (is_transient (circuit_open_error str id).code ≡ true)
      × (is_transient (provider_permanent_error text provider).code ≡ false)
      × (is_transient (document_not_found_error str id).code ≡ false)
      × (is_transient (duplicate_document_error str id).code ≡ false)
      × (is_transient (delivery_not_found_error str id).code ≡ false)
      × (is_transient (delivery_already_final_error str id).code ≡ false)
      × (is_transient (idempotency_conflict_error text).code ≡ false)
      × (is_transient (provider_account_not_found_error str id).code ≡ false)
      × (is_transient (provider_account_inactive_error str id).code ≡ false)
      × (is_transient (webhook_signature_error text).code ≡ false)
      × (is_transient (webhook_duplicate_error text).code ≡ false)
      × (is_transient authentication_error.code ≡ false)
      × (is_transient (authorization_error text).code ≡ false)
      × (is_transient (dlq_entry_not_found_error str id).code ≡ false)
      × (is_transient (dlq_entry_not_retryable_error str id).code ≡ false)
unfolding is_transient
is_transient_errors str id text provider = (
  refl, refl, refl, refl, refl, refl, refl, refl, refl, refl, refl, refl, refl, refl, refl, refl,
  refl,
)
