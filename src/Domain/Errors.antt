-- ===== src/Domain/Errors.antt =====
-- src/domain/exceptions/domain_exceptions.py: the exception classes, each with its code and message.
-- `str` is Python's `str` of the identifier that a message shows.
use edo_adapter_enterprise.Shared.{ℕ, String, concat, Option, none, some}

-- The classes of the file; `domain` is the base class `DomainError`.
pub data ErrorClass : Type 0 where
  domain document_not_found duplicate_document delivery_not_found : ErrorClass
  delivery_already_final idempotency_conflict : ErrorClass
  provider_account_not_found provider_account_inactive : ErrorClass
  provider_transient provider_permanent provider_rate_limit : ErrorClass
  circuit_open webhook_signature webhook_duplicate : ErrorClass
  authentication authorization dlq_entry_not_found dlq_entry_not_retryable : ErrorClass

-- The class that a class statement derives from; `none` is Python's `Exception`.
abbrev pub base : ErrorClass → Option ErrorClass
base domain = none
base provider_rate_limit = some provider_transient
base _ = some domain

pub record DomainError : Type 0 where
  pub error_class : ErrorClass
  pub message : String
  pub code : String
  pub provider : Option String

-- `super().__init__(message, code)`
abbrev raised : ErrorClass → String → String → DomainError
raised c message code = record { error_class = c; message = message; code = code; provider = none }

module _ (str : ℕ → String) where
  abbrev pub document_not_found_error : ℕ → DomainError
  document_not_found_error id =
      raised document_not_found (concat "Document not found: " (str id)) "DOCUMENT_NOT_FOUND"

  abbrev pub duplicate_document_error : ℕ → DomainError
  duplicate_document_error id =
      raised duplicate_document (concat "Document already exists: " (str id)) "DUPLICATE_DOCUMENT"

  abbrev pub delivery_not_found_error : ℕ → DomainError
  delivery_not_found_error id =
      raised delivery_not_found (concat "Delivery not found: " (str id)) "DELIVERY_NOT_FOUND"

  abbrev pub delivery_already_final_error : ℕ → DomainError
  delivery_already_final_error id =
      raised delivery_already_final (concat "Delivery is already final: " (str id))
        "DELIVERY_ALREADY_FINAL"

  abbrev pub provider_account_not_found_error : ℕ → DomainError
  provider_account_not_found_error id =
      raised provider_account_not_found (concat "Provider account not found: " (str id))
        "PROVIDER_ACCOUNT_NOT_FOUND"

  abbrev pub provider_account_inactive_error : ℕ → DomainError
  provider_account_inactive_error id =
      raised provider_account_inactive (concat "Provider account is inactive: " (str id))
        "PROVIDER_ACCOUNT_INACTIVE"

  abbrev pub circuit_open_error : ℕ → DomainError
  circuit_open_error id =
      raised circuit_open (concat "Circuit breaker OPEN for account: " (str id)) "CIRCUIT_OPEN"

  abbrev pub dlq_entry_not_found_error : ℕ → DomainError
  dlq_entry_not_found_error id =
      raised dlq_entry_not_found (concat "DLQ entry not found: " (str id)) "DLQ_ENTRY_NOT_FOUND"

  abbrev pub dlq_entry_not_retryable_error : ℕ → DomainError
  dlq_entry_not_retryable_error id =
      raised dlq_entry_not_retryable (concat "DLQ entry is not retryable: " (str id))
        "DLQ_ENTRY_NOT_RETRYABLE"

abbrev pub idempotency_conflict_error : String → DomainError
idempotency_conflict_error text =
    raised idempotency_conflict (concat "Idempotency key already exists: " text)
      "IDEMPOTENCY_CONFLICT"

abbrev pub webhook_signature_error : String → DomainError
webhook_signature_error text =
    raised webhook_signature (concat "Webhook signature invalid for provider: " text)
      "WEBHOOK_SIGNATURE_INVALID"

abbrev pub webhook_duplicate_error : String → DomainError
webhook_duplicate_error text =
    raised webhook_duplicate (concat "Duplicate webhook event: " text) "WEBHOOK_DUPLICATE"

abbrev pub authorization_error : String → DomainError
authorization_error text =
    raised authorization (concat "Not authorized to: " text) "AUTHORIZATION_FAILED"

abbrev pub authentication_error : DomainError
authentication_error = raised authentication "Authentication failed" "AUTHENTICATION_FAILED"

abbrev pub provider_transient_error : String → String → DomainError
provider_transient_error message provider =
    record (raised provider_transient message "PROVIDER_TRANSIENT_ERROR") {
      provider = some provider;
    }

abbrev pub provider_permanent_error : String → String → DomainError
provider_permanent_error message provider =
    record (raised provider_permanent message "PROVIDER_PERMANENT_ERROR") {
      provider = some provider;
    }

-- A transient error whose code is set anew after the base class has set its own.
abbrev pub provider_rate_limit_error : String → DomainError
provider_rate_limit_error provider =
    record (provider_transient_error "Provider rate limit exceeded" provider) {
      error_class = provider_rate_limit;
      code = "PROVIDER_RATE_LIMIT";
    }
