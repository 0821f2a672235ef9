-- ===== src/Api/Errors.antt =====
-- src/presentation/exception_handlers.py: how an exception of the program that leaves an endpoint is answered.
-- Starlette looks for a handler along the classes that the exception's class derives from.
use edo_adapter_enterprise.Shared.{
  ℕ, zero, suc, ◌≡◌, refl, String, Bool, true, false, Option, none, some, List, [], ◌∷◌,
  if◌then◌else◌,
}
use edo_adapter_enterprise.Domain.Errors
use edo_adapter_enterprise.Domain.Errors.{ErrorClass, DomainError, base}

ErrorClass-discrete : Discrete ErrorClass
ErrorClass-discrete = hlevel

abbrev same_class : ErrorClass → ErrorClass → Bool
same_class a b = elim (ErrorClass-discrete a b) [ yes _ ↦ true | no _ ↦ false ]

-- The response: the status, and the `code` and `message` of its body.
pub record ErrorResponse : Type 0 where
  pub status_code : ℕ
  pub code : String
  pub message : String

-- `_error_response` with the status of a handler.
abbrev error_response : ℕ → DomainError → ErrorResponse
error_response status e = record { status_code = status; code = e.code; message = e.message }

-- `EXCEPTION_HANDLERS`, each handler by the status that it answers with.
abbrev exception_handlers : List (ErrorClass × ℕ)
exception_handlers =
    (Errors.document_not_found, 404)
    ∷ (Errors.delivery_already_final, 409)
    ∷ (Errors.dlq_entry_not_found, 404)
    ∷ (Errors.provider_account_not_found, 404)
    ∷ (Errors.duplicate_document, 409)
    ∷ (Errors.idempotency_conflict, 409)
    ∷ (Errors.authentication, 401)
    ∷ (Errors.authorization, 403)
    ∷ (Errors.circuit_open, 503)
    ∷ (Errors.provider_transient, 503)
    ∷ (Errors.provider_permanent, 400)
    ∷ (Errors.webhook_signature, 400)
    ∷ (Errors.domain, 400)
    ∷ []

abbrev handler_in : ErrorClass → List (ErrorClass × ℕ) → Option ℕ
handler_in c [] = none
handler_in c ((k, status) ∷ rest) = if same_class k c then some status else handler_in c rest

-- The lookup along the base classes, which are two at most.
abbrev lookup_along : ℕ → ErrorClass → Option ℕ
lookup_along zero c = handler_in c exception_handlers
lookup_along (suc n) c = elim (handler_in c exception_handlers) [
  | some status ↦ some status
  | none ↦ elim (base c) [ none ↦ none | some b ↦ lookup_along n b ]
]

abbrev answered : DomainError → Option ℕ → Option ErrorResponse
answered e none = none
answered e (some status) = some (error_response status e)

respond : DomainError → Option ErrorResponse
respond e = answered e (lookup_along 2 e.error_class)

-- What a class of errors means to a client.
pub data Meaning : Type 0 where
  not_found conflict unauthenticated forbidden unavailable bad_request : Meaning

abbrev status_of : Meaning → ℕ
status_of not_found = 404
status_of conflict = 409
status_of unauthenticated = 401
status_of forbidden = 403
status_of unavailable = 503
status_of bad_request = 400

abbrev meaning : ErrorClass → Meaning
meaning Errors.document_not_found = not_found
meaning Errors.dlq_entry_not_found = not_found
meaning Errors.provider_account_not_found = not_found
meaning Errors.delivery_already_final = conflict
meaning Errors.duplicate_document = conflict
meaning Errors.idempotency_conflict = conflict
meaning Errors.authentication = unauthenticated
meaning Errors.authorization = forbidden
meaning Errors.circuit_open = unavailable
meaning Errors.provider_transient = unavailable
meaning Errors.provider_rate_limit = unavailable
meaning _ = bad_request

handler_of : (c : ErrorClass) → lookup_along 2 c ≡ some (status_of (meaning c))
unfolding ErrorClass-discrete
handler_of Errors.domain = refl
handler_of _ = refl

-- Every error of the program that leaves an endpoint is answered, with its code and message, and a status that
-- depends on its class alone: 404 for what is not found, 409 for a conflict, 401 and 403 for the user, 503 for an
-- open circuit and for a provider that is busy or failing, also at the rate limit, which has no handler of its
-- own; and 400 for the rest, a delivery that is not found among them.
respond-meaning :
    (e : DomainError) → respond e ≡ some (error_response (status_of (meaning e.error_class)) e)
unfolding respond
respond-meaning e = rw (handler_of e.error_class) refl
