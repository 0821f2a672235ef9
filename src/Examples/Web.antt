-- ===== src/Examples/Web.antt =====
-- The responses of the application, the timelines, the settings and the signatures on concrete inputs.
use edo_adapter_enterprise.Tasks.SendDocument.Hex.{hex, hex_digit}
use edo_adapter_enterprise.Shared.{
  take, drop, ◌≤◌, filter, str_eq, ◌==◌, none, ◌&&◌, ℕ, ◌≡◌, refl, List, [], ◌∷◌, some, All, length,
  map, arith,
}
use edo_adapter_enterprise.Shared.Results.{ok}
use edo_adapter_enterprise.Shared.Ascending.{IsAscending}
use edo_adapter_enterprise.Shared.Members.{IsIn}
use mathlib.Core.List.{Perm}
use edo_adapter_enterprise.Core.Environment.{cors_allow_origins, join, cors_allow_origins-join}
use edo_adapter_enterprise.Domain.Json.{get, text}
use edo_adapter_enterprise.Core.Logging.{mask_sensitive, masked, get-mask_sensitive}
use edo_adapter_enterprise.Domain.Audit.{AuditEvent}
use edo_adapter_enterprise.Api.Sessions.{Returned, Session}
use edo_adapter_enterprise.Api.Audit.{
  PaginatedResponse, AuditEventResponse, to_response, delivery_audit_timeline,
  delivery_audit_timeline-tenant,
}
use edo_adapter_enterprise.Api.Middleware.{Request, Response}
use edo_adapter_enterprise.Security.Signatures.{
  hexadecimal, verify_hmac, decoded, verify_hmac_sound,
}
use edo_adapter_enterprise.Examples.Fixtures.{ascii, tables}
use edo_adapter_enterprise.Examples.Requests.{user}

abbrev asked : Request
asked = record { path = "/api/v1/documents"; headers = ("x-request-id", "r-1") ∷ [] }

abbrev answered : Response
answered = record {
  status_code = 200;
  headers = ("content-type", "application/json") ∷ [];
  body = "[]";
}

-- An event of the delivery 7, or of one with the same identifier.
abbrev event : ℕ → ℕ → ℕ → AuditEvent
event tenant_id id created_at = record {
  id = id;
  tenant_id = tenant_id;
  actor_user_id = none;
  resource_type = "delivery";
  resource_id = 7;
  event_type = "delivery.status.sent";
  trace_id = none;
  payload = [];
  created_at = created_at;
}

abbrev session : Session
session = record {
  db = record tables { audit_events = event 1 61 9000 ∷ event 2 62 8000 ∷ event 1 63 7000 ∷ [] };
  sent = [];
}

delivery_audit_timeline-tenant_example :
    Returned
      (λ (p : PaginatedResponse AuditEventResponse).
        (length p.items ≤ 20)
        × (p.total ≡ length p.items)
        × ((sorted : List AuditEvent) × Perm sorted (
              filter
                (λ e. str_eq e.resource_type "delivery" && (e.resource_id == 7 && e.tenant_id == 1))
                session.db.audit_events)
            × IsAscending (λ (e : AuditEvent). e.created_at) sorted
            × (p.items ≡ map to_response (take 20 (drop 0 sorted)))
            × All
                (λ (e : AuditEvent).
                  IsIn e session.db.audit_events
                  × (e.tenant_id ≡ 1)
                  × (e.resource_type ≡ "delivery")
                  × (e.resource_id ≡ 7))
                sorted))
      (delivery_audit_timeline user 7 20 0 session).0
delivery_audit_timeline-tenant_example = delivery_audit_timeline-tenant user 7 20 0 session

-- The origins "ab" and "c".
cors_allow_origins-join_example :
    cors_allow_origins ascii (λ v. ok []) (join ((97 ∷ 98 ∷ []) ∷ (99 ∷ []) ∷ []))
    ≡ ok ((97 ∷ 98 ∷ []) ∷ (99 ∷ []) ∷ [])
cors_allow_origins-join_example =
    cors_allow_origins-join ascii (λ v. ok []) 97 (98 ∷ []) ((99 ∷ []) ∷ []) refl
      (((refl, (refl, tt)), (refl, (refl, tt)), refl), (((refl, tt), (refl, tt), refl), tt)) refl

-- A code of two bytes.
abbrev code : List ℕ → List ℕ → List ℕ
code key message = 10 ∷ 255 ∷ []

verify_hmac_sound_example : decoded hexadecimal (48 ∷ 97 ∷ 102 ∷ 102 ∷ []) ≡ some (10 ∷ 255 ∷ [])
unfolding verify_hmac hex hex_digit
verify_hmac_sound_example =
    verify_hmac_sound code (123 ∷ []) (115 ∷ []) (48 ∷ 97 ∷ 102 ∷ 102 ∷ []) hexadecimal
      (omega arith, (omega arith, tt)) refl

-- A key with a sensitive word in it.
get-mask_sensitive_example :
    get "api_token"
      (mask_sensitive (λ s. s) (("api_token", text "k") ∷ ("event", text "sent") ∷ []))
    ≡ some masked
get-mask_sensitive_example =
    get-mask_sensitive (λ s. s) "api_token" (("api_token", text "k") ∷ ("event", text "sent") ∷ [])
