-- ===== src/Domain/Webhook.antt =====
-- src/domain/entities/webhook_event.py: a webhook as it was received.
use edo_adapter_enterprise.Shared.{ℕ, String, Bool, true, false, Option, none, some}
use edo_adapter_enterprise.Domain.CircuitState.{WebhookSignatureStatus}
use edo_adapter_enterprise.Domain.Json.{Dict, Json}

pub record WebhookEvent : Type 0 where
  pub id : ℕ
  pub tenant_id : ℕ
  pub provider_account_id : ℕ
  pub provider_type : String
  pub external_event_id : Option String
  pub signature_status : WebhookSignatureStatus
  pub payload : Dict Json
  pub headers : Dict String
  pub processed : Bool
  pub processed_at : Option ℕ
  pub error_message : Option String
  pub created_at : ℕ

-- `WebhookEvent.create`, with the identifier of `uuid4` first and the clock reading last.
unfoldable pub create :
    ℕ
    → ℕ
    → ℕ
    → String
    → WebhookSignatureStatus
    → Dict Json
    → Dict String
    → Option String
    → ℕ
    → WebhookEvent
create id tenant_id provider_account_id provider_type signature_status payload headers
      external_event_id now =
    record {
      id = id;
      tenant_id = tenant_id;
      provider_account_id = provider_account_id;
      provider_type = provider_type;
      external_event_id = external_event_id;
      signature_status = signature_status;
      payload = payload;
      headers = headers;
      processed = false;
      processed_at = none;
      error_message = none;
      created_at = now;
    }

unfoldable mark_processed : ℕ → WebhookEvent → WebhookEvent
mark_processed now e = record e { processed = true; processed_at = some now }

unfoldable pub mark_failed : String → WebhookEvent → WebhookEvent
mark_failed message e = record e { processed = false; error_message = some message }
