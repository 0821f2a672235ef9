-- ===== src/Domain/Audit.antt =====
-- src/domain/entities/audit_event.py: an entry of the audit trail.
use edo_adapter_enterprise.Shared.{ℕ, String, Option}
use edo_adapter_enterprise.Domain.Json.{Dict, Json, or_empty}

pub record AuditEvent : Type 0 where
  pub id : ℕ
  pub tenant_id : ℕ
  pub actor_user_id : Option ℕ
  pub resource_type : String
  pub resource_id : ℕ
  pub event_type : String
  pub trace_id : Option String
  pub payload : Dict Json
  pub created_at : ℕ

-- `AuditEvent.create`, with the identifier of `uuid4` first and the clock reading last.
unfoldable pub create :
    ℕ → ℕ → String → ℕ → String → Option (Dict Json) → Option ℕ → Option String → ℕ → AuditEvent
create id tenant_id resource_type resource_id event_type payload actor_user_id trace_id now =
    record {
      id = id;
      tenant_id = tenant_id;
      actor_user_id = actor_user_id;
      resource_type = resource_type;
      resource_id = resource_id;
      event_type = event_type;
      trace_id = trace_id;
      payload = or_empty payload;
      created_at = now;
    }
