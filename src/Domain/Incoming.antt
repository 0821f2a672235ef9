-- ===== src/Domain/Incoming.antt =====
-- src/domain/entities/incoming_document.py: a document that was received from a provider.
use edo_adapter_enterprise.Shared.{ℕ, String, Option, none, some}
use edo_adapter_enterprise.Domain.Status.{UnifiedDocumentStatus}
use edo_adapter_enterprise.Domain.Json.{Dict, Json, or_empty}

-- `received_at or now`
abbrev or_now : Option ℕ → ℕ → ℕ
or_now none now = now
or_now (some t) now = t

pub record IncomingDocument : Type 0 where
  pub id : ℕ
  pub tenant_id : ℕ
  pub provider_account_id : ℕ
  pub provider_document_id : String
  pub document_type : String
  pub sender_inn : String
  pub sender_name : Option String
  pub file_name : String
  pub mime_type : String
  pub unified_status : UnifiedDocumentStatus
  pub metadata : Dict Json
  pub received_at : ℕ
  pub created_at : ℕ

-- `IncomingDocument.create`, with the identifier of `uuid4` first and the clock reading last.
unfoldable pub create :
    ℕ
    → ℕ
    → ℕ
    → String
    → String
    → String
    → Option String
    → String
    → String
    → UnifiedDocumentStatus
    → Option (Dict Json)
    → Option ℕ
    → ℕ
    → IncomingDocument
create id tenant_id provider_account_id provider_document_id document_type sender_inn sender_name
      file_name mime_type unified_status metadata received_at now =
    record {
      id = id;
      tenant_id = tenant_id;
      provider_account_id = provider_account_id;
      provider_document_id = provider_document_id;
      document_type = document_type;
      sender_inn = sender_inn;
      sender_name = sender_name;
      file_name = file_name;
      mime_type = mime_type;
      unified_status = unified_status;
      metadata = or_empty metadata;
      received_at = or_now received_at now;
      created_at = now;
    }
