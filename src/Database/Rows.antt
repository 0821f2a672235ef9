-- ===== src/Database/Rows.antt =====
-- src/infrastructure/database/models and the mappers of database/repositories: the rows of the tables,
-- and how a row becomes an entity. A table without a column of an enumeration (documents, dead letters,
-- audit events) has its entity as its row.
use edo_adapter_enterprise.Shared.{ℕ, String, Bool, Option, none, some, List}
use edo_adapter_enterprise.Shared.Results.{Result, ok, err, value_error, ◌>>=◌}
use edo_adapter_enterprise.Domain.Json.{Dict, Json}
use edo_adapter_enterprise.Domain.Status
use edo_adapter_enterprise.Domain.Status.{UnifiedDocumentStatus}
use edo_adapter_enterprise.Domain.Account
use edo_adapter_enterprise.Domain.Account.{ProviderAccount}
use edo_adapter_enterprise.Domain.Delivery.{DocumentDelivery}
use edo_adapter_enterprise.Domain.Document.{EdoDocument}
use edo_adapter_enterprise.Domain.DeadLetter.{DlqEntry}
use edo_adapter_enterprise.Domain.Audit.{AuditEvent}

pub record DocumentDeliveryModel : Type 0 where
  pub id : ℕ
  pub tenant_id : ℕ
  pub document_id : ℕ
  pub provider_account_id : ℕ
  pub idempotency_key : String
  pub unified_status : String
  pub provider_document_id : Option String
  pub provider_raw_status : Option String
  pub retry_count : ℕ
  pub next_retry_at : Option ℕ
  pub last_error_code : Option String
  pub last_error_message : Option String
  pub sent_at : Option ℕ
  pub delivered_at : Option ℕ
  pub signed_at : Option ℕ
  pub rejected_at : Option ℕ
  pub final_at : Option ℕ
  pub created_at : ℕ
  pub updated_at : ℕ

pub record ProviderAccountModel : Type 0 where
  pub id : ℕ
  pub tenant_id : ℕ
  pub provider_type : String
  pub account_name : String
  pub credentials_json : Dict Json
  pub is_active : Bool
  pub priority : ℕ
  pub webhook_secret : Option String
  pub rate_limit_per_minute : Option ℕ
  pub created_at : ℕ
  pub updated_at : ℕ

pub record IncomingDocumentModel : Type 0 where
  pub id : ℕ
  pub tenant_id : ℕ
  pub provider_account_id : ℕ
  pub provider_document_id : String
  pub document_type : String
  pub sender_inn : String
  pub sender_name : Option String
  pub file_name : String
  pub mime_type : String
  pub unified_status : String
  pub metadata : Dict Json
  pub received_at : ℕ
  pub created_at : ℕ

-- The tables that the program's requests and tasks share.
pub record Database : Type 0 where
  pub documents : List EdoDocument
  pub deliveries : List DocumentDeliveryModel
  pub accounts : List ProviderAccountModel
  pub dlq_entries : List DlqEntry
  pub audit_events : List AuditEvent
  pub incoming_documents : List IncomingDocumentModel

-- `UnifiedDocumentStatus(v)`, with its `ValueError`.
abbrev pub status_or_raise : Option UnifiedDocumentStatus → Result UnifiedDocumentStatus
status_or_raise none = err value_error
status_or_raise (some s) = ok s

abbrev pub delivery_with_status : DocumentDeliveryModel → UnifiedDocumentStatus → DocumentDelivery
delivery_with_status m status = record {
  id = m.id;
  tenant_id = m.tenant_id;
  document_id = m.document_id;
  provider_account_id = m.provider_account_id;
  idempotency_key = m.idempotency_key;
  unified_status = status;
  provider_document_id = m.provider_document_id;
  provider_raw_status = m.provider_raw_status;
  retry_count = m.retry_count;
  next_retry_at = m.next_retry_at;
  last_error_code = m.last_error_code;
  last_error_message = m.last_error_message;
  sent_at = m.sent_at;
  delivered_at = m.delivered_at;
  signed_at = m.signed_at;
  rejected_at = m.rejected_at;
  final_at = m.final_at;
  created_at = m.created_at;
  updated_at = m.updated_at;
}

-- `_delivery_to_entity`
unfoldable pub delivery_to_entity : DocumentDeliveryModel → Result DocumentDelivery
delivery_to_entity m = status_or_raise (Status.of_value m.unified_status) >>= λ status.
    ok (delivery_with_status m status)

-- The row that `SQLDeliveryRepository.save` inserts.
unfoldable pub delivery_to_model : DocumentDelivery → DocumentDeliveryModel
delivery_to_model d = record {
  id = d.id;
  tenant_id = d.tenant_id;
  document_id = d.document_id;
  provider_account_id = d.provider_account_id;
  idempotency_key = d.idempotency_key;
  unified_status = Status.value d.unified_status;
  provider_document_id = d.provider_document_id;
  provider_raw_status = d.provider_raw_status;
  retry_count = d.retry_count;
  next_retry_at = d.next_retry_at;
  last_error_code = d.last_error_code;
  last_error_message = d.last_error_message;
  sent_at = d.sent_at;
  delivered_at = d.delivered_at;
  signed_at = d.signed_at;
  rejected_at = d.rejected_at;
  final_at = d.final_at;
  created_at = d.created_at;
  updated_at = d.updated_at;
}

-- The columns that `SQLDeliveryRepository.update` sets in a row.
unfoldable pub set_delivery : DocumentDelivery → DocumentDeliveryModel → DocumentDeliveryModel
set_delivery d m = record m {
  unified_status = Status.value d.unified_status;
  provider_document_id = d.provider_document_id;
  provider_raw_status = d.provider_raw_status;
  retry_count = d.retry_count;
  next_retry_at = d.next_retry_at;
  last_error_code = d.last_error_code;
  last_error_message = d.last_error_message;
  sent_at = d.sent_at;
  delivered_at = d.delivered_at;
  signed_at = d.signed_at;
  rejected_at = d.rejected_at;
  final_at = d.final_at;
  updated_at = d.updated_at;
}

abbrev pub account_with_type : ProviderAccountModel → Account.ProviderType → ProviderAccount
account_with_type m provider_type = record {
  id = m.id;
  tenant_id = m.tenant_id;
  provider_type = provider_type;
  account_name = m.account_name;
  credentials_json = m.credentials_json;
  is_active = m.is_active;
  priority = m.priority;
  webhook_secret = m.webhook_secret;
  rate_limit_per_minute = m.rate_limit_per_minute;
  created_at = m.created_at;
  updated_at = m.updated_at;
}

-- `_provider_to_entity`
unfoldable pub provider_to_entity : ProviderAccountModel → Result ProviderAccount
provider_to_entity m =
    Account.of_value m.provider_type >>= λ provider_type. ok (account_with_type m provider_type)

-- The row that `SQLProviderAccountRepository.save` inserts.
unfoldable pub provider_to_model : ProviderAccount → ProviderAccountModel
provider_to_model a = record {
  id = a.id;
  tenant_id = a.tenant_id;
  provider_type = Account.value a.provider_type;
  account_name = a.account_name;
  credentials_json = a.credentials_json;
  is_active = a.is_active;
  priority = a.priority;
  webhook_secret = a.webhook_secret;
  rate_limit_per_minute = a.rate_limit_per_minute;
  created_at = a.created_at;
  updated_at = a.updated_at;
}

-- The columns that `SQLProviderAccountRepository.update` sets in a row.
unfoldable pub set_provider : ProviderAccount → ProviderAccountModel → ProviderAccountModel
set_provider a m = record m {
  is_active = a.is_active;
  priority = a.priority;
  credentials_json = a.credentials_json;
  webhook_secret = a.webhook_secret;
  rate_limit_per_minute = a.rate_limit_per_minute;
  updated_at = a.updated_at;
}
