-- ===== src/Domain/Delivery.antt =====
-- src/domain/entities/document_delivery.py: one delivery of a document to a provider account. A
-- method that mutates the entity returns the new record; `now` is what `datetime.now(UTC)` returned.
pub mod Lifecycle
use edo_adapter_enterprise.Shared.{ℕ, ◌+◌, String, Bool, Option, none, some}
use edo_adapter_enterprise.Domain.Status.{
  UnifiedDocumentStatus, pending, sending, sent, delivered, signed, rejected, failed, is_terminal,
}

pub record DocumentDelivery : Type 0 where
  pub id : ℕ
  pub tenant_id : ℕ
  pub document_id : ℕ
  pub provider_account_id : ℕ
  pub idempotency_key : String
  pub unified_status : UnifiedDocumentStatus
  pub provider_document_id : Option String
  pub provider_raw_status : Option String
  pub retry_count : ℕ
  pub next_retry_at : Option ℕ
  pub last_error_code : Option String
  pub last_error_message : Option String
  pub sent_at : Option ℕ
  pub delivered_at : Option ℕ
  pub signed_at : Option ℕ
  pub rejected_at : Option ℕ
  pub final_at : Option ℕ
  pub created_at : ℕ
  pub updated_at : ℕ

-- `DocumentDelivery.create`: the identifier of `uuid4` comes first, and the two clock readings of
-- the field defaults last.
unfoldable pub create : ℕ → ℕ → ℕ → ℕ → String → ℕ → ℕ → DocumentDelivery
create id tenant_id document_id provider_account_id idempotency_key created_at updated_at = record {
  id = id;
  tenant_id = tenant_id;
  document_id = document_id;
  provider_account_id = provider_account_id;
  idempotency_key = idempotency_key;
  unified_status = pending;
  provider_document_id = none;
  provider_raw_status = none;
  retry_count = 0;
  next_retry_at = none;
  last_error_code = none;
  last_error_message = none;
  sent_at = none;
  delivered_at = none;
  signed_at = none;
  rejected_at = none;
  final_at = none;
  created_at = created_at;
  updated_at = updated_at;
}

unfoldable pub mark_sending : ℕ → DocumentDelivery → DocumentDelivery
mark_sending now d = record d { unified_status = sending; updated_at = now }

unfoldable pub mark_sent : String → ℕ → DocumentDelivery → DocumentDelivery
mark_sent provider_document_id now d = record d {
  unified_status = sent;
  provider_document_id = some provider_document_id;
  sent_at = some now;
  updated_at = now;
}

unfoldable pub mark_delivered : ℕ → DocumentDelivery → DocumentDelivery
mark_delivered now d = record d {
  unified_status = delivered;
  delivered_at = some now;
  updated_at = now;
}

unfoldable pub mark_signed : ℕ → DocumentDelivery → DocumentDelivery
mark_signed now d = record d {
  unified_status = signed;
  signed_at = some now;
  final_at = some now;
  updated_at = now;
}

unfoldable pub mark_rejected : ℕ → DocumentDelivery → DocumentDelivery
mark_rejected now d = record d {
  unified_status = rejected;
  rejected_at = some now;
  final_at = some now;
  updated_at = now;
}

unfoldable pub mark_failed : String → String → ℕ → DocumentDelivery → DocumentDelivery
mark_failed error_code error_message now d = record d {
  unified_status = failed;
  last_error_code = some error_code;
  last_error_message = some error_message;
  final_at = some now;
  updated_at = now;
}

unfoldable pub schedule_retry : ℕ → ℕ → DocumentDelivery → DocumentDelivery
schedule_retry next_retry_at now d = record d {
  retry_count = d.retry_count + 1;
  next_retry_at = some next_retry_at;
  unified_status = pending;
  updated_at = now;
}

-- The property `is_terminal` of a delivery.
abbrev pub is_final : DocumentDelivery → Bool
is_final d = is_terminal d.unified_status
