-- ===== src/Providers/Interface.antt =====
-- src/application/interfaces/i_edo_provider.py: what a provider returns, and how a call of one ends.
use edo_adapter_enterprise.Shared.{ℕ, String, Option}
use edo_adapter_enterprise.Domain.Errors.{DomainError}
use edo_adapter_enterprise.Domain.Json.{Dict, Json}

pub record SendResult : Type 0 where
  pub provider_document_id : String
  pub raw_status : String

pub record StatusResult : Type 0 where
  pub provider_document_id : String
  pub unified_status : String
  pub raw_status : String
  pub extra : Dict Json

-- The values that a provider takes from a response or a payload are passed on as they are, whatever their
-- types, so that the fields of the results below are JSON values.
pub record SentAs : Type 0 where
  pub provider_document_id : Json
  pub raw_status : String

pub record StatusAnswer : Type 0 where
  pub provider_document_id : String
  pub unified_status : String
  pub raw_status : Json
  pub extra : Dict Json

pub record IncomingDocumentData : Type 0 where
  pub provider_document_id : Json
  pub document_type : Json
  pub sender_inn : Json
  pub sender_name : Option Json
  pub file_name : Json
  pub mime_type : Json
  pub unified_status : String
  pub metadata : Json
  pub received_at : ℕ

-- The values of a parsed webhook are passed on from its payload as they are.
pub record WebhookParseResult : Type 0 where
  pub external_event_id : Option Json
  pub provider_document_id : Option Json
  pub unified_status : Option Json
  pub raw_payload : Dict Json

-- The ways in which `send_document` of a provider can end, as the caller's handlers tell them apart:
-- a result, `ProviderTransientError` or a class of it, `ProviderPermanentError`, another exception.
pub data SendOutcome : Type 0 where
  accepted : SendResult → SendOutcome
  transient permanent : DomainError → SendOutcome
  unexpected : String → SendOutcome
