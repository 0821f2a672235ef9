-- ===== src/Api/Documents.antt =====
-- src/presentation/api/v1/documents.py: the endpoints of documents and their deliveries. The pydantic models
-- have validated the bodies.
pub mod Queries
pub mod Retry
pub mod Dispatch
use edo_adapter_enterprise.Shared.{
  ℕ, String, Bool, true, false, not, ◌&&◌, ◌||◌, Option, none, some, List, [], ◌∷◌, ◌++◌, map,
  filter, concat, str_eq, ◌==◌, if◌then◌else◌,
}
use edo_adapter_enterprise.Shared.Results.{Result}
use edo_adapter_enterprise.Domain.Json.{Dict, Json}
use edo_adapter_enterprise.Domain.Status
use edo_adapter_enterprise.Domain.Status.{UnifiedDocumentStatus, is_failed, is_signed}
use edo_adapter_enterprise.Domain.Delivery
use edo_adapter_enterprise.Domain.Delivery.{DocumentDelivery, is_final}
use edo_adapter_enterprise.Domain.Document
use edo_adapter_enterprise.Domain.Document.{EdoDocument}
use edo_adapter_enterprise.Domain.Account.{ProviderAccount}
use edo_adapter_enterprise.Database.Deliveries
use edo_adapter_enterprise.Database.Accounts
use edo_adapter_enterprise.Database.Others.{
  save_document, get_by_internal_id, list_documents_by_tenant,
}
use edo_adapter_enterprise.Database.Others
use edo_adapter_enterprise.Tasks.World.{SendCall}
use edo_adapter_enterprise.Tasks.SendDocument.Hex.{hex}
use edo_adapter_enterprise.Api.Sessions.{
  CurrentUser, Answer, returned, http_exception, raised, Session, reading,
}

pub record DeliveryResponse : Type 0 where
  pub id : ℕ
  pub document_id : ℕ
  pub provider_account_id : ℕ
  pub unified_status : String
  pub provider_document_id : Option String
  pub retry_count : ℕ
  pub last_error_code : Option String
  pub last_error_message : Option String
  pub sent_at : Option ℕ
  pub delivered_at : Option ℕ
  pub signed_at : Option ℕ
  pub rejected_at : Option ℕ
  pub created_at : ℕ
  pub updated_at : ℕ

-- `_delivery_response`
unfoldable pub delivery_response : DocumentDelivery → DeliveryResponse
delivery_response d = record {
  id = d.id;
  document_id = d.document_id;
  provider_account_id = d.provider_account_id;
  unified_status = Status.value d.unified_status;
  provider_document_id = d.provider_document_id;
  retry_count = d.retry_count;
  last_error_code = d.last_error_code;
  last_error_message = d.last_error_message;
  sent_at = d.sent_at;
  delivered_at = d.delivered_at;
  signed_at = d.signed_at;
  rejected_at = d.rejected_at;
  created_at = d.created_at;
  updated_at = d.updated_at;
}

pub record SendDocumentRequest : Type 0 where
  pub provider_account_id : ℕ
  pub internal_document_id : ℕ
  pub document_type : String
  pub sender_inn : String
  pub sender_kpp : Option String
  pub recipient_inn : String
  pub recipient_kpp : Option String
  pub title : String
  pub metadata : Dict Json

pub record UploadFile : Type 0 where
  pub filename : Option String
  pub content_type : Option String
  pub content : List ℕ

-- What a request takes from outside: new identifiers, clock readings, texts and the checksum of a file.
pub record Request : Type 0 where
  pub fresh : ℕ → ℕ
  pub clock : ℕ → ℕ
  pub str : ℕ → String
  pub sha256_hexdigest : List ℕ → String

-- `text or default`
abbrev or_text : Option String → String → String
or_text none d = d
or_text (some t) d = if str_eq t "" then d else t

module _ (request : Request) (user : CurrentUser) where
  unfoldable pub new_document : SendDocumentRequest → UploadFile → EdoDocument
  new_document body file =
      Document.create request.sha256_hexdigest (request.fresh 0) user.tenant_id
        body.internal_document_id body.document_type body.sender_inn body.sender_kpp
        body.recipient_inn body.recipient_kpp body.title (or_text file.filename "document")
        (or_text file.content_type "application/octet-stream") file.content user.user_id
        (some body.metadata) (request.clock 0)

  unfoldable pub new_delivery : EdoDocument → ProviderAccount → DocumentDelivery
  new_delivery document account =
      Delivery.create (request.fresh 1) user.tenant_id document.id account.id
        (concat (request.str document.id) (concat ":" (request.str account.id))) (request.clock 1)
        (request.clock 2)

  -- The rest of the endpoint, once the account is found to be the tenant's and active.
  unfoldable pub accept :
      SendDocumentRequest
      → UploadFile
      → ProviderAccount
      → Session
      → Answer DeliveryResponse × Session
  accept body file account s =
      let document = new_document body file in
      let delivery = new_delivery document account in
      (
        returned (delivery_response delivery),
        record {
          db = Deliveries.save delivery (save_document document s.db);
          sent =
              s.sent
              ++ record { delivery_id = some delivery.id; file_bytes_hex = hex file.content } ∷ [];
        },
      )

  unfoldable pub with_account :
      SendDocumentRequest
      → UploadFile
      → Session
      → Option ProviderAccount
      → Answer DeliveryResponse × Session
  with_account body file s none = (http_exception 404 "Provider account not found", s)
  with_account body file s (some account) =
      if not (account.tenant_id == user.tenant_id)
      then (http_exception 404 "Provider account not found", s)
      else if not account.is_active
      then (http_exception 422 "Provider account inactive", s)
      else accept body file account s

  -- What was read by the internal identifier.
  unfoldable pub with_existing :
      SendDocumentRequest
      → UploadFile
      → Session
      → Option EdoDocument
      → Answer DeliveryResponse × Session
  with_existing body file s (some existing) = (
    http_exception 409 (concat "Document already exists: " (request.str body.internal_document_id)),
    s,
  )
  with_existing body file s none =
      reading (Accounts.get_by_id body.provider_account_id s.db) s (with_account body file s)

  unfoldable pub send_document_endpoint :
      SendDocumentRequest → UploadFile → Session → Answer DeliveryResponse × Session
  send_document_endpoint body file s =
      with_existing body file s (get_by_internal_id user.tenant_id body.internal_document_id s.db)

pub record DocumentResponse : Type 0 where
  pub id : ℕ
  pub tenant_id : ℕ
  pub internal_document_id : ℕ
  pub document_type : String
  pub sender_inn : String
  pub recipient_inn : String
  pub title : String
  pub file_name : String
  pub mime_type : String
  pub created_at : ℕ

unfoldable pub document_response : EdoDocument → DocumentResponse
document_response d = record {
  id = d.id;
  tenant_id = d.tenant_id;
  internal_document_id = d.internal_document_id;
  document_type = d.document_type;
  sender_inn = d.sender_inn;
  recipient_inn = d.recipient_inn;
  title = d.title;
  file_name = d.file_name;
  mime_type = d.mime_type;
  created_at = d.created_at;
}
