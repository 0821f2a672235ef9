-- ===== src/Examples/Requests.antt =====
-- Test data: an administrator, and a request to send a document.
use edo_adapter_enterprise.Shared.{◌+◌, [], ◌∷◌, none, some}
use edo_adapter_enterprise.Api.Sessions.{CurrentUser}
use edo_adapter_enterprise.Api.Documents.{Request, SendDocumentRequest, UploadFile}

abbrev pub user : CurrentUser
user = record { user_id = 30; tenant_id = 1; role = "admin" }

abbrev pub request : Request
request = record {
  fresh = λ n. 50 + n;
  clock = λ n. 3000 + n;
  str = λ id. "id";
  sha256_hexdigest = λ bytes. "e3b0";
}

abbrev pub body : SendDocumentRequest
body = record {
  provider_account_id = 5;
  internal_document_id = 77;
  document_type = "INVOICE";
  sender_inn = "7707083893";
  sender_kpp = none;
  recipient_inn = "5001007322";
  recipient_kpp = none;
  title = "Invoice";
  metadata = [];
}

abbrev pub file : UploadFile
file = record { filename = some "a.xml"; content_type = none; content = 79 ∷ 255 ∷ [] }
