-- ===== src/Domain/Document.antt =====
-- src/domain/entities/edo_document.py: a document that is exchanged. `sha256_hexdigest` is the checksum
-- of `hashlib`.
use edo_adapter_enterprise.Shared.{ℕ, String, List, Option}
use edo_adapter_enterprise.Domain.Json.{Dict, Json, or_empty}

pub record EdoDocument : Type 0 where
  pub id : ℕ
  pub tenant_id : ℕ
  pub internal_document_id : ℕ
  pub document_type : String
  pub sender_inn : String
  pub sender_kpp : Option String
  pub recipient_inn : String
  pub recipient_kpp : Option String
  pub title : String
  pub file_name : String
  pub mime_type : String
  pub file_checksum : String
  pub metadata : Dict Json
  pub created_by : ℕ
  pub created_at : ℕ

-- `EdoDocument.create`, with the identifier of `uuid4` and the clock reading.
unfoldable pub create :
    (List ℕ → String)
    → ℕ
    → ℕ
    → ℕ
    → String
    → String
    → Option String
    → String
    → Option String
    → String
    → String
    → String
    → List ℕ
    → ℕ
    → Option (Dict Json)
    → ℕ
    → EdoDocument
create sha256_hexdigest id tenant_id internal_document_id document_type sender_inn sender_kpp
      recipient_inn recipient_kpp title file_name mime_type file_bytes created_by metadata now =
    record {
      id = id;
      tenant_id = tenant_id;
      internal_document_id = internal_document_id;
      document_type = document_type;
      sender_inn = sender_inn;
      sender_kpp = sender_kpp;
      recipient_inn = recipient_inn;
      recipient_kpp = recipient_kpp;
      title = title;
      file_name = file_name;
      mime_type = mime_type;
      file_checksum = sha256_hexdigest file_bytes;
      metadata = or_empty metadata;
      created_by = created_by;
      created_at = now;
    }
