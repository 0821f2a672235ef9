-- ===== src/Api/Incoming.antt =====
-- src/presentation/api/v1/incoming.py: the endpoints of incoming documents. The mapper of a row reads
-- `row.document_date`, an attribute that the model does not have.
use edo_adapter_enterprise.Shared.{
  ℕ, ◌≡◌, inl, inr, refl, String, Bool, true, false, ◌&&◌, Option, none, some, List, [], ◌∷◌,
  filter, List-cases, take, drop, ◌==◌, if◌then◌else◌, Option-cases,
}
use edo_adapter_enterprise.Shared.Results.{Result, ok, err, attribute_error, traverse, ◌>>=◌}
use edo_adapter_enterprise.Shared.Tables.{select_one, order_by_desc}
use edo_adapter_enterprise.Database.Rows.{IncomingDocumentModel}
use edo_adapter_enterprise.Api.Sessions.{
  CurrentUser, Answer, returned, http_exception, raised, Session, reading, is_admin,
}
use edo_adapter_enterprise.Api.Audit.{PaginatedResponse, page}

pub record IncomingDocumentResponse : Type 0 where
  pub id : ℕ
  pub provider_account_id : ℕ
  pub provider_document_id : String
  pub document_type : String
  pub sender_inn : String
  pub sender_name : Option String
  pub file_name : String
  pub unified_status : String
  pub received_at : ℕ
  pub created_at : ℕ

-- `row.document_date`
abbrev document_date : IncomingDocumentModel → Result ℕ
document_date row = err attribute_error

-- `_to_response`, with the values that are at hand; it would also lack the fields `file_name`,
-- `unified_status` and `created_at`, but raises before.
unfoldable pub to_response : IncomingDocumentModel → Result IncomingDocumentResponse
to_response row = document_date row >>= λ date. ok (record {
  id = row.id;
  provider_account_id = row.provider_account_id;
  provider_document_id = row.provider_document_id;
  document_type = row.document_type;
  sender_inn = row.sender_inn;
  sender_name = row.sender_name;
  file_name = row.file_name;
  unified_status = row.unified_status;
  received_at = row.received_at;
  created_at = row.created_at;
})

module _ (user : CurrentUser) where
  abbrev rows_of : ℕ → ℕ → Session → List IncomingDocumentModel
  rows_of limit offset s = take limit (
      drop offset (
        order_by_desc (λ r. r.received_at)
          (filter (λ r. r.tenant_id == user.tenant_id) s.db.incoming_documents)))

  unfoldable list_incoming :
      ℕ → ℕ → Session → Answer (PaginatedResponse IncomingDocumentResponse) × Session
  list_incoming limit offset s =
      reading (traverse to_response (rows_of limit offset s)) s
        (λ items. (returned (page limit offset items), s))

  abbrev answer_row :
      Session → Option IncomingDocumentModel → Answer IncomingDocumentResponse × Session
  answer_row s none = (http_exception 404 "Not found", s)
  answer_row s (some row) = reading (to_response row) s (λ r. (returned r, s))

  abbrev own_row : ℕ → Session → Option IncomingDocumentModel
  own_row doc_id s =
      select_one (λ r. r.id == doc_id && r.tenant_id == user.tenant_id) s.db.incoming_documents

  unfoldable get_incoming : ℕ → Session → Answer IncomingDocumentResponse × Session
  get_incoming doc_id s = answer_row s (own_row doc_id s)

  -- Whether a call of the task `poll_incoming` is queued, with the answer.
  unfoldable trigger_poll : Answer String × Bool
  trigger_poll =
      if is_admin user
      then (returned "queued", true)
      else (http_exception 403 "Admin role required", false)

  -- Incoming documents cannot be read: the list is answered only when the page has none, and otherwise an
  -- AttributeError is raised, as it is for a single document that is there; one that is not there, or
  -- that is another tenant's, is answered with 404.
  incoming_never_returned :
      (limit offset doc_id : ℕ) (s : Session)
      → ((list_incoming limit offset s).0 ≡ elim (rows_of limit offset s) [
        | [] ↦ returned (page limit offset [])
        | r ∷ rs ↦ raised attribute_error
      ])
        × ((get_incoming doc_id s).0 ≡ elim (own_row doc_id s) [
          | none ↦ http_exception 404 "Not found"
          | some r ↦ raised attribute_error
        ])
  unfolding list_incoming get_incoming to_response
  incoming_never_returned limit offset doc_id s = (
    elim (List-cases (rows_of limit offset s)) [ inl e ↦ rw e refl | inr (r, rs, e) ↦ rw e refl ],
    elim (Option-cases (own_row doc_id s)) [ inl e ↦ rw e refl | inr (r, e) ↦ rw e refl ],
  )
