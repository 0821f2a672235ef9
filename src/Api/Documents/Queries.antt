-- ===== src/Api/Documents/Queries.antt =====
-- src/presentation/api/v1/documents.py: the endpoints that read, and whose data they answer with.
use edo_adapter_enterprise.Shared.{
  ℕ, String, Bool, true, false, not, ◌||◌, Option, none, some, List, [], ◌∷◌, map, filter, take,
  drop, ◌==◌, ==_iff, if◌then◌else◌, ◌≡◌, refl, arith, All, Bool-cases, inl, inr, length, ◌≤◌,
}
use edo_adapter_enterprise.Shared.Comprehensions.{
  All-filter, All-take, length-take-le, All-drop, All-order_by_desc, length-map, All-map,
}
use edo_adapter_enterprise.Shared.Tables.{order_by_desc}
use edo_adapter_enterprise.Domain.Status
use edo_adapter_enterprise.Domain.Status.{UnifiedDocumentStatus, is_signed}
use edo_adapter_enterprise.Domain.Delivery.{DocumentDelivery}
use edo_adapter_enterprise.Domain.Document.{EdoDocument}
use edo_adapter_enterprise.Database.Deliveries
use edo_adapter_enterprise.Database.Others.{get_document, list_documents_by_tenant}
use edo_adapter_enterprise.Api.Sessions.{
  CurrentUser, Answer, returned, http_exception, Returned, Session, reading,
}
use edo_adapter_enterprise.Api.Documents.{
  DeliveryResponse, delivery_response, DocumentResponse, document_response,
}

pub record DocumentStatusResponse : Type 0 where
  pub document_id : ℕ
  pub unified_status : String
  pub deliveries : List DeliveryResponse

-- `UnifiedDocumentStatus.SIGNED in statuses`
unfoldable pub any_signed : List DocumentDelivery → Bool
any_signed [] = false
any_signed (d ∷ ds) = is_signed d.unified_status || any_signed ds

abbrev first_status : List DocumentDelivery → UnifiedDocumentStatus
first_status [] = Status.pending
first_status (d ∷ ds) = d.unified_status

unfoldable pub best : List DocumentDelivery → UnifiedDocumentStatus
best ds = if any_signed ds then Status.signed else first_status ds

module _ (user : CurrentUser) where
  unfoldable list_documents : ℕ → ℕ → Session → Answer (List DocumentResponse) × Session
  list_documents offset limit s = (
    returned (map document_response (list_documents_by_tenant user.tenant_id offset limit s.db)),
    s,
  )

  -- The document of an identifier, if it is the tenant's: the first lines of the endpoints below.
  abbrev pub own : Option EdoDocument → Option EdoDocument
  own none = none
  own (some d) = if not (d.tenant_id == user.tenant_id) then none else some d

  abbrev pub for_own :
      {A : Type 0}
      → Option EdoDocument
      → Session
      → (EdoDocument → Answer A × Session)
      → Answer A × Session
  for_own none s next = (http_exception 404 "Document not found", s)
  for_own (some d) s next = next d

  unfoldable get_document_endpoint : ℕ → Session → Answer DocumentResponse × Session
  get_document_endpoint document_id s =
      for_own (own (get_document document_id s.db)) s (λ d. (returned (document_response d), s))

  unfoldable list_deliveries : ℕ → Session → Answer (List DeliveryResponse) × Session
  list_deliveries document_id s = for_own (own (get_document document_id s.db)) s (λ d.
      reading (Deliveries.list_by_document document_id s.db) s
        (λ ds. (returned (map delivery_response ds), s)))

  unfoldable pub get_document_status : ℕ → Session → Answer DocumentStatusResponse × Session
  get_document_status document_id s = for_own (own (get_document document_id s.db)) s (λ d.
      reading (Deliveries.list_by_document document_id s.db) s (λ ds. (
        returned (record {
          document_id = document_id;
          unified_status = Status.value (best ds);
          deliveries = map delivery_response ds;
        }),
        s,
      )))

-- The list of documents has only documents of the user's tenant, and at most as many as the limit.
list_documents-tenant :
    (user : CurrentUser) (offset limit : ℕ) (s : Session)
    → Returned
        (λ rs.
          All (λ (r : DocumentResponse). r.tenant_id ≡ user.tenant_id) rs × (length rs ≤ limit))
        (list_documents user offset limit s).0
unfolding list_documents list_documents_by_tenant document_response
list_documents-tenant user offset limit s =
    let of_tenant : EdoDocument → Bool = λ d. d.tenant_id == user.tenant_id in
    let sorted = order_by_desc (λ d. d.created_at) (filter of_tenant s.db.documents) in
    (
      All-map (λ d. of_tenant d ≡ true) (λ (r : DocumentResponse). r.tenant_id ≡ user.tenant_id)
          document_response (λ d e. (==_iff d.tenant_id user.tenant_id).0 e)
          (take limit (drop offset sorted))
          (All-take (λ d. of_tenant d ≡ true) limit (drop offset sorted)
            (All-drop (λ d. of_tenant d ≡ true) offset sorted
              (All-order_by_desc (λ d. of_tenant d ≡ true) (λ d. d.created_at)
                (filter of_tenant s.db.documents) (All-filter of_tenant s.db.documents)))),
      omega (
        arith,
        length-map document_response (take limit (drop offset sorted)),
        length-take-le limit (drop offset sorted),
      ),
    )

-- A document is answered only to a user of its tenant; a user of another tenant gets 404, as if it did not
-- exist.
get_document-tenant :
    (user : CurrentUser) (document_id : ℕ) (s : Session) (d : EdoDocument)
    → get_document document_id s.db ≡ some d
    → (get_document_endpoint user document_id s).0 ≡ (
        if d.tenant_id == user.tenant_id
        then returned (document_response d)
        else http_exception 404 "Document not found")
unfolding get_document_endpoint
get_document-tenant user document_id s d found =
    rw found
      (elim (Bool-cases (d.tenant_id == user.tenant_id)) [ inl e ↦ rw e refl | inr e ↦ rw e refl ])
