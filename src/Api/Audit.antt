-- ===== src/Api/Audit.antt =====
-- src/presentation/api/v1/audit.py: the timelines of documents and deliveries.
use edo_adapter_enterprise.Shared.{
  ℕ, ◌≤◌, ◌≡◌, refl, String, Bool, true, ◌&&◌, Option, List, filter, take, drop, map, length,
  str_eq, str_eq_iff, ◌==◌, All, arith,
}
use edo_adapter_enterprise.Shared.Tables.{order_by}
use edo_adapter_enterprise.Shared.Comprehensions.{
  length-map, length-take-le, All-both, All-filter, All-order_by, All-imp,
}
use edo_adapter_enterprise.Shared.Selected.{All-filter_keep}
use edo_adapter_enterprise.Shared.Members.{IsIn, All-IsIn, order_by-Perm}
use mathlib.Core.List.{Perm}
use edo_adapter_enterprise.Shared.Ascending.{IsAscending, order_by-IsAscending}
use edo_adapter_enterprise.Domain.Json.{Dict, Json}
use edo_adapter_enterprise.Domain.Audit.{AuditEvent}
use edo_adapter_enterprise.Api.Sessions.{CurrentUser, Answer, returned, Session, Returned}

pub record AuditEventResponse : Type 0 where
  pub id : ℕ
  pub event_type : String
  pub resource_type : String
  pub resource_id : ℕ
  pub actor_user_id : Option ℕ
  pub trace_id : Option String
  pub payload : Dict Json
  pub created_at : ℕ

-- `_to_response`; `row.payload or {}` is the payload, empty or not.
unfoldable pub to_response : AuditEvent → AuditEventResponse
to_response row = record {
  id = row.id;
  event_type = row.event_type;
  resource_type = row.resource_type;
  resource_id = row.resource_id;
  actor_user_id = row.actor_user_id;
  trace_id = row.trace_id;
  payload = row.payload;
  created_at = row.created_at;
}

pub record PaginatedResponse {ℓ} (A : Type ℓ) : Type ℓ where
  pub items : List A
  pub total : ℕ
  pub offset : ℕ
  pub limit : ℕ

-- `PaginatedResponse(items=items, total=len(items), limit=limit, offset=offset)`
abbrev pub page {ℓ} : {A : Type ℓ} → ℕ → ℕ → List A → PaginatedResponse A
page limit offset items = record {
  items = items;
  total = length items;
  offset = offset;
  limit = limit;
}

module _ (user : CurrentUser) where
  abbrev pub selects : String → ℕ → AuditEvent → Bool
  selects resource_type resource_id e =
      str_eq e.resource_type resource_type
      && (e.resource_id == resource_id && e.tenant_id == user.tenant_id)

  abbrev timeline :
      String → ℕ → ℕ → ℕ → Session → Answer (PaginatedResponse AuditEventResponse) × Session
  timeline resource_type resource_id limit offset s = (
    returned (
        page limit offset (
          map to_response (
            take limit (
              drop offset (
                order_by (λ e. e.created_at)
                  (filter (selects resource_type resource_id) s.db.audit_events)))))),
    s,
  )

  unfoldable pub document_audit_timeline :
      ℕ → ℕ → ℕ → Session → Answer (PaginatedResponse AuditEventResponse) × Session
  document_audit_timeline document_id limit offset s =
      timeline "document" document_id limit offset s

  unfoldable pub delivery_audit_timeline :
      ℕ → ℕ → ℕ → Session → Answer (PaginatedResponse AuditEventResponse) × Session
  delivery_audit_timeline delivery_id limit offset s =
      timeline "delivery" delivery_id limit offset s

  -- A timeline is a page of the events of the delivery and of the user's tenant, put in the order of their times:
  -- all such events of the table and no others, each as often as it stands there, from the offset on and at
  -- most as many as the limit; so too where other tenants have events of a delivery with the same identifier.
  pub delivery_audit_timeline-tenant :
      (delivery_id limit offset : ℕ) (s : Session)
      → Returned
          (λ (p : PaginatedResponse AuditEventResponse).
            (length p.items ≤ limit)
            × (p.total ≡ length p.items)
            × ((sorted : List AuditEvent) × Perm sorted (
                  filter
                    (λ e.
                      str_eq e.resource_type "delivery"
                      && (e.resource_id == delivery_id && e.tenant_id == user.tenant_id))
                    s.db.audit_events)
                × IsAscending (λ (e : AuditEvent). e.created_at) sorted
                × (p.items ≡ map to_response (take limit (drop offset sorted)))
                × All
                    (λ (e : AuditEvent).
                      IsIn e s.db.audit_events
                      × (e.tenant_id ≡ user.tenant_id)
                      × (e.resource_type ≡ "delivery")
                      × (e.resource_id ≡ delivery_id))
                    sorted))
          (delivery_audit_timeline delivery_id limit offset s).0
  unfolding delivery_audit_timeline
  delivery_audit_timeline-tenant delivery_id limit offset s =
      let own : AuditEvent → Type 0 =
        λ e. IsIn e s.db.audit_events × (selects "delivery" delivery_id e ≡ true) in
      let selected = filter (selects "delivery" delivery_id) s.db.audit_events in
      let sorted = order_by (λ (e : AuditEvent). e.created_at) selected in
      let all : All own sorted =
        All-order_by own (λ e. e.created_at) selected
          (All-both (λ e. IsIn e s.db.audit_events) (λ e. selects "delivery" delivery_id e ≡ true)
            selected
            (All-filter_keep (λ e. IsIn e s.db.audit_events) (selects "delivery" delivery_id)
              s.db.audit_events (All-IsIn s.db.audit_events))
            (All-filter (selects "delivery" delivery_id) s.db.audit_events)) in
      (
        omega (
          arith,
          length-map to_response (take limit (drop offset sorted)),
          length-take-le limit (drop offset sorted),
        ),
        refl,
        (
          sorted,
          order_by-Perm (λ (e : AuditEvent). e.created_at) selected,
          order_by-IsAscending (λ e. e.created_at) selected,
          refl,
          All-imp own
              (λ e.
                IsIn e s.db.audit_events
                × (e.tenant_id ≡ user.tenant_id)
                × (e.resource_type ≡ "delivery")
                × (e.resource_id ≡ delivery_id))
              (λ e h. (
                h.0,
                ground (arith, h.1),
                ground (arith, h.1, str_eq_iff e.resource_type "delivery"),
                ground (arith, h.1),
              ))
              sorted all,
        ),
      )
