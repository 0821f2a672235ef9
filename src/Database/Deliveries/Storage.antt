-- ===== src/Database/Deliveries/Storage.antt =====
-- What is stored in the table of deliveries is read back, and an update touches one row.
use edo_adapter_enterprise.Shared.{
  ℕ, none, some, List, ◌≡◌, ◌≢◌, refl, sym, ◌∙◌, ap, arith, ==_iff, Option-cases, inl, inr,
}
use edo_adapter_enterprise.Shared.Results.{ok, traverse_option}
use edo_adapter_enterprise.Shared.Tables.{
  select_one, add, select_one-add, select_one-holds, select_one-update_where,
  select_one-update_other,
}
use edo_adapter_enterprise.Domain.Status
use edo_adapter_enterprise.Domain.Status.{of_value-value}
use edo_adapter_enterprise.Domain.Delivery.{DocumentDelivery}
use edo_adapter_enterprise.Domain.Delivery.Lifecycle.{Call, perform_all, perform_all_counts}
use edo_adapter_enterprise.Database.Rows.{
  Database, DocumentDeliveryModel, delivery_to_entity, delivery_to_model, set_delivery,
}
use edo_adapter_enterprise.Database.Deliveries.{has_id, save, get_by_id, update}

to_entity-to_model : (d : DocumentDelivery) → delivery_to_entity (delivery_to_model d) ≡ ok d
unfolding delivery_to_entity delivery_to_model
to_entity-to_model d = rw (of_value-value d.unified_status)

select_one-save :
    (d : DocumentDelivery) (rows : List DocumentDeliveryModel)
    → select_one (has_id d.id) rows ≡ none
    → select_one (has_id d.id) (add (delivery_to_model d) rows) ≡ some (delivery_to_model d)
unfolding delivery_to_model
select_one-save d rows new =
    ground (arith, select_one-add (has_id d.id) (delivery_to_model d) rows new)

-- A new delivery is read back by its identifier as it was saved, if the identifier is new.
pub get_by_id-save :
    (d : DocumentDelivery) (db : Database)
    → select_one (has_id d.id) db.deliveries ≡ none
    → get_by_id d.id (save d db) ≡ ok (some d)
unfolding get_by_id save
get_by_id-save d db new = rw (select_one-save d db.deliveries new) (rw (to_entity-to_model d))

-- The columns of a row that no update sets are the entity's.
pub record RowKeys (m : DocumentDeliveryModel) (d : DocumentDelivery) : Type 0 where
  pub row_id : m.id ≡ d.id
  pub row_tenant : m.tenant_id ≡ d.tenant_id
  pub row_document : m.document_id ≡ d.document_id
  pub row_account : m.provider_account_id ≡ d.provider_account_id
  pub row_key : m.idempotency_key ≡ d.idempotency_key
  pub row_creation : m.created_at ≡ d.created_at

to_entity-RowKeys :
    (m : DocumentDeliveryModel) (d : DocumentDelivery) → delivery_to_entity m ≡ ok d → RowKeys m d
unfolding delivery_to_entity
to_entity-RowKeys m d h = elim (Option-cases (Status.of_value m.unified_status)) [
  | inl e ↦ absurd (ground arith)
  | inr (s, e) ↦ ground arith
]

to_entity-set_delivery :
    (m : DocumentDeliveryModel) (e : DocumentDelivery)
    → RowKeys m e
    → delivery_to_entity (set_delivery e m) ≡ ok e
unfolding delivery_to_entity set_delivery
to_entity-set_delivery m e h = rw (of_value-value e.unified_status) (ground arith)

-- Two deliveries agree on all that no method changes.
pub record SameKeys (d e : DocumentDelivery) : Type 0 where
  pub same_id : d.id ≡ e.id
  pub same_tenant : d.tenant_id ≡ e.tenant_id
  pub same_document : d.document_id ≡ e.document_id
  pub same_account : d.provider_account_id ≡ e.provider_account_id
  pub same_key : d.idempotency_key ≡ e.idempotency_key
  pub same_creation : d.created_at ≡ e.created_at

found_row :
    (i : ℕ) (db : Database) (d : DocumentDelivery)
    → get_by_id i db ≡ ok (some d)
    → (m : DocumentDeliveryModel) × (select_one (has_id i) db.deliveries ≡ some m)
      × (delivery_to_entity m ≡ ok d)
unfolding get_by_id
found_row i db d h = elim (Option-cases (select_one (has_id i) db.deliveries)) [
  | inl e ↦ absurd (ground arith)
  | inr (m, e) ↦ (m, e, ground arith)
]

set_delivery-has_id :
    (e : DocumentDelivery) (i : ℕ) (m : DocumentDeliveryModel)
    → has_id i (set_delivery e m) ≡ has_id i m
unfolding set_delivery
set_delivery-has_id e i m = refl

-- A delivery that was read and written back with its keys unchanged is read as it was written.
pub get_by_id-update :
    (d e : DocumentDelivery) (db : Database)
    → SameKeys e d
    → get_by_id d.id db ≡ ok (some d)
    → get_by_id d.id (update e db) ≡ ok (some e)
unfolding get_by_id update
get_by_id-update d e db same found =
    let (m, row, entity) = found_row d.id db d found in
    let keys = to_entity-RowKeys m d entity in
    simp same.same_id (
      rw
        (select_one-update_where (has_id d.id) (set_delivery e) db.deliveries m
          (set_delivery-has_id e d.id) row)
        (rw (to_entity-set_delivery m e (ground arith))))

-- An update leaves every other delivery as it was.
pub get_by_id-update_other :
    (j : ℕ) (d : DocumentDelivery) (db : Database)
    → j ≢ d.id
    → get_by_id j (update d db) ≡ get_by_id j db
unfolding get_by_id update set_delivery
get_by_id-update_other j d db ne = ap (traverse_option delivery_to_entity) (
    select_one-update_other (has_id j) (has_id d.id) (set_delivery d) db.deliveries
      (λ y h. ground arith) (λ y h. ground arith))

-- A delivery that was read, changed by any of its methods and written back is read as the methods
-- left it.
get_by_id-update_calls :
    (cs : List Call) (d : DocumentDelivery) (db : Database)
    → get_by_id d.id db ≡ ok (some d)
    → get_by_id d.id (update (perform_all cs d) db) ≡ ok (some (perform_all cs d))
get_by_id-update_calls cs d db found =
    let (_, i, t, o, a, k, c) = perform_all_counts cs d in
    get_by_id-update d (perform_all cs d) db
      (record {
        same_id = i;
        same_tenant = t;
        same_document = o;
        same_account = a;
        same_key = k;
        same_creation = c;
      })
      found

-- A delivery that was found has the identifier that was asked for.
pub get_by_id-id :
    (i : ℕ) (db : Database) (d : DocumentDelivery) → get_by_id i db ≡ ok (some d) → d.id ≡ i
get_by_id-id i db d h =
    let (m, row, entity) = found_row i db d h in
    sym (to_entity-RowKeys m d entity).row_id
    ∙ (==_iff m.id i).0 (select_one-holds (has_id i) db.deliveries m row)
