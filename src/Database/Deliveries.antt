-- ===== src/Database/Deliveries.antt =====
-- src/infrastructure/database/repositories: SQLDeliveryRepository.
pub mod Storage
pub mod Selections
use edo_adapter_enterprise.Shared.{
  ℕ, String, Bool, true, false, not, ◌&&◌, Option, none, some, List, [], ◌∷◌, map, filter, take,
  leb, ◌==◌, str_eq, if◌then◌else◌,
}
use edo_adapter_enterprise.Shared.Results.{Result, traverse, traverse_option}
use edo_adapter_enterprise.Shared.Tables.{select_one, add, update_where, order_by_desc}
use edo_adapter_enterprise.Domain.Status
use edo_adapter_enterprise.Domain.Status.{UnifiedDocumentStatus, members, is_terminal}
use edo_adapter_enterprise.Domain.Delivery.{DocumentDelivery}
use edo_adapter_enterprise.Database.Rows.{
  Database, DocumentDeliveryModel, delivery_to_entity, delivery_to_model, set_delivery,
}

abbrev pub has_id : ℕ → DocumentDeliveryModel → Bool
has_id id m = m.id == id

unfoldable pub save : DocumentDelivery → Database → Database
save d db = record db { deliveries = add (delivery_to_model d) db.deliveries }

unfoldable pub get_by_id : ℕ → Database → Result (Option DocumentDelivery)
get_by_id delivery_id db =
    traverse_option delivery_to_entity (select_one (has_id delivery_id) db.deliveries)

unfoldable get_by_idempotency_key : ℕ → String → Database → Result (Option DocumentDelivery)
get_by_idempotency_key account key db = traverse_option delivery_to_entity (
    select_one (λ m. m.provider_account_id == account && str_eq m.idempotency_key key)
      db.deliveries)

unfoldable pub list_by_document : ℕ → Database → Result (List DocumentDelivery)
list_by_document document db =
    traverse delivery_to_entity
      (order_by_desc (λ m. m.created_at) (filter (λ m. m.document_id == document) db.deliveries))

-- `next_retry_at <= now` of SQL: a null is no match.
abbrev pub due : ℕ → Option ℕ → Bool
due now none = false
due now (some t) = leb t now

unfoldable pub list_pending_retries : ℕ → Database → Result (List DocumentDelivery)
list_pending_retries now db = traverse delivery_to_entity (
    take 500 (
      filter (λ m. due now m.next_retry_at && str_eq m.unified_status (Status.value Status.pending))
        db.deliveries))

-- The texts of the statuses that are not terminal.
unfoldable pub non_final : List String
unfolding is_terminal
non_final = map Status.value (filter (λ s. not (is_terminal s)) members)

-- `column.in_(values)`
abbrev pub in_ : String → List String → Bool
in_ v [] = false
in_ v (w ∷ ws) = let rest = in_ v ws in if str_eq v w then true else rest

abbrev pub for_account : Option ℕ → ℕ → Bool
for_account none account = true
for_account (some a) account = account == a

unfoldable pub list_non_final : Option ℕ → ℕ → Database → Result (List DocumentDelivery)
list_non_final account limit db = traverse delivery_to_entity (
    take limit (
      filter (λ m. in_ m.unified_status non_final && for_account account m.provider_account_id)
        db.deliveries))

unfoldable pub update : DocumentDelivery → Database → Database
update d db = record db { deliveries = update_where (has_id d.id) (set_delivery d) db.deliveries }
