-- ===== src/Database/Deliveries/Selections.antt =====
-- What the lists of deliveries for the retries and for the status synchronisation contain.
use edo_adapter_enterprise.Shared.{
  ℕ, ◌≤◌, Bool, true, false, ◌&&◌, Option, some, List, ◌≡◌, refl, sym, ◌∙◌, arith, filter, take,
  length, All, str_eq, str_eq_iff, Option-cases, &&-split, inl, inr,
}
use edo_adapter_enterprise.Shared.Results.{ok}
use edo_adapter_enterprise.Shared.Comprehensions.{
  All-filter, All-take, length-take-le, All-traverse,
}
use edo_adapter_enterprise.Domain.Status
use edo_adapter_enterprise.Domain.Status.{UnifiedDocumentStatus, is_terminal, of_value_iff}
use edo_adapter_enterprise.Domain.Delivery.{DocumentDelivery, is_final}
use edo_adapter_enterprise.Database.Rows.{Database, DocumentDeliveryModel, delivery_to_entity}
use edo_adapter_enterprise.Database.Deliveries.{
  due, non_final, in_, for_account, list_pending_retries, list_non_final,
}

non_final-is_terminal :
    (s : UnifiedDocumentStatus) → in_ (Status.value s) non_final ≡ true → is_terminal s ≡ false
unfolding non_final is_terminal
non_final-is_terminal Status.pending h = refl
non_final-is_terminal Status.signed h = cc
non_final-is_terminal Status.rejected h = cc
non_final-is_terminal Status.cancelled h = cc
non_final-is_terminal Status.failed h = cc
non_final-is_terminal _ h = refl

-- What an entity has of its row.
to_entity_row :
    (m : DocumentDeliveryModel) (d : DocumentDelivery)
    → delivery_to_entity m ≡ ok d
    → (Status.of_value m.unified_status ≡ some d.unified_status)
      × (d.provider_account_id ≡ m.provider_account_id)
      × (d.next_retry_at ≡ m.next_retry_at)
unfolding delivery_to_entity
to_entity_row m d h = elim (Option-cases (Status.of_value m.unified_status)) [
  | inl e ↦ absurd (ground arith)
  | inr (s, e) ↦ (ground arith, ground arith, ground arith)
]

entity_status :
    (m : DocumentDeliveryModel) (d : DocumentDelivery)
    → delivery_to_entity m ≡ ok d
    → Status.value d.unified_status ≡ m.unified_status
entity_status m d h = (of_value_iff m.unified_status d.unified_status).0 (to_entity_row m d h).0

abbrev NonFinal : Option ℕ → DocumentDelivery → Type 0
NonFinal account d = (is_final d ≡ false) × (for_account account d.provider_account_id ≡ true)

abbrev non_final_row : Option ℕ → DocumentDeliveryModel → Bool
non_final_row account m =
    in_ m.unified_status non_final && for_account account m.provider_account_id

NonFinal-row :
    (account : Option ℕ) (m : DocumentDeliveryModel) (d : DocumentDelivery)
    → non_final_row account m ≡ true
    → delivery_to_entity m ≡ ok d
    → NonFinal account d
NonFinal-row account m d holds e =
    let (listed, own) =
      &&-split (in_ m.unified_status non_final) (for_account account m.provider_account_id) holds in
    (
      non_final-is_terminal d.unified_status (rw (entity_status m d e) listed),
      rw (to_entity_row m d e).1 own,
    )

-- The deliveries that the synchronisation asks for are at most as many as the limit, none of them is
-- in a terminal status, and they are the account's, if one is given.
list_non_final_lem :
    (account : Option ℕ) (limit : ℕ) (db : Database) (ds : List DocumentDelivery)
    → list_non_final account limit db ≡ ok ds
    → All (λ d. (is_final d ≡ false) × (for_account account d.provider_account_id ≡ true)) ds
      × (length ds ≤ limit)
unfolding list_non_final
list_non_final_lem account limit db ds h =
    let rows : List DocumentDeliveryModel = filter (non_final_row account) db.deliveries in
    let (all, n) =
      All-traverse (λ m. non_final_row account m ≡ true) (NonFinal account) delivery_to_entity
        (NonFinal-row account) (take limit rows) ds
        (All-take (λ m. non_final_row account m ≡ true) limit rows
          (All-filter (non_final_row account) db.deliveries))
        h in
    (all, rw n (length-take-le limit rows))

abbrev IsDue : ℕ → DocumentDelivery → Type 0
IsDue now d = (d.unified_status ≡ Status.pending) × (due now d.next_retry_at ≡ true)

abbrev due_row : ℕ → DocumentDeliveryModel → Bool
due_row now m = due now m.next_retry_at && str_eq m.unified_status (Status.value Status.pending)

IsDue-row :
    (now : ℕ) (m : DocumentDeliveryModel) (d : DocumentDelivery)
    → due_row now m ≡ true
    → delivery_to_entity m ≡ ok d
    → IsDue now d
IsDue-row now m d holds e =
    let (ready, text) =
      &&-split (due now m.next_retry_at) (str_eq m.unified_status (Status.value Status.pending))
        holds in
    let found : some Status.pending ≡ some d.unified_status =
      sym ((of_value_iff m.unified_status Status.pending).1 (sym ((str_eq_iff _ _).0 text)))
      ∙ (to_entity_row m d e).0 in
    (cc, rw (to_entity_row m d e).2 ready)

-- The deliveries that wait for a retry are at most 500, each of them is pending, and its time has come.
list_pending_retries_lem :
    (now : ℕ) (db : Database) (ds : List DocumentDelivery)
    → list_pending_retries now db ≡ ok ds
    → All (λ d. (d.unified_status ≡ Status.pending) × (due now d.next_retry_at ≡ true)) ds
      × (length ds ≤ 500)
unfolding list_pending_retries
list_pending_retries_lem now db ds h =
    let rows : List DocumentDeliveryModel = filter (due_row now) db.deliveries in
    let (all, n) =
      All-traverse (λ m. due_row now m ≡ true) (IsDue now) delivery_to_entity (IsDue-row now)
        (take 500 rows) ds
        (All-take (λ m. due_row now m ≡ true) 500 rows (All-filter (due_row now) db.deliveries))
        h in
    (all, rw n (length-take-le 500 rows))
