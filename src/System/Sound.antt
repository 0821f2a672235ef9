-- ===== src/System/Sound.antt =====
-- What the program keeps of the rows of its tables, and that every read and write of the repositories keeps it.
use edo_adapter_enterprise.Shared.{
  ◌≡◌, refl, Bool, true, List, [], ◌∷◌, All, All-append, is_some, Bool-cases, inl, inr, ap, ◌∙◌,
  ◌⊎◌, ◌==◌, arith,
}
use edo_adapter_enterprise.Shared.Results.{Result, ok, err, Fault, ◌>>=◌}
use edo_adapter_enterprise.Shared.Tables.{update_where, add}
use edo_adapter_enterprise.Domain.Status
use edo_adapter_enterprise.Domain.Status.{UnifiedDocumentStatus, of_value, of_value-value}
use edo_adapter_enterprise.Domain.Account
use edo_adapter_enterprise.Domain.Account.{ProviderAccount}
use edo_adapter_enterprise.Domain.Audit.{AuditEvent}
use edo_adapter_enterprise.Domain.DeadLetter.{DlqEntry}
use edo_adapter_enterprise.Domain.Document.{EdoDocument}
use edo_adapter_enterprise.Domain.Delivery.{DocumentDelivery}
use edo_adapter_enterprise.Domain.Delivery.Lifecycle.{IsConsistent, Stamped}
use edo_adapter_enterprise.Database.Rows.{
  Database, DocumentDeliveryModel, ProviderAccountModel, delivery_to_entity, delivery_to_model,
  set_delivery, provider_to_entity, provider_to_model, set_provider, delivery_with_status,
  status_or_raise, account_with_type,
}
use edo_adapter_enterprise.Database.Deliveries
use edo_adapter_enterprise.Database.Accounts
use edo_adapter_enterprise.Database.Others.{
  save_document, save_entry, save_event, update_entry, set_replayed,
}

-- A row that is read back, as a delivery whose stamps agree with its status.
abbrev pub DeliveryIsSound : DocumentDeliveryModel → Type 0
DeliveryIsSound m = (d : DocumentDelivery) × (delivery_to_entity m ≡ ok d) × IsConsistent d

abbrev AccountIsSound : ProviderAccountModel → Type 0
AccountIsSound m = (a : ProviderAccount) × (provider_to_entity m ≡ ok a)

-- A letter of a send, which names its delivery.
abbrev pub LetterIsSound : DlqEntry → Type 0
LetterIsSound e = (e.task_name ≡ "send_document") × (is_some e.delivery_id ≡ true)

abbrev pub EventIsSound : AuditEvent → Type 0
EventIsSound e = e.resource_type ≡ "delivery"

pub record IsSound (db : Database) : Type 0 where
  pub deliveries : All DeliveryIsSound db.deliveries
  pub accounts : All AccountIsSound db.accounts
  pub letters : All LetterIsSound db.dlq_entries
  pub events : All EventIsSound db.audit_events

Result-cases {ℓ} :
    {A : Type ℓ} (r : Result A) → ((a : A) × (r ≡ ok a)) ⊎ ((f : Fault) × (r ≡ err f))
Result-cases (ok a) = inl (a, refl)
Result-cases (err f) = inr (f, refl)

All-update_where {ℓ κ} :
    {A : Type ℓ} (P : A → Type κ) (p : A → Bool) (f : A → A)
    → ((x : A) → P x → P (f x))
    → (xs : List A) → All P xs
    → All P (update_where p f xs)
All-update_where P p f keep [] h = tt
All-update_where P p f keep (x ∷ xs) h = elim (Bool-cases (p x)) [
  | inl e ↦ rw e (keep x h.0, All-update_where P p f keep xs h.1)
  | inr e ↦ rw e (h.0, All-update_where P p f keep xs h.1)
]

-- The stamps of a row that was set are those of the delivery.
Stamped-set :
    (s status : UnifiedDocumentStatus) (d : DocumentDelivery) (m : DocumentDeliveryModel)
    → Stamped s d
    → Stamped s (delivery_with_status (set_delivery d m) status)
unfolding set_delivery
Stamped-set Status.pending status d m h = h
Stamped-set Status.sending status d m h = h
Stamped-set Status.sent status d m h = h
Stamped-set Status.delivered status d m h = h
Stamped-set Status.signed status d m h = h
Stamped-set Status.rejected status d m h = h
Stamped-set Status.cancelled status d m h = h
Stamped-set Status.failed status d m h = h
Stamped-set Status.unknown status d m h = h

delivery_to_entity-status :
    (m : DocumentDeliveryModel) (s : UnifiedDocumentStatus)
    → m.unified_status ≡ Status.value s
    → delivery_to_entity m ≡ ok (delivery_with_status m s)
unfolding delivery_to_entity
delivery_to_entity-status m s e =
    ap (λ v. status_or_raise v >>= λ status. ok (delivery_with_status m status))
      (ap of_value e ∙ of_value-value s)

set_delivery-DeliveryIsSound :
    (d : DocumentDelivery) (m : DocumentDeliveryModel)
    → IsConsistent d
    → DeliveryIsSound (set_delivery d m)
set_delivery-DeliveryIsSound d m h = (
  delivery_with_status (set_delivery d m) d.unified_status,
  delivery_to_entity-status (set_delivery d m) d.unified_status (unfold set_delivery in refl),
  Stamped-set d.unified_status d.unified_status d m h,
)

delivery_to_model-DeliveryIsSound :
    (d : DocumentDelivery) → IsConsistent d → DeliveryIsSound (delivery_to_model d)
unfolding delivery_to_model
delivery_to_model-DeliveryIsSound d h =
    (d, delivery_to_entity-status (delivery_to_model d) d.unified_status refl, h)

pub update-IsSound :
    (d : DocumentDelivery) (db : Database)
    → IsConsistent d
    → IsSound db
    → IsSound (Deliveries.update d db)
unfolding Deliveries.update
update-IsSound d db c v = record {
  deliveries =
      All-update_where DeliveryIsSound (Deliveries.has_id d.id) (set_delivery d)
        (λ m _. set_delivery-DeliveryIsSound d m c) db.deliveries v.deliveries;
  accounts = v.accounts;
  letters = v.letters;
  events = v.events;
}

All-add {ℓ κ} :
    {A : Type ℓ} (P : A → Type κ) (x : A) (xs : List A) → P x → All P xs → All P (add x xs)
All-add P x xs p h = All-append P xs (x ∷ []) h (p, tt)

pub save-IsSound :
    (d : DocumentDelivery) (db : Database)
    → IsConsistent d
    → IsSound db
    → IsSound (Deliveries.save d db)
unfolding Deliveries.save
save-IsSound d db c v = record {
  deliveries =
      All-add DeliveryIsSound (delivery_to_model d) db.deliveries
        (delivery_to_model-DeliveryIsSound d c) v.deliveries;
  accounts = v.accounts;
  letters = v.letters;
  events = v.events;
}

pub save_document-IsSound :
    (d : EdoDocument) (db : Database) → IsSound db → IsSound (save_document d db)
unfolding save_document
save_document-IsSound d db v = record {
  deliveries = v.deliveries;
  accounts = v.accounts;
  letters = v.letters;
  events = v.events;
}

pub save_entry-IsSound :
    (e : DlqEntry) (db : Database) → LetterIsSound e → IsSound db → IsSound (save_entry e db)
unfolding save_entry
save_entry-IsSound e db l v = record {
  deliveries = v.deliveries;
  accounts = v.accounts;
  letters = All-add LetterIsSound e db.dlq_entries l v.letters;
  events = v.events;
}

pub save_event-IsSound :
    (e : AuditEvent) (db : Database) → EventIsSound e → IsSound db → IsSound (save_event e db)
unfolding save_event
save_event-IsSound e db h v = record {
  deliveries = v.deliveries;
  accounts = v.accounts;
  letters = v.letters;
  events = All-add EventIsSound e db.audit_events h v.events;
}

pub update_entry-IsSound : (e : DlqEntry) (db : Database) → IsSound db → IsSound (update_entry e db)
unfolding update_entry
update_entry-IsSound e db v = record {
  deliveries = v.deliveries;
  accounts = v.accounts;
  letters =
      All-update_where LetterIsSound (λ row. row.id == e.id) (set_replayed e) (λ row h. h)
        db.dlq_entries v.letters;
  events = v.events;
}

provider_to_entity-type :
    (m : ProviderAccountModel) (t : Account.ProviderType)
    → m.provider_type ≡ Account.value t
    → AccountIsSound m
unfolding provider_to_entity
provider_to_entity-type m t e = (
  account_with_type m t,
  ap (λ v. v >>= λ type. ok (account_with_type m type))
      (ap Account.of_value e ∙ Account.of_value-value t),
)

pub save_account-IsSound :
    (a : ProviderAccount) (db : Database) → IsSound db → IsSound (Accounts.save a db)
unfolding Accounts.save
save_account-IsSound a db v = record {
  deliveries = v.deliveries;
  accounts =
      All-add AccountIsSound (provider_to_model a) db.accounts
        (provider_to_entity-type (provider_to_model a) a.provider_type
          (unfold provider_to_model in refl))
        v.accounts;
  letters = v.letters;
  events = v.events;
}

-- An update of an account leaves its type, and with it whether the row is read back.
set_provider-AccountIsSound :
    (a : ProviderAccount) (m : ProviderAccountModel)
    → AccountIsSound m
    → AccountIsSound (set_provider a m)
unfolding set_provider provider_to_entity
set_provider-AccountIsSound a m (b, e) = elim (Result-cases (Account.of_value m.provider_type)) [
  | inl (t, q) ↦ (account_with_type (set_provider a m) t, rw q refl)
  | inr (f, q) ↦ absurd (ground (arith, q, e))
]

pub update_account-IsSound :
    (a : ProviderAccount) (db : Database) → IsSound db → IsSound (Accounts.update a db)
unfolding Accounts.update
update_account-IsSound a db v = record {
  deliveries = v.deliveries;
  accounts =
      All-update_where AccountIsSound (Accounts.has_id a.id) (set_provider a)
        (set_provider-AccountIsSound a) db.accounts v.accounts;
  letters = v.letters;
  events = v.events;
}
