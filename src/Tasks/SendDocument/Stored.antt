-- ===== src/Tasks/SendDocument/Stored.antt =====
-- What a run writes to the table of deliveries: one delivery changes, and every other stays.
use edo_adapter_enterprise.Shared.{
  ℕ, none, some, Option, ◌≡◌, refl, sym, ◌∙◌, subst, ◌==◌, ==_refl, ==_iff, Bool-cases, inl, inr,
  if◌then◌else◌, arith,
}
use edo_adapter_enterprise.Shared.Results.{ok}
use edo_adapter_enterprise.Domain.Delivery.{DocumentDelivery}
use edo_adapter_enterprise.Domain.Audit.{AuditEvent}
use edo_adapter_enterprise.Domain.DeadLetter.{DlqEntry}
use edo_adapter_enterprise.Database.Rows.{Database}
use edo_adapter_enterprise.Database.Deliveries.{get_by_id, update}
use edo_adapter_enterprise.Database.Deliveries.Storage.{
  SameKeys, get_by_id-update, get_by_id-update_other,
}
use edo_adapter_enterprise.Database.Others.{save_entry, save_event}
use edo_adapter_enterprise.Tasks.Sending.{add_letter}

-- The delivery `d` has become `e`; the other deliveries, the accounts and the documents are the same.
pub record Becomes (d e : DocumentDelivery) (before after : Database) : Type 0 where
  pub keys : SameKeys e d
  pub reads : (j : ℕ) → get_by_id j after ≡ (if j == d.id then ok (some e) else get_by_id j before)
  pub accounts : after.accounts ≡ before.accounts
  pub documents : after.documents ≡ before.documents

pub Becomes-refl :
    (d : DocumentDelivery) (db : Database) → get_by_id d.id db ≡ ok (some d) → Becomes d d db db
Becomes-refl d db found = record {
  keys = record {
    same_id = refl;
    same_tenant = refl;
    same_document = refl;
    same_account = refl;
    same_key = refl;
    same_creation = refl;
  };
  reads = λ j. elim (Bool-cases (j == d.id)) [
    | inl t ↦ rw t (subst (λ i. get_by_id i db ≡ ok (some d)) (sym ((==_iff j d.id).0 t)) found)
    | inr t ↦ rw t refl
  ];
  accounts = refl;
  documents = refl;
}

pub stored :
    (d e : DocumentDelivery) (before after : Database)
    → Becomes d e before after
    → get_by_id d.id after ≡ ok (some e)
stored d e before after b = b.reads d.id ∙ rw (==_refl d.id) refl

SameKeys-trans : (f e d : DocumentDelivery) → SameKeys f e → SameKeys e d → SameKeys f d
SameKeys-trans f e d p q = record {
  same_id = p.same_id ∙ q.same_id;
  same_tenant = p.same_tenant ∙ q.same_tenant;
  same_document = p.same_document ∙ q.same_document;
  same_account = p.same_account ∙ q.same_account;
  same_key = p.same_key ∙ q.same_key;
  same_creation = p.same_creation ∙ q.same_creation;
}

update_keeps :
    (d : DocumentDelivery) (db : Database)
    → ((update d db).accounts ≡ db.accounts) × ((update d db).documents ≡ db.documents)
unfolding update
update_keeps d db = (refl, refl)

-- The delivery is written once more.
pub Becomes-update :
    (d e f : DocumentDelivery) (before after : Database)
    → Becomes d e before after
    → SameKeys f e
    → Becomes d f before (update f after)
Becomes-update d e f before after b same =
    let (accounts, documents) = update_keeps f after in
    record {
      keys = SameKeys-trans f e d same b.keys;
      reads = λ j. elim (Bool-cases (j == d.id)) [
        | inl t ↦ rw t (
            subst (λ i. get_by_id i (update f after) ≡ ok (some f))
              (b.keys.same_id ∙ sym ((==_iff j d.id).0 t))
              (get_by_id-update e f after same (
                subst (λ i. get_by_id i after ≡ ok (some e)) (sym b.keys.same_id)
                  (stored d e before after b))))
        | inr t ↦ rw t (
            get_by_id-update_other j f after
              (λ q. ground (arith, ==_refl j, same.same_id, b.keys.same_id))
            ∙ b.reads j
            ∙ rw t refl)
      ];
      accounts = accounts ∙ b.accounts;
      documents = documents ∙ b.documents;
    }

-- An audit event and a dead letter are no deliveries.
pub Becomes-records :
    (d e : DocumentDelivery) (before after : Database) (a : AuditEvent) (l : Option DlqEntry)
    → Becomes d e before after
    → Becomes d e before (save_event a (add_letter l after))
unfolding save_event save_entry get_by_id
Becomes-records d e before after a none b = record {
  keys = b.keys;
  reads = b.reads;
  accounts = b.accounts;
  documents = b.documents;
}
Becomes-records d e before after a (some l) b = record {
  keys = b.keys;
  reads = b.reads;
  accounts = b.accounts;
  documents = b.documents;
}
