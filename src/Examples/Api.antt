-- ===== src/Examples/Api.antt =====
-- Requests on concrete tables.
use edo_adapter_enterprise.Domain.Account
use edo_adapter_enterprise.Database.Rows.{provider_to_entity, provider_to_model}
use edo_adapter_enterprise.Database.Others.{get_by_internal_id}
use edo_adapter_enterprise.Domain.Status.{of_value}
use edo_adapter_enterprise.Database.Rows.{delivery_to_entity}
use edo_adapter_enterprise.Database.Deliveries.{list_by_document}
use edo_adapter_enterprise.Shared.{◌+◌, ◌≡◌, refl, [], ◌∷◌, ◌++◌, none, some, true, false, arith}
use edo_adapter_enterprise.Shared.Results.{ok}
use edo_adapter_enterprise.Domain.Delivery
use edo_adapter_enterprise.Domain.Delivery.{DocumentDelivery}
use edo_adapter_enterprise.Domain.Document
use edo_adapter_enterprise.Domain.Document.{EdoDocument}
use edo_adapter_enterprise.Domain.DeadLetter.{DlqEntry}
use edo_adapter_enterprise.Database.Rows.{delivery_to_model}
use edo_adapter_enterprise.Database.Deliveries.{get_by_id}
use edo_adapter_enterprise.Database.Accounts
use edo_adapter_enterprise.Database.Others.{get_entry}
use edo_adapter_enterprise.Tasks.SendDocument
use edo_adapter_enterprise.Tasks.Sending.{write_dlq}
use edo_adapter_enterprise.Tasks.SendDocument.{send_document, with_delivery}
use edo_adapter_enterprise.Api.Sessions.{CurrentUser, returned, Session}
use edo_adapter_enterprise.Api.Documents.{delivery_response}
use edo_adapter_enterprise.Api.Documents.Dispatch.{call, created, requested, requested_dispatches}
use edo_adapter_enterprise.Api.Documents.Retry.{retry_document, retry_document-unforced}
use edo_adapter_enterprise.Api.Dlq.{replay_batch}
use edo_adapter_enterprise.Api.Dlq.Isolation.{replay_batch-foreign}
use edo_adapter_enterprise.Examples.Requests.{user, request, body, file}
use edo_adapter_enterprise.Examples.Fixtures.{
  memory, run, new_delivery, stub_account, tables, world,
}

abbrev stranger : CurrentUser
stranger = record { user_id = 31; tenant_id = 2; role = "admin" }

requested_dispatches_example :
    let (answer, w') = requested request user body file world in
    (answer ≡ returned (delivery_response (created request user body file stub_account)))
    × (w'.queue ≡ [] ++ call request user body file ∷ [])
    × (get_by_id 51 w'.db ≡ ok (some (created request user body file stub_account)))
    × (send_document memory run (call request user body file) w'
        ≡ SendDocument.with_account memory run
            (Accounts.get_by_id 5 w'.db)
            (created request user body file stub_account)
            (79 ∷ 255 ∷ [])
            w')
    × (send_document memory run (call request user body file) world ≡ (ok "not_found", world))
unfolding get_by_internal_id Accounts.get_by_id provider_to_model provider_to_entity
    Account.of_value delivery_to_model Delivery.create
requested_dispatches_example =
    requested_dispatches request user body file memory run stub_account world refl refl refl refl
      refl (omega arith, (omega arith, tt))

abbrev document : EdoDocument
document =
    Document.create (λ bytes. "e3b0") 3 1 70 "INVOICE" "7707083893" none "5001007322" none "t"
      "f.xml" "application/xml" [] 30 none 90

abbrev failed_delivery : DocumentDelivery
failed_delivery = Delivery.mark_failed "UNKNOWN_ERROR" "no route" 300 new_delivery

abbrev foreign_letter : DlqEntry
foreign_letter = record (write_dlq run failed_delivery "UNKNOWN_ERROR" "no route" true) {
  tenant_id = 2;
}

abbrev session : Session
session = record {
  db = record tables {
    documents = document ∷ [];
    deliveries = delivery_to_model failed_delivery ∷ [];
    dlq_entries = foreign_letter ∷ [];
  };
  sent = [];
}

retry_document-unforced_example :
    retry_document 3 false session ≡ (returned "retry_dispatched", session)
unfolding list_by_document delivery_to_model Delivery.mark_failed Delivery.create delivery_to_entity
    of_value
retry_document-unforced_example =
    retry_document-unforced 3 session (failed_delivery ∷ []) [] failed_delivery refl refl

replay_batch-foreign_example :
    get_entry 900 (replay_batch user (λ n. 4000 + n) (900 ∷ []) true session).1.db
    ≡ some foreign_letter
unfolding get_entry write_dlq
replay_batch-foreign_example =
    replay_batch-foreign user (λ n. 4000 + n) true 900 foreign_letter (900 ∷ []) session refl
      (λ e. omega arith)
