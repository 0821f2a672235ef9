-- ===== src/Examples/System.antt =====
-- A history of requests and runs from concrete tables.
use edo_adapter_enterprise.Domain.Delivery.{create}
use edo_adapter_enterprise.Database.Rows.{
  delivery_to_entity, delivery_to_model, provider_to_entity, provider_to_model,
}
use edo_adapter_enterprise.Shared.{ℕ, String, ◌≡◌, refl, true, Option, some, List, [], ◌∷◌}
use edo_adapter_enterprise.Shared.Results.{Result, ok, err, value_error}
use edo_adapter_enterprise.Domain.DeadLetter.{DlqEntry}
use edo_adapter_enterprise.Tasks.World.{World}
use edo_adapter_enterprise.Tasks.Sending.{write_dlq}
use edo_adapter_enterprise.Domain.Status
use edo_adapter_enterprise.Domain.Account
use edo_adapter_enterprise.Domain.Delivery.{DocumentDelivery}
use edo_adapter_enterprise.Domain.Account.{ProviderAccount}
use edo_adapter_enterprise.Database.Deliveries
use edo_adapter_enterprise.Database.Accounts
use edo_adapter_enterprise.Api.Sessions.{returned}
use edo_adapter_enterprise.Api.Audit.{document_audit_timeline, page}
use edo_adapter_enterprise.System.Sound.{IsSound}
use edo_adapter_enterprise.System.Reachable.{
  Event, history, sends, runs_send, runs_dlq, history-IsSound, history-reads, history-timeline,
}
use edo_adapter_enterprise.Examples.Fixtures.{
  memory, run, new_delivery, other_delivery, stub_account, tables, world,
}
use edo_adapter_enterprise.Examples.Requests.{user, request, body, file}

tables-IsSound : IsSound tables
unfolding delivery_to_entity Status.of_value delivery_to_model create provider_to_entity
    Account.of_value provider_to_model
tables-IsSound = record {
  deliveries = ((new_delivery, refl, tt), ((other_delivery, refl, tt), tt));
  accounts = ((stub_account, refl), tt);
  letters = tt;
  events = tt;
}

-- A metric with labels takes no number without values for them.
abbrev set_gauge : List String → ℕ → Result (Unit {0})
set_gauge [] n = ok tt
set_gauge (name ∷ names) n = err value_error

-- A document is sent twice, with a run of the task for dead letters in between.
abbrev events : List Event
events =
    sends request user body file
    ∷ runs_send run (record { delivery_id = some 51; file_bytes_hex = b'4' ∷ b'f' ∷ [] })
    ∷ runs_dlq set_gauge (λ j. []) (λ c. true) 4000
    ∷ runs_send run (record { delivery_id = some 51; file_bytes_hex = b'4' ∷ b'f' ∷ [] })
    ∷ []

history-IsSound_example : IsSound (history memory events world).db
history-IsSound_example = history-IsSound memory events world tables-IsSound

history-reads_example :
    let db = (history memory events world).db in
    ((ds : List DocumentDelivery) × (Deliveries.list_by_document 50 db ≡ ok ds))
    × ((d : Option DocumentDelivery) × (Deliveries.get_by_id 51 db ≡ ok d))
    × ((a : Option ProviderAccount) × (Accounts.get_by_id 5 db ≡ ok a))
history-reads_example = history-reads memory events world 50 51 5 tables-IsSound

history-timeline_example :
    (document_audit_timeline user 50 20 0
      (record { db = (history memory events world).db; sent = [] })).0
    ≡ returned (page 20 0 [])
history-timeline_example = history-timeline memory events world user 50 20 0 tables-IsSound

-- A letter waits, and the broker would take its call.
abbrev waiting_letter : DlqEntry
waiting_letter = write_dlq run new_delivery "UNKNOWN_ERROR" "no route" true

abbrev world_with_letter : World memory.Server
world_with_letter = record world { db = record tables { dlq_entries = waiting_letter ∷ [] } }
