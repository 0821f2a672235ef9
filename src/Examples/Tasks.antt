-- ===== src/Examples/Tasks.antt =====
-- Runs of the task `send_document` on concrete inputs.
use edo_adapter_enterprise.Providers.Factory.{create, stub_provider}
use edo_adapter_enterprise.Domain.Json.{text, number}
use edo_adapter_enterprise.Domain.Account
use edo_adapter_enterprise.Database.Accounts
use edo_adapter_enterprise.Reliability.Circuit.{CircuitHash, get_state, guard, guard_in}
use edo_adapter_enterprise.Database.Rows.{
  delivery_to_entity, delivery_to_model, provider_to_model, provider_to_entity,
}
use edo_adapter_enterprise.Tasks.SendDocument.Hex.{hex_value, is_blank}
use edo_adapter_enterprise.Shared.{
  ℕ, ◌+◌, ◌≡◌, refl, List, [], ◌∷◌, none, some, true, false, is_some, arith,
}
use edo_adapter_enterprise.Shared.Results.{ok, err, key_error}
use edo_adapter_enterprise.Core.Config.{defaults}
use edo_adapter_enterprise.Domain.Status
use edo_adapter_enterprise.Domain.Status.{is_failed}
use edo_adapter_enterprise.Domain.Delivery
use edo_adapter_enterprise.Domain.Delivery.{DocumentDelivery, mark_sending, is_final}
use edo_adapter_enterprise.Domain.Errors.{DomainError}
use edo_adapter_enterprise.Domain.DeadLetter.{DlqEntry}
use edo_adapter_enterprise.Database.Deliveries.{get_by_id}
use edo_adapter_enterprise.Providers.Interface.{permanent}
use edo_adapter_enterprise.Tasks.Sending.{Run, try_send}
use edo_adapter_enterprise.Tasks.SendDocument.{guarded, send_document}
use edo_adapter_enterprise.Tasks.SendDocument.Hex.{fromhex}
use edo_adapter_enterprise.Tasks.SendDocument.Answers.{Ends, send_document-Ends}
use edo_adapter_enterprise.Tasks.SendDocument.Letters.{dead_letter-failed}
use edo_adapter_enterprise.Tasks.SendDocument.Attempts.{attempt, attempts, retry_budget}
use edo_adapter_enterprise.Tasks.SendDocument.Redelivered.{send_document-sends_again}
use edo_adapter_enterprise.Tasks.World.{World}
use edo_adapter_enterprise.Tasks.SendDocument.Stranded.{circuit_open_postpones, missing_key_strands}
use edo_adapter_enterprise.Examples.Fixtures.{
  memory, run, run-FitsCalendar, busy, new_delivery, stub_account, bare_account, tables, world,
  world_5_open,
}

send_document-Ends_example : Ends new_delivery tables (
    send_document memory run
      (record { delivery_id = some 7; file_bytes_hex = b'4' ∷ b'f' ∷ [] })
      world)
unfolding fromhex get_by_id is_blank hex_value delivery_to_model Delivery.create delivery_to_entity
    Status.of_value
send_document-Ends_example =
    send_document-Ends memory run 7 (79 ∷ []) (b'4' ∷ b'f' ∷ []) new_delivery world refl refl

abbrev in_flight : DocumentDelivery
in_flight = mark_sending 2001 new_delivery

dead_letter-failed_example :
    is_some (try_send run in_flight (permanent busy)).dead_letter
    ≡ is_failed (try_send run in_flight (permanent busy)).delivery.unified_status
unfolding mark_sending
dead_letter-failed_example = dead_letter-failed run in_flight (permanent busy) refl

abbrev busy_run : Run × DomainError
busy_run = (run, busy)

abbrev five_busy : List (Run × DomainError)
five_busy = busy_run ∷ busy_run ∷ busy_run ∷ busy_run ∷ busy_run ∷ []

retry_budget_example :
    let before = attempts five_busy new_delivery in
    let t = attempt busy_run before in
    (before.unified_status ≡ Status.pending)
    × (t.delivery.unified_status ≡ Status.failed)
    × (t.raised ≡ none)
    × ((l : DlqEntry) × (t.dead_letter ≡ some l) × (l.retryable ≡ true))
unfolding defaults Delivery.create
retry_budget_example =
    retry_budget defaults five_busy busy_run new_delivery (omega arith)
      (refl, (refl, (refl, (refl, (refl, tt)))))
      (
        run-FitsCalendar,
        (run-FitsCalendar, (run-FitsCalendar, (run-FitsCalendar, (run-FitsCalendar, tt)))),
      )
      refl refl refl refl

circuit_open_postpones_example :
    let (answer, w') = guarded memory run stub_account new_delivery (79 ∷ []) world_5_open in
    (answer ≡ ok "circuit_open")
    × ((e : DocumentDelivery) × (get_by_id new_delivery.id w'.db ≡ ok (some e))
        × (is_final e ≡ false)
        × (e.unified_status ≡ Status.pending)
        × (is_some e.final_at ≡ true)
        × (e.last_error_code ≡ some "CIRCUIT_OPEN")
        × (e.retry_count ≡ new_delivery.retry_count + 1))
    × (w'.db.dlq_entries ≡ [])
    × (w'.db.audit_events ≡ [])
unfolding get_by_id Delivery.create delivery_to_model delivery_to_entity Status.of_value guard
    guard_in get_state defaults
circuit_open_postpones_example =
    circuit_open_postpones memory run stub_account (79 ∷ []) new_delivery world_5_open refl
      run-FitsCalendar (omega arith) refl

missing_key_strands_example :
    let (answer, w') = guarded memory run bare_account new_delivery (79 ∷ []) world in
    (answer ≡ err key_error)
    × (get_by_id new_delivery.id w'.db ≡ ok (some (mark_sending 2001 new_delivery)))
    × (w'.db.dlq_entries ≡ [])
    × (w'.db.audit_events ≡ [])
unfolding get_by_id Delivery.create delivery_to_model delivery_to_entity Status.of_value guard
    guard_in get_state create
missing_key_strands_example =
    missing_key_strands memory run bare_account (79 ∷ []) new_delivery world key_error refl refl
      refl

-- The delivery 7, which is signed.
abbrev signed_delivery : DocumentDelivery
signed_delivery = Delivery.mark_signed 500 new_delivery

abbrev signed_world : World (ℕ → CircuitHash)
signed_world = record world {
  db = record tables { deliveries = delivery_to_model signed_delivery ∷ [] };
}

send_document-sends_again_example :
    (e : DocumentDelivery) × (get_by_id 7
        (send_document memory run
          (record { delivery_id = some 7; file_bytes_hex = b'4' ∷ b'f' ∷ [] })
          signed_world).1.db
      ≡ ok (some e))
    × (e.unified_status ≡ Status.sent)
    × (e.provider_document_id ≡ some "STUB-1")
    × (e.final_at ≡ signed_delivery.final_at)
    × (e.signed_at ≡ signed_delivery.signed_at)
unfolding fromhex is_blank hex_value get_by_id delivery_to_model Delivery.mark_signed
    Delivery.create delivery_to_entity Status.of_value Accounts.get_by_id provider_to_model
    provider_to_entity Account.of_value guard guard_in get_state create
send_document-sends_again_example =
    send_document-sends_again memory run 7 (79 ∷ []) (b'4' ∷ b'f' ∷ []) signed_delivery stub_account
      (stub_provider (text "stub-secret") (number 30))
      (record { provider_document_id = "STUB-1"; raw_status = "SENT" }) signed_world refl refl refl
      refl refl refl refl
