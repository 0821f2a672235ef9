-- ===== src/Tasks/SendDocument.antt =====
-- src/infrastructure/queue/tasks/send_document_task.py: one run of the task that sends a delivery.
-- A fault of the database or of Redis itself is not modelled; what is written after the last commit of a
-- run that raises is rolled back.
pub mod Hex
pub mod Keys
pub mod Stored
pub mod Answers
pub mod Letters
pub mod Attempts
pub mod Stranded
pub mod Redelivered
use Hex.{fromhex}
use edo_adapter_enterprise.Shared.{ℕ, String, not, Option, none, some, List, if◌then◌else◌}
use edo_adapter_enterprise.Shared.Results.{Result, ok, err, value_error, overflow_error}
use edo_adapter_enterprise.Domain.Delivery.{
  DocumentDelivery, mark_sending, mark_failed, schedule_retry,
}
use edo_adapter_enterprise.Domain.Account.{ProviderAccount}
use edo_adapter_enterprise.Database.Deliveries
use edo_adapter_enterprise.Database.Accounts
use edo_adapter_enterprise.Providers.Interface.{
  SendOutcome, accepted, transient, permanent, unexpected,
}
use edo_adapter_enterprise.Providers.Factory
use edo_adapter_enterprise.Providers.Factory.{Provider}
use edo_adapter_enterprise.Reliability.Backoff.{compute_next_retry}
use edo_adapter_enterprise.Reliability.Circuit.{
  Redis, Guard, passed, circuit_open, guard, record_success, record_failure,
}
use edo_adapter_enterprise.Tasks.World.{World, SendCall}
use edo_adapter_enterprise.Tasks.Sending.{Run, try_send, finish}

module _ (redis : Redis) (run : Run) where
  open redis use {Server}

  abbrev circuit_after : SendOutcome → ℕ → Server → Server
  circuit_after (accepted result) account r =
      record_success redis run.settings account (run.clock 6) r
  circuit_after (transient e) account r = record_failure redis run.settings account (run.clock 6) r
  circuit_after (permanent e) account r = r
  circuit_after (unexpected message) account r = r

  -- From the provider's answer to the end of the run.
  unfoldable pub conclude :
      ℕ → DocumentDelivery → SendOutcome → World Server → Result String × World Server
  conclude account_id sending outcome w =
      let (answer, db') = finish run (try_send run sending outcome) w.db in
      (answer, record w { db = db'; server = circuit_after outcome account_id w.server })

  -- After the commit of the status SENDING: the provider is made and called.
  unfoldable pub call_provider :
      Result Provider → ℕ → DocumentDelivery → List ℕ → World Server → Result String × World Server
  call_provider (err e) account_id sending file_bytes w = (err e, w)
  call_provider (ok provider) account_id sending file_bytes w =
      conclude account_id sending (run.send provider sending file_bytes) w

  unfoldable pub dispatch :
      ProviderAccount → DocumentDelivery → List ℕ → World Server → Result String × World Server
  dispatch account sending file_bytes w =
      call_provider (Factory.create account.provider_type account.credentials_json) account.id
        sending file_bytes w

  -- The branch of `CircuitOpenError`.
  unfoldable pub postpone_until :
      Option ℕ → DocumentDelivery → World Server → Result String × World Server
  postpone_until none failed w = (err overflow_error, w)
  postpone_until (some next) failed w = (
    ok "circuit_open",
    record w { db = Deliveries.update (schedule_retry next (run.clock 3) failed) w.db },
  )

  unfoldable pub postpone : DocumentDelivery → World Server → Result String × World Server
  postpone d w =
      let failed = mark_failed "CIRCUIT_OPEN" "Circuit breaker is OPEN" (run.clock 1) d in
      postpone_until (compute_next_retry run.settings run.uniform (run.clock 2) failed.retry_count)
        failed w

  unfoldable pub after_guard :
      Guard
      → ProviderAccount
      → DocumentDelivery
      → List ℕ
      → World Server
      → Result String × World Server
  after_guard circuit_open account d file_bytes w = postpone d w
  after_guard passed account d file_bytes w =
      let sending = mark_sending (run.clock 1) d in
      dispatch account sending file_bytes (record w { db = Deliveries.update sending w.db })

  unfoldable pub guarded :
      ProviderAccount → DocumentDelivery → List ℕ → World Server → Result String × World Server
  guarded account d file_bytes w =
      let (answer, r) = guard redis run.settings account.id (run.clock 0) w.server in
      after_guard answer account d file_bytes (record w { server = r })

  unfoldable pub refuse_account : DocumentDelivery → World Server → Result String × World Server
  refuse_account d w = (
    ok "failed",
    record w {
      db =
          Deliveries.update
            (mark_failed "PROVIDER_ACCOUNT_INACTIVE" "Provider account not active" (run.clock 0) d)
            w.db;
    },
  )

  -- What was read of the account: an unknown provider type raises, and an account that is missing or
  -- not active refuses the delivery.
  unfoldable pub with_account :
      Result (Option ProviderAccount)
      → DocumentDelivery
      → List ℕ
      → World Server
      → Result String × World Server
  with_account (err e) d file_bytes w = (err e, w)
  with_account (ok none) d file_bytes w = refuse_account d w
  with_account (ok (some account)) d file_bytes w =
      if not account.is_active then refuse_account d w else guarded account d file_bytes w

  -- What was read of the delivery.
  unfoldable pub with_delivery :
      Result (Option DocumentDelivery) → List ℕ → World Server → Result String × World Server
  with_delivery (err e) file_bytes w = (err e, w)
  with_delivery (ok none) file_bytes w = (ok "not_found", w)
  with_delivery (ok (some d)) file_bytes w =
      with_account (Accounts.get_by_id d.provider_account_id w.db) d file_bytes w

  unfoldable pub with_file : Option (List ℕ) → ℕ → World Server → Result String × World Server
  with_file none id w = (err value_error, w)
  with_file (some file_bytes) id w = with_delivery (Deliveries.get_by_id id w.db) file_bytes w

  -- `uuid.UUID(delivery_id)` refuses the text "None".
  unfoldable pub with_id : Option ℕ → List ℕ → World Server → Result String × World Server
  with_id none file_bytes_hex w = (err value_error, w)
  with_id (some id) file_bytes_hex w = with_file (fromhex file_bytes_hex) id w

  -- `_send_document_async`
  unfoldable pub send_document : SendCall → World Server → Result String × World Server
  send_document call w = with_id call.delivery_id call.file_bytes_hex w
