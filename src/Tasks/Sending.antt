-- ===== src/Tasks/Sending.antt =====
-- src/infrastructure/queue/tasks/send_document_task.py: what one run takes from outside, and the `try` statement
-- around the call of the provider, with its `finally`.
use edo_adapter_enterprise.Shared.{
  ℕ, ◌+◌, ◌≤◌, ◌<◌, ◌≡◌, String, Bool, true, false, Option, none, some, List, [], ◌∷◌, concat,
  if◌then◌else◌,
}
use edo_adapter_enterprise.Shared.Results.{Result, ok, err, Fault, overflow_error}
use edo_adapter_enterprise.Core.Config.{Settings}
use edo_adapter_enterprise.Domain.Status
use edo_adapter_enterprise.Domain.Status.{UnifiedDocumentStatus}
use edo_adapter_enterprise.Domain.Delivery.{
  DocumentDelivery, mark_sent, mark_failed, schedule_retry,
}
use edo_adapter_enterprise.Domain.Json.{text}
use edo_adapter_enterprise.Domain.Audit
use edo_adapter_enterprise.Domain.Audit.{AuditEvent}
use edo_adapter_enterprise.Domain.DeadLetter.{DlqEntry}
use edo_adapter_enterprise.Database.Rows.{Database}
use edo_adapter_enterprise.Database.Deliveries
use edo_adapter_enterprise.Database.Others.{save_entry, save_event}
use edo_adapter_enterprise.Providers.Interface.{
  SendOutcome, accepted, transient, permanent, unexpected,
}
use edo_adapter_enterprise.Providers.Factory.{Provider}
use edo_adapter_enterprise.Reliability.Backoff.{datetime_max, compute_next_retry, should_retry}
use edo_adapter_enterprise.Reliability.Backoff.Delay.{compute_next_retry_bounds}

-- What one run takes from outside: readings of the clock, new identifiers, the
-- random draw of the backoff, the texts of identifiers, and the provider's answer.
pub record Run : Type 0 where
  pub settings : Settings
  pub clock : ℕ → ℕ
  pub fresh : ℕ → ℕ
  pub uniform : ℕ → ℕ
  pub str : ℕ → String
  pub send : Provider → DocumentDelivery → List ℕ → SendOutcome

-- The random number is between 0 and its bound, and the longest delay from now on does not lead past the last date
-- of Python.
abbrev pub FitsCalendar : Run → Type 0
FitsCalendar run =
    ((bound : ℕ) → run.uniform bound ≤ bound)
    × (run.clock 2 + run.settings.default_retry_max ≤ datetime_max)

-- The next retry is then computed for every retry count below 1024.
pub compute_next_retry-some :
    (run : Run) (n : ℕ)
    → FitsCalendar run
    → n < 1024
    → (next : ℕ) × (compute_next_retry run.settings run.uniform (run.clock 2) n ≡ some next)
compute_next_retry-some run n (draw, dated) few =
    let (next, e, _, _, _) =
      compute_next_retry_bounds run.settings run.uniform (run.clock 2) n draw few dated in
    (next, e)

-- `status.value.lower()`
abbrev pub lower_value : UnifiedDocumentStatus → String
lower_value Status.pending = "pending"
lower_value Status.sending = "sending"
lower_value Status.sent = "sent"
lower_value Status.delivered = "delivered"
lower_value Status.signed = "signed"
lower_value Status.rejected = "rejected"
lower_value Status.cancelled = "cancelled"
lower_value Status.failed = "failed"
lower_value Status.unknown = "unknown"

-- `_write_dlq`: the row that it adds. The column `created_at` is set by the database.
unfoldable pub write_dlq : Run → DocumentDelivery → String → String → Bool → DlqEntry
write_dlq run delivery code message retryable = record {
  id = run.fresh 0;
  tenant_id = delivery.tenant_id;
  delivery_id = some delivery.id;
  provider_account_id = some delivery.provider_account_id;
  task_name = "send_document";
  payload = ("delivery_id", text (run.str delivery.id)) ∷ [];
  reason_code = code;
  reason_message = message;
  retryable = retryable;
  replayed_at = none;
  created_at = run.clock 4;
}

-- The audit event of the `finally` block.
unfoldable pub audit_of : Run → DocumentDelivery → AuditEvent
audit_of run delivery =
    Audit.create (run.fresh 1) delivery.tenant_id "delivery" delivery.id
      (concat "delivery.status." (lower_value delivery.unified_status))
      (some (("unified_status", text (Status.value delivery.unified_status)) ∷ [])) none none
      (run.clock 5)

-- What the `try` statement around the provider's call leaves: the delivery, the dead letter that is
-- added, if any, and the exception that goes on after `finally`, if any.
pub record Tried : Type 0 where
  pub delivery : DocumentDelivery
  pub dead_letter : Option DlqEntry
  pub raised : Option Fault

-- `delivery.schedule_retry(compute_next_retry(delivery.retry_count))`
abbrev pub retried : Run → DocumentDelivery → Option ℕ → Tried
retried run d none = record { delivery = d; dead_letter = none; raised = some overflow_error }
retried run d (some next) = record {
  delivery = schedule_retry next (run.clock 3) d;
  dead_letter = none;
  raised = none;
}

abbrev pub given_up : Run → DocumentDelivery → String → String → Bool → Tried
given_up run d code message retryable =
    let failed = mark_failed code message (run.clock 3) d in
    record {
      delivery = failed;
      dead_letter = some (write_dlq run failed code message retryable);
      raised = none;
    }

-- The branches of the `try` statement, on a delivery that is being sent.
unfoldable pub try_send : Run → DocumentDelivery → SendOutcome → Tried
unfolding mark_sent schedule_retry mark_failed write_dlq
try_send run d (accepted result) = record {
  delivery = mark_sent result.provider_document_id (run.clock 3) d;
  dead_letter = none;
  raised = none;
}
try_send run d (transient e) =
    if should_retry run.settings d.retry_count
    then retried run d (compute_next_retry run.settings run.uniform (run.clock 2) d.retry_count)
    else given_up run d e.code e.message true
try_send run d (permanent e) = given_up run d e.code e.message false
try_send run d (unexpected message) = given_up run d "UNKNOWN_ERROR" message false

abbrev pub add_letter : Option DlqEntry → Database → Database
add_letter none db = db
add_letter (some e) db = save_entry e db

-- The `finally` block, with its commit.
unfoldable pub finish : Run → Tried → Database → Result String × Database
finish run t db =
    let written =
      Deliveries.update t.delivery
        (save_event (audit_of run t.delivery) (add_letter t.dead_letter db)) in
    (elim t.raised [ none ↦ ok (Status.value t.delivery.unified_status) | some e ↦ err e ], written)
