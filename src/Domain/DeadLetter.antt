-- ===== src/Domain/DeadLetter.antt =====
-- src/domain/entities/dlq_entry.py: a task that failed for good, in the dead-letter queue.
use edo_adapter_enterprise.Shared.{ℕ, String, Bool, Option, none, some}
use edo_adapter_enterprise.Domain.Json.{Dict, Json}

pub record DlqEntry : Type 0 where
  pub id : ℕ
  pub tenant_id : ℕ
  pub delivery_id : Option ℕ
  pub provider_account_id : Option ℕ
  pub task_name : String
  pub payload : Dict Json
  pub reason_code : String
  pub reason_message : String
  pub retryable : Bool
  pub replayed_at : Option ℕ
  pub created_at : ℕ

-- `DLQEntry.create`, with the identifier of `uuid4` first and the clock reading last.
unfoldable pub create :
    ℕ → ℕ → String → Dict Json → String → String → Bool → Option ℕ → Option ℕ → ℕ → DlqEntry
create id tenant_id task_name payload reason_code reason_message retryable delivery_id
      provider_account_id now =
    record {
      id = id;
      tenant_id = tenant_id;
      delivery_id = delivery_id;
      provider_account_id = provider_account_id;
      task_name = task_name;
      payload = payload;
      reason_code = reason_code;
      reason_message = reason_message;
      retryable = retryable;
      replayed_at = none;
      created_at = now;
    }

unfoldable pub mark_replayed : ℕ → DlqEntry → DlqEntry
mark_replayed now e = record e { replayed_at = some now }
