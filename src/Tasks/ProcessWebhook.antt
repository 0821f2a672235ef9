-- ===== src/Tasks/ProcessWebhook.antt =====
-- src/infrastructure/queue/tasks/process_webhook_task.py: the task that is to process a webhook. It reads
-- `account.credentials`, an attribute that the model of an account does not have, before anything else.
use edo_adapter_enterprise.Shared.{
  ℕ, zero, suc, ◌+◌, ◌<◌, ◌≡◌, refl, String, Option, none, some, List, All, ltb, if◌then◌else◌,
  Option-cases, inl, inr,
}
use edo_adapter_enterprise.Shared.Results.{
  Result, ok, err, Fault, value_error, type_error, attribute_error, ◌>>=◌,
}
use edo_adapter_enterprise.Shared.Tables.{select_one}
use edo_adapter_enterprise.Shared.Base64.{b64decode, b64decode-b64encode}
use edo_adapter_enterprise.Domain.Json.{Dict, Json}
use edo_adapter_enterprise.Domain.Account
use edo_adapter_enterprise.Providers.Interface.{WebhookParseResult}
use edo_adapter_enterprise.Providers.Factory
use edo_adapter_enterprise.Providers.Factory.{Provider}
use edo_adapter_enterprise.Database.Rows.{Database, ProviderAccountModel}
use edo_adapter_enterprise.Database.Accounts.{has_id}
use edo_adapter_enterprise.Api.Webhooks.{WebhookCall, dispatch_webhook}

-- `account.credentials`
abbrev credentials : ProviderAccountModel → Result (Dict Json)
credentials account = err attribute_error

-- `provider.parse_webhook(headers, body_bytes)`: the method takes one argument, so that the call raises.
abbrev parse_webhook_call : Provider → Result (List WebhookParseResult)
parse_webhook_call provider = err type_error

-- From the provider on. `provider.validate_webhook(headers, body_bytes)` is not awaited: it makes a coroutine,
-- checks nothing and raises nothing. The loop over the events, which no run reaches, is left out.
abbrev with_provider : Provider → Result (Unit {0})
with_provider provider = parse_webhook_call provider >>= λ events. ok tt

abbrev with_account : Option ProviderAccountModel → Result (Unit {0})
with_account none = ok tt
with_account (some account) = credentials account >>= λ c.
    Account.of_value account.provider_type >>= λ type. Factory.create type c >>= with_provider

-- `_process`: no run reaches a statement that changes the database.
unfoldable pub process : ℕ → Database → Result (Unit {0})
process account_id db = with_account (select_one (has_id account_id) db.accounts)

-- How a run of the task ends: it returns, it asks Celery for another run, or it fails for good.
pub data TaskEnd : Type 0 where
  finished : TaskEnd
  retried : TaskEnd
  gave_up : Fault → TaskEnd

abbrev max_retries : ℕ
max_retries = 3

-- `raise self.retry(exc=exc)`: a new run as long as retries are left, and then the exception.
abbrev ended_after : ℕ → Result (Unit {0}) → TaskEnd
ended_after retries (ok _) = finished
ended_after retries (err f) = if ltb retries max_retries then retried else gave_up f

-- One run of `process_webhook_task`, after so many retries. A body that is not decoded raises outside of
-- the `try` statement.
abbrev after_decoding : ℕ → ℕ → Database → Option (List ℕ) → TaskEnd
after_decoding retries account_id db none = gave_up value_error
after_decoding retries account_id db (some body) = ended_after retries (process account_id db)

unfoldable pub process_webhook_task : ℕ → WebhookCall → Database → TaskEnd
process_webhook_task retries call db =
    after_decoding retries call.account_id db (b64decode call.body_b64)

abbrev after_run : ℕ → Option (TaskEnd × ℕ) → TaskEnd → Option (TaskEnd × ℕ)
after_run retries next retried = next
after_run retries next finished = some (finished, retries + 1)
after_run retries next (gave_up f) = some (gave_up f, retries + 1)

-- The runs of a call until one of them does not ask for another, with their number; `none` means that
-- the fuel ran out.
unfoldable pub runs : ℕ → ℕ → WebhookCall → Database → Option (TaskEnd × ℕ)
runs zero retries call db = none
runs (suc fuel) retries call db =
    after_run retries (runs fuel (retries + 1) call db) (process_webhook_task retries call db)

one_run :
    (headers : Dict String) (body : List ℕ) (account_id retries : ℕ) (db : Database)
    → All (λ b. b < 256) body
    → process_webhook_task retries (dispatch_webhook headers body account_id) db
      ≡ ended_after retries (process account_id db)
unfolding process_webhook_task dispatch_webhook
one_run headers body account_id retries db bytes = rw (b64decode-b64encode body bytes) refl

-- A webhook that an endpoint takes for an account that exists is never processed: its call runs four times,
-- each time to an AttributeError, and then fails for good. Of an account that does not exist the
-- call runs once and does nothing. In both cases the runs come to an end.
pub webhook_never_processed :
    (headers : Dict String) (body : List ℕ) (account_id : ℕ) (db : Database)
    → All (λ b. b < 256) body
    → runs 4 0 (dispatch_webhook headers body account_id) db
      ≡ elim (select_one (has_id account_id) db.accounts) [
        | none ↦ some (finished, 1)
        | some account ↦ some (gave_up attribute_error, 4)
      ]
unfolding runs process
webhook_never_processed headers body account_id db bytes =
    rw (one_run headers body account_id 0 db bytes) (
      rw (one_run headers body account_id 1 db bytes) (
        rw (one_run headers body account_id 2 db bytes) (
          rw (one_run headers body account_id 3 db bytes)
            (elim (Option-cases (select_one (has_id account_id) db.accounts)) [
              | inl e ↦ rw e refl
              | inr (account, e) ↦ rw e refl
            ]))))
