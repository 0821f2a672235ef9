-- ===== src/Tasks/SendDocument/Stranded.antt =====
-- The runs that end early: an open circuit, and an account whose credentials lack a key.
use edo_adapter_enterprise.Shared.{ℕ, ◌+◌, ◌<◌, true, false, some, List, ◌≡◌, refl, is_some}
use edo_adapter_enterprise.Shared.Results.{ok, err, Fault}
use edo_adapter_enterprise.Domain.Status
use edo_adapter_enterprise.Domain.Status.{is_terminal}
use edo_adapter_enterprise.Domain.Delivery.{
  DocumentDelivery, mark_sending, mark_failed, schedule_retry, is_final,
}
use edo_adapter_enterprise.Domain.Account.{ProviderAccount}
use edo_adapter_enterprise.Database.Deliveries.{get_by_id, update}
use edo_adapter_enterprise.Database.Deliveries.Storage.{get_by_id-update}
use edo_adapter_enterprise.Providers.Factory
use edo_adapter_enterprise.Reliability.Backoff.{compute_next_retry}
use edo_adapter_enterprise.Reliability.Circuit.{Redis, passed, circuit_open, guard}
use edo_adapter_enterprise.Tasks.SendDocument.Keys.{keeps_keys}
use edo_adapter_enterprise.Tasks.World.{World}
use edo_adapter_enterprise.Tasks.Sending.{Run, FitsCalendar, compute_next_retry-some}
use edo_adapter_enterprise.Tasks.SendDocument.{
  guarded, after_guard, postpone, postpone_until, dispatch, call_provider,
}

-- The delivery that a run leaves when the circuit is open.
abbrev postponed : Run → ℕ → DocumentDelivery → DocumentDelivery
postponed run next d =
    schedule_retry next (run.clock 3)
      (mark_failed "CIRCUIT_OPEN" "Circuit breaker is OPEN" (run.clock 1) d)

postpone_lem :
    (redis : Redis) (run : Run) (d : DocumentDelivery) (w : World redis.Server) (next : ℕ)
    → compute_next_retry run.settings run.uniform (run.clock 2) d.retry_count ≡ some next
    → postpone redis run d w
      ≡ (ok "circuit_open", record w { db = update (postponed run next d) w.db })
unfolding postpone mark_failed postpone_until
postpone_lem redis run d w next h = rw (h, postpone_until)

module _ (redis : Redis) (run : Run) (account : ProviderAccount) (file : List ℕ) where
  open redis use {Server}

  -- While the circuit of the account is open, a run postpones a stored delivery however often it was retried
  -- before (below 1024 times): it counts one more retry, and leaves a delivery that is pending and not
  -- final, and yet carries `final_at` and the error CIRCUIT_OPEN. No dead letter and no audit event is
  -- written. (The random number is between 0 and its bound, and the longest delay does not lead past the last
  -- date of Python.)
  pub circuit_open_postpones :
      (d : DocumentDelivery) (w : World Server)
      → get_by_id d.id w.db ≡ ok (some d)
      → FitsCalendar run
      → d.retry_count < 1024
      → (guard redis run.settings account.id (run.clock 0) w.server).0 ≡ circuit_open
      → let (answer, w') = guarded redis run account d file w in
        (answer ≡ ok "circuit_open")
        × ((e : DocumentDelivery) × (get_by_id d.id w'.db ≡ ok (some e))
            × (is_final e ≡ false)
            × (e.unified_status ≡ Status.pending)
            × (is_some e.final_at ≡ true)
            × (e.last_error_code ≡ some "CIRCUIT_OPEN")
            × (e.retry_count ≡ d.retry_count + 1))
        × (w'.db.dlq_entries ≡ w.db.dlq_entries)
        × (w'.db.audit_events ≡ w.db.audit_events)
  unfolding guarded after_guard schedule_retry mark_failed is_terminal update
  circuit_open_postpones d w found dated few refused =
      let (next, e) = compute_next_retry-some run d.retry_count dated few in
      rw (refused, after_guard)
        (rw
          (postpone_lem redis run d
            (record w { server = (guard redis run.settings account.id (run.clock 0) w.server).1 })
            next e)
          (
            refl,
            (
              postponed run next d,
              get_by_id-update d (postponed run next d) w.db (search keeps_keys) found,
              refl,
              refl,
              refl,
              refl,
              refl,
            ),
            refl,
            refl,
          ))

  -- If the provider cannot be made, since the account's credentials lack a key, a run whose circuit lets it
  -- through raises that exception, and leaves the stored delivery in the status SENDING with no dead letter and
  -- no audit event.
  pub missing_key_strands :
      (d : DocumentDelivery) (w : World Server) (f : Fault)
      → get_by_id d.id w.db ≡ ok (some d)
      → (guard redis run.settings account.id (run.clock 0) w.server).0 ≡ passed
      → Factory.create account.provider_type account.credentials_json ≡ err f
      → let (answer, w') = guarded redis run account d file w in
        (answer ≡ err f)
        × (get_by_id d.id w'.db ≡ ok (some (mark_sending (run.clock 1) d)))
        × (w'.db.dlq_entries ≡ w.db.dlq_entries)
        × (w'.db.audit_events ≡ w.db.audit_events)
  unfolding guarded after_guard dispatch call_provider update
  missing_key_strands d w f found let_through missing =
      rw (let_through, after_guard)
        (rw (missing, call_provider)
          (
            refl,
            get_by_id-update d (mark_sending (run.clock 1) d) w.db (search keeps_keys) found,
            refl,
            refl,
          ))
