-- ===== src/Tasks/SendDocument/Redelivered.antt =====
-- A call that the broker delivers again, as it may with `acks_late`, and a call for a delivery that has its end.
use edo_adapter_enterprise.Shared.{ℕ, true, none, some, List, ◌≡◌, refl, sym, subst}
use edo_adapter_enterprise.Shared.Results.{ok}
use edo_adapter_enterprise.Domain.Status
use edo_adapter_enterprise.Domain.Delivery.{DocumentDelivery, mark_sending, mark_sent}
use edo_adapter_enterprise.Domain.Account.{ProviderAccount}
use edo_adapter_enterprise.Database.Deliveries
use edo_adapter_enterprise.Database.Deliveries.{get_by_id}
use edo_adapter_enterprise.Database.Deliveries.Storage.{get_by_id-id}
use edo_adapter_enterprise.Database.Accounts
use edo_adapter_enterprise.Providers.Interface.{SendResult, accepted}
use edo_adapter_enterprise.Providers.Factory
use edo_adapter_enterprise.Providers.Factory.{Provider}
use edo_adapter_enterprise.Reliability.Circuit.{Redis, passed, guard}
use edo_adapter_enterprise.Tasks.World.{World}
use edo_adapter_enterprise.Tasks.Sending.{Run, try_send, finish, audit_of}
use edo_adapter_enterprise.Tasks.SendDocument.{
  conclude, call_provider, dispatch, after_guard, guarded, with_account, with_delivery, with_file,
  with_id, send_document,
}
use edo_adapter_enterprise.Tasks.SendDocument.Hex.{fromhex}
use edo_adapter_enterprise.Tasks.SendDocument.Keys.{keeps_keys, try_send-SameKeys}
use edo_adapter_enterprise.Tasks.SendDocument.Stored.{
  Becomes-refl, Becomes-update, Becomes-records, stored,
}

module _ (redis : Redis) (run : Run) (d : DocumentDelivery) (result : SendResult) where
  open redis use {Server}

  accepted-stored :
      (account_id : ℕ) (w : World Server)
      → get_by_id d.id w.db ≡ ok (some d)
      → let sending = mark_sending (run.clock 1) d in
        get_by_id d.id
          (conclude redis run account_id sending
            (accepted result)
            (record w { db = Deliveries.update sending w.db })).1.db
        ≡ ok (some (mark_sent result.provider_document_id (run.clock 3) sending))
  unfolding conclude finish try_send
  accepted-stored account_id w found =
      let sending : DocumentDelivery = mark_sending (run.clock 1) d in
      let sent : DocumentDelivery = mark_sent result.provider_document_id (run.clock 3) sending in
      stored d sent w.db _ (
        Becomes-update d sending sent w.db _
          (Becomes-records d sending w.db (Deliveries.update sending w.db) (audit_of run sent) none
            (Becomes-update d d sending w.db w.db (Becomes-refl d w.db found) (search keeps_keys)))
          (try_send-SameKeys run sending (accepted result)))

  guarded-stored :
      (account : ProviderAccount) (provider : Provider) (file : List ℕ) (w : World Server)
      → get_by_id d.id w.db ≡ ok (some d)
      → Factory.create account.provider_type account.credentials_json ≡ ok provider
      → (guard redis run.settings account.id (run.clock 0) w.server).0 ≡ passed
      → run.send provider (mark_sending (run.clock 1) d) file ≡ accepted result
      → get_by_id d.id (guarded redis run account d file w).1.db
        ≡ ok (
            some
              (mark_sent result.provider_document_id (run.clock 3) (mark_sending (run.clock 1) d)))
  unfolding guarded after_guard dispatch call_provider
  guarded-stored account provider file w found made through takes =
      rw (through, after_guard)
        (rw (made, call_provider)
          (rw takes (
            accepted-stored account.id
              (record w { server = (guard redis run.settings account.id (run.clock 0) w.server).1 })
              found)))

-- A run sends its document whatever the status of the delivery is: also when a run of the same call has sent it
-- before, and when it was signed or rejected. If the file can be read, the account is active and its provider can
-- be made, the circuit lets the run through and the provider accepts the document, the stored delivery is then
-- SENT under the provider's new identifier, and `final_at` and `signed_at` stay as they were.
pub send_document-sends_again :
    (redis : Redis) (run : Run) (id : ℕ) (file hex : List ℕ) (d : DocumentDelivery)
    (account : ProviderAccount) (provider : Provider) (result : SendResult) (w : World redis.Server)
    → fromhex hex ≡ some file
    → get_by_id id w.db ≡ ok (some d)
    → Accounts.get_by_id d.provider_account_id w.db ≡ ok (some account)
    → account.is_active ≡ true
    → Factory.create account.provider_type account.credentials_json ≡ ok provider
    → (guard redis run.settings account.id (run.clock 0) w.server).0 ≡ passed
    → run.send provider (mark_sending (run.clock 1) d) file ≡ accepted result
    → (e : DocumentDelivery) × (get_by_id id
          (send_document redis run (record { delivery_id = some id; file_bytes_hex = hex }) w).1.db
        ≡ ok (some e))
      × (e.unified_status ≡ Status.sent)
      × (e.provider_document_id ≡ some result.provider_document_id)
      × (e.final_at ≡ d.final_at)
      × (e.signed_at ≡ d.signed_at)
unfolding send_document with_id with_file with_delivery with_account mark_sent mark_sending
send_document-sends_again redis run id file hex d account provider result w readable found owner
      active made through takes =
    let same : d.id ≡ id = get_by_id-id id w.db d found in
    let found' : get_by_id d.id w.db ≡ ok (some d) =
      subst (λ i. get_by_id i w.db ≡ ok (some d)) (sym same) found in
    (
      mark_sent result.provider_document_id (run.clock 3) (mark_sending (run.clock 1) d),
      rw (readable, with_file)
          (rw (found, with_delivery)
            (rw (owner, with_account)
              (simp active (
                subst
                  (λ i.
                    get_by_id i (guarded redis run account d file w).1.db
                    ≡ ok (
                        some (
                          mark_sent result.provider_document_id (run.clock 3)
                            (mark_sending (run.clock 1) d))))
                  same
                  (guarded-stored redis run d result account provider file w found' made through
                    takes))))),
      refl,
      refl,
      refl,
      refl,
    )
