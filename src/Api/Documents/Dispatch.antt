-- ===== src/Api/Documents/Dispatch.antt =====
-- From a request to the run of its task: the call is queued before the transaction of the request is
-- committed, so a worker may run it before or after.
use edo_adapter_enterprise.Shared.{
  ◌<◌, true, none, some, [], ◌∷◌, ◌++◌, ◌≡◌, refl, ==_refl, All, ◌∙◌,
}
use edo_adapter_enterprise.Shared.Results.{ok}
use edo_adapter_enterprise.Shared.Tables.{select_one}
use edo_adapter_enterprise.Domain.Delivery
use edo_adapter_enterprise.Domain.Delivery.{DocumentDelivery}
use edo_adapter_enterprise.Domain.Account.{ProviderAccount}
use edo_adapter_enterprise.Database.Deliveries
use edo_adapter_enterprise.Database.Deliveries.{get_by_id, has_id}
use edo_adapter_enterprise.Database.Deliveries.Storage.{get_by_id-save}
use edo_adapter_enterprise.Database.Accounts
use edo_adapter_enterprise.Database.Others.{get_by_internal_id, save_document}
use edo_adapter_enterprise.Reliability.Circuit.{Redis}
use edo_adapter_enterprise.Tasks.World.{World, SendCall}
use edo_adapter_enterprise.Tasks.SendDocument
use edo_adapter_enterprise.Tasks.Sending.{Run}
use edo_adapter_enterprise.Tasks.SendDocument.{send_document, with_id, with_file, with_delivery}
use edo_adapter_enterprise.Tasks.SendDocument.Hex.{hex, fromhex-hex}
use edo_adapter_enterprise.Api.Sessions.{CurrentUser, Answer, returned, Session, ended}
use edo_adapter_enterprise.Api.Documents.{
  SendDocumentRequest, UploadFile, Request, new_document, new_delivery, DeliveryResponse,
  delivery_response, accept, with_existing, send_document_endpoint,
}
use edo_adapter_enterprise.Api.Documents

module _ (request : Request) (user : CurrentUser) (body : SendDocumentRequest)
    (file : UploadFile) where
  endpoint-accept :
      (account : ProviderAccount) (s : Session)
      → get_by_internal_id user.tenant_id body.internal_document_id s.db ≡ none
      → Accounts.get_by_id body.provider_account_id s.db ≡ ok (some account)
      → account.tenant_id ≡ user.tenant_id
      → account.is_active ≡ true
      → send_document_endpoint request user body file s ≡ accept request user body file account s
  unfolding send_document_endpoint with_existing Documents.with_account
  endpoint-accept account s new found tenant active =
      rw new (rw found (rw tenant (rw (==_refl user.tenant_id) (rw active refl))))

  -- The call that the endpoint queues, and the delivery that it creates.
  abbrev pub call : SendCall
  call = record { delivery_id = some (request.fresh 1); file_bytes_hex = hex file.content }

  abbrev pub created : ProviderAccount → DocumentDelivery
  created account = new_delivery request user (new_document request user body file) account

  -- What the endpoint does to the world, from a request to the end of its transaction.
  abbrev pub requested : {S : Type 0} → World S → Answer DeliveryResponse × World S
  requested w =
      ended (send_document_endpoint request user body file (record { db = w.db; sent = [] })) w

  -- The task's first steps on the call: the file is read back, and the delivery is looked up.
  run_call :
      (redis : Redis) (run : Run) (w : World redis.Server)
      → All (λ b. b < 256) file.content
      → send_document redis run call w
        ≡ with_delivery redis run (get_by_id (request.fresh 1) w.db) file.content w
  unfolding send_document with_id with_file
  run_call redis run w bytes = rw (fromhex-hex file.content bytes) refl

  unstored :
      (redis : Redis) (run : Run) (w : World redis.Server)
      → select_one (has_id (request.fresh 1)) w.db.deliveries ≡ none
      → with_delivery redis run (get_by_id (request.fresh 1) w.db) file.content w
        ≡ (ok "not_found", w)
  unfolding with_delivery get_by_id
  unstored redis run w new = rw new refl

  stored :
      (account : ProviderAccount) {S : Type 0} (w : World S)
      → select_one (has_id (request.fresh 1)) w.db.deliveries ≡ none
      → get_by_id (request.fresh 1) (
          Deliveries.save
            (created account)
            (save_document (new_document request user body file) w.db))
        ≡ ok (some (created account))
  unfolding new_delivery Delivery.create save_document
  stored account w new =
      get_by_id-save (created account) (save_document (new_document request user body file) w.db)
        new

  -- A request for a new document, with an active account of the user's tenant, is accepted and queues one
  -- call for the delivery that it creates. If a worker runs the call after the request's commit, the task
  -- goes on with that delivery and the uploaded bytes; if it runs the call before, the task answers
  -- "not_found" and changes nothing, so that the delivery is stored with no call left for it.
  pub requested_dispatches :
      (redis : Redis) (run : Run) (account : ProviderAccount) (w : World redis.Server)
      → get_by_internal_id user.tenant_id body.internal_document_id w.db ≡ none
      → Accounts.get_by_id body.provider_account_id w.db ≡ ok (some account)
      → account.tenant_id ≡ user.tenant_id
      → account.is_active ≡ true
      → select_one (has_id (request.fresh 1)) w.db.deliveries ≡ none
      → All (λ b. b < 256) file.content
      → let (answer, w') = requested w in
        (answer ≡ returned (delivery_response (created account)))
        × (w'.queue ≡ w.queue ++ call ∷ [])
        × (get_by_id (request.fresh 1) w'.db ≡ ok (some (created account)))
        × (send_document redis run call w'
            ≡ SendDocument.with_account redis run
                (Accounts.get_by_id account.id w'.db)
                (created account)
                file.content
                w')
        × (send_document redis run call w ≡ (ok "not_found", w))
  unfolding accept ended new_delivery Delivery.create with_delivery SendDocument.with_account
  requested_dispatches redis run account w new found tenant active fresh bytes =
      rw (endpoint-accept account (record { db = w.db; sent = [] }) new found tenant active) (
        refl,
        refl,
        stored account w fresh,
        run_call redis run _ bytes ∙ rw (stored account w fresh) refl,
        run_call redis run w bytes ∙ unstored redis run w fresh,
      )
