-- ===== src/System/Requests.antt =====
-- Every request that writes keeps the tables sound, whatever it answers.
use edo_adapter_enterprise.Shared.{
  ℕ, Bool, true, false, not, ◌&&◌, Option, none, some, List, [], ◌∷◌, if◌then◌else◌, ◌==◌,
}
use edo_adapter_enterprise.Shared.Results.{Result, ok, err}
use edo_adapter_enterprise.Domain.Account
use edo_adapter_enterprise.Domain.Account.{ProviderAccount, activate, deactivate}
use edo_adapter_enterprise.Domain.Document.{EdoDocument}
use edo_adapter_enterprise.Domain.DeadLetter.{DlqEntry, mark_replayed}
use edo_adapter_enterprise.Domain.Delivery
use edo_adapter_enterprise.Domain.Delivery.{DocumentDelivery, is_final}
use edo_adapter_enterprise.Database.Deliveries
use edo_adapter_enterprise.Database.Accounts
use edo_adapter_enterprise.Database.Others.{save_document, get_entry}
use edo_adapter_enterprise.Tasks.World.{World}
use edo_adapter_enterprise.Api.Sessions.{
  CurrentUser, Answer, returned, http_exception, raised, Session, reading, require_admin, is_admin,
  ended,
}
use edo_adapter_enterprise.Api.Documents.{
  Request, SendDocumentRequest, UploadFile, new_document, new_delivery, accept, with_account,
  with_existing, send_document_endpoint,
}
use edo_adapter_enterprise.Api.Documents.Retry.{
  retry_one, retry_each, retry_failed, retry_document, reset, failed_of,
}
use edo_adapter_enterprise.Api.Dlq.{
  replay, replay_entry, replay_dlq_entry, replay_in_batch, replay_all, replay_batch, own,
}
use edo_adapter_enterprise.Api.Accounts.{
  RegisterProviderAccountRequest, registered, register_provider_account, activate_account,
  deactivate_account, for_own,
}
use edo_adapter_enterprise.System.Sound.{
  IsSound, update-IsSound, save-IsSound, save_document-IsSound, update_entry-IsSound,
  save_account-IsSound, update_account-IsSound,
}

abbrev pub Keeps {ℓ} : {A : Type ℓ} → A × Session → Type 0
Keeps r = IsSound r.1.db

either {ℓ} :
    {A : Type ℓ} (b : Bool) (x y : A × Session) → Keeps x → Keeps y → Keeps (if b then x else y)
either true x y h k = h
either false x y h k = k

choose : (b : Bool) (s t : Session) → IsSound s.db → IsSound t.db → IsSound (if b then s else t).db
choose true s t h k = h
choose false s t h k = k

reading-Keeps {ℓ κ} :
    {A : Type ℓ} {B : Type κ} (r : Result A) (s : Session) (next : A → Answer B × Session)
    → IsSound s.db
    → ((a : A) → Keeps (next a))
    → Keeps (reading r s next)
reading-Keeps (ok a) s next v h = h a
reading-Keeps (err f) s next v h = v

require_admin-Keeps {ℓ} :
    {A : Type ℓ} (user : CurrentUser) (r : Answer A × Session) (s : Session)
    → Keeps r
    → IsSound s.db
    → Keeps (require_admin user r s)
unfolding require_admin
require_admin-Keeps user r s h v =
    either (is_admin user) r (http_exception 403 "Admin role required", s) h v

module _ (request : Request) (user : CurrentUser) where
  accept-Keeps :
      (body : SendDocumentRequest) (file : UploadFile) (a : ProviderAccount) (s : Session)
      → IsSound s.db
      → Keeps (accept request user body file a s)
  unfolding accept
  accept-Keeps body file a s v =
      let document = new_document request user body file in
      save-IsSound (new_delivery request user document a) (save_document document s.db)
        (unfold new_delivery in unfold Delivery.create in tt)
        (save_document-IsSound document s.db v)

  with_account-Keeps :
      (body : SendDocumentRequest) (file : UploadFile) (s : Session) (a : Option ProviderAccount)
      → IsSound s.db
      → Keeps (with_account request user body file s a)
  unfolding with_account
  with_account-Keeps body file s none v = v
  with_account-Keeps body file s (some a) v =
      either (not (a.tenant_id == user.tenant_id))
        (http_exception 404 "Provider account not found", s) _ v
        (either (not a.is_active) (http_exception 422 "Provider account inactive", s) _ v
          (accept-Keeps body file a s v))

  with_existing-Keeps :
      (body : SendDocumentRequest) (file : UploadFile) (s : Session) (d : Option EdoDocument)
      → IsSound s.db
      → Keeps (with_existing request user body file s d)
  unfolding with_existing
  with_existing-Keeps body file s none v =
      reading-Keeps (Accounts.get_by_id body.provider_account_id s.db) s
        (with_account request user body file s) v (λ a. with_account-Keeps body file s a v)
  with_existing-Keeps body file s (some d) v = v

  pub send_document_endpoint-Keeps :
      (body : SendDocumentRequest) (file : UploadFile) (s : Session)
      → IsSound s.db
      → Keeps (send_document_endpoint request user body file s)
  unfolding send_document_endpoint
  send_document_endpoint-Keeps body file s v = with_existing-Keeps body file s _ v

retry_one-Keeps :
    (force : Bool) (d : DocumentDelivery) (s : Session)
    → IsSound s.db
    → IsSound (retry_one force d s).db
unfolding retry_one
retry_one-Keeps force d s v =
    choose (is_final d && not force) s _ v (update-IsSound (reset d) s.db tt v)

retry_each-Keeps :
    (force : Bool) (ds : List DocumentDelivery) (s : Session)
    → IsSound s.db
    → IsSound (retry_each force ds s).db
unfolding retry_each
retry_each-Keeps force [] s v = v
retry_each-Keeps force (d ∷ ds) s v =
    retry_each-Keeps force ds (retry_one force d s) (retry_one-Keeps force d s v)

retry_failed-Keeps :
    (force : Bool) (s : Session) (ds : List DocumentDelivery)
    → IsSound s.db
    → Keeps (retry_failed force s ds)
unfolding retry_failed
retry_failed-Keeps force s [] v = v
retry_failed-Keeps force s (d ∷ ds) v = retry_each-Keeps force (d ∷ ds) s v

pub retry_document-Keeps :
    (document_id : ℕ) (force : Bool) (s : Session)
    → IsSound s.db
    → Keeps (retry_document document_id force s)
unfolding retry_document
retry_document-Keeps document_id force s v =
    reading-Keeps (Deliveries.list_by_document document_id s.db) s
      (λ ds. retry_failed force s (failed_of ds)) v
      (λ ds. retry_failed-Keeps force s (failed_of ds) v)

module _ (user : CurrentUser) where
  replay-Keeps : (now : ℕ) (e : DlqEntry) (s : Session) → IsSound s.db → IsSound (replay now e s).db
  unfolding replay
  replay-Keeps now e s v = update_entry-IsSound (mark_replayed now e) s.db v

  replay_entry-Keeps :
      (now : ℕ) (force : Bool) (s : Session) (e : Option DlqEntry)
      → IsSound s.db
      → Keeps (replay_entry user now force s e)
  unfolding replay_entry
  replay_entry-Keeps now force s none v = v
  replay_entry-Keeps now force s (some e) v =
      either (not e.retryable && not force)
        (http_exception 422 "Entry is not retryable. Use force=true to override.", s) _ v
        (replay-Keeps now e s v)

  pub replay_dlq_entry-Keeps :
      (now entry_id : ℕ) (force : Bool) (s : Session)
      → IsSound s.db
      → Keeps (replay_dlq_entry user now entry_id force s)
  unfolding replay_dlq_entry
  replay_dlq_entry-Keeps now entry_id force s v =
      require_admin-Keeps user _ s
        (replay_entry-Keeps now force s (own user (get_entry entry_id s.db)) v) v

  replay_in_batch-Keeps :
      (clock : ℕ → ℕ) (force : Bool) (n : ℕ) (s : Session) (e : Option DlqEntry)
      → IsSound s.db
      → Keeps (replay_in_batch user clock force n s e)
  unfolding replay_in_batch
  replay_in_batch-Keeps clock force n s none v = v
  replay_in_batch-Keeps clock force n s (some e) v =
      either (not e.retryable && not force) (n, s) _ v (replay-Keeps (clock n) e s v)

  replay_all-Keeps :
      (clock : ℕ → ℕ) (force : Bool) (ids : List ℕ) (n : ℕ) (s : Session)
      → IsSound s.db
      → Keeps (replay_all user clock force ids n s)
  unfolding replay_all
  replay_all-Keeps clock force [] n s v = v
  replay_all-Keeps clock force (id ∷ ids) n s v =
      let e = own user (get_entry id s.db) in
      let (n', s') = replay_in_batch user clock force n s e in
      replay_all-Keeps clock force ids n' s' (replay_in_batch-Keeps clock force n s e v)

  pub replay_batch-Keeps :
      (clock : ℕ → ℕ) (ids : List ℕ) (force : Bool) (s : Session)
      → IsSound s.db
      → Keeps (replay_batch user clock ids force s)
  unfolding replay_batch
  replay_batch-Keeps clock ids force s v =
      require_admin-Keeps user _ s (replay_all-Keeps clock force ids 0 s v) v

  pub register_provider_account-Keeps :
      (id : ℕ) (body : RegisterProviderAccountRequest) (now : ℕ) (s : Session)
      → IsSound s.db
      → Keeps (register_provider_account user id body now s)
  unfolding register_provider_account registered
  register_provider_account-Keeps id body now s v =
      require_admin-Keeps user _ s
        (reading-Keeps (Account.of_value body.provider_type) s (registered user id body now s) v
          (λ type. save_account-IsSound _ s.db v))
        v

  for_own-Keeps :
      {A : Type 0} (s : Session) (next : ProviderAccount → Answer A × Session)
      → ((a : ProviderAccount) → Keeps (next a))
      → (a : Option ProviderAccount) → IsSound s.db
      → Keeps (for_own user s next a)
  for_own-Keeps s next h none v = v
  for_own-Keeps s next h (some a) v =
      either (not (a.tenant_id == user.tenant_id)) (http_exception 404 "Account not found", s)
        (next a) v (h a)

  pub activate_account-Keeps :
      (id now : ℕ) (s : Session) → IsSound s.db → Keeps (activate_account user id now s)
  unfolding activate_account
  activate_account-Keeps id now s v =
      require_admin-Keeps user _ s
        (reading-Keeps (Accounts.get_by_id id s.db) s _ v
          (λ a. for_own-Keeps s _ (λ a. update_account-IsSound (activate now a) s.db v) a v))
        v

  pub deactivate_account-Keeps :
      (id now : ℕ) (s : Session) → IsSound s.db → Keeps (deactivate_account user id now s)
  unfolding deactivate_account
  deactivate_account-Keeps id now s v =
      require_admin-Keeps user _ s
        (reading-Keeps (Accounts.get_by_id id s.db) s _ v
          (λ a. for_own-Keeps s _ (λ a. update_account-IsSound (deactivate now a) s.db v) a v))
        v

-- The end of a request: what it commits is sound, and so is what is there after a rollback.
pub ended-IsSound {ℓ} :
    {A : Type ℓ} {S : Type 0} (r : Answer A × Session) (w : World S)
    → Keeps r
    → IsSound w.db
    → IsSound (ended r w).1.db
unfolding ended
ended-IsSound (returned a, s) w h v = h
ended-IsSound (http_exception code detail, s) w h v = v
ended-IsSound (raised f, s) w h v = v
