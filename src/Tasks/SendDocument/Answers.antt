-- ===== src/Tasks/SendDocument/Answers.antt =====
-- What a run answers agrees with what it has stored.
use edo_adapter_enterprise.Shared.{
  ℕ, String, Option, none, some, List, ◌≡◌, refl, sym, ◌∙◌, ◌⊎◌, inl, inr, subst, ap, arith,
  Bool-cases, Option-cases,
}
use edo_adapter_enterprise.Shared.Results.{Result, ok, err, Fault}
use edo_adapter_enterprise.Domain.Status
use edo_adapter_enterprise.Domain.Status.{UnifiedDocumentStatus}
use edo_adapter_enterprise.Domain.Delivery.{
  DocumentDelivery, mark_sending, mark_failed, schedule_retry,
}
use edo_adapter_enterprise.Domain.Account.{ProviderAccount}
use edo_adapter_enterprise.Database.Rows.{Database}
use edo_adapter_enterprise.Database.Deliveries
use edo_adapter_enterprise.Database.Deliveries.{get_by_id}
use edo_adapter_enterprise.Database.Deliveries.Storage.{SameKeys, get_by_id-id}
use edo_adapter_enterprise.Database.Accounts
use edo_adapter_enterprise.Database.Others.{save_event}
use edo_adapter_enterprise.Providers.Interface.{
  SendOutcome, accepted, transient, permanent, unexpected,
}
use edo_adapter_enterprise.Providers.Factory
use edo_adapter_enterprise.Providers.Factory.{Provider}
use edo_adapter_enterprise.Reliability.Circuit.{Redis, Guard, passed, circuit_open, guard}
use edo_adapter_enterprise.Tasks.World.{World}
use edo_adapter_enterprise.Tasks.Sending.{Run, Tried, try_send, finish, audit_of, add_letter}
use edo_adapter_enterprise.Tasks.SendDocument.{
  conclude, call_provider, dispatch, postpone_until, postpone, after_guard, guarded, refuse_account,
  with_account, with_delivery, with_file, with_id, send_document,
}
use edo_adapter_enterprise.Tasks.SendDocument.Hex.{fromhex}
use edo_adapter_enterprise.Tasks.SendDocument.Keys.{keeps_keys}
use edo_adapter_enterprise.Tasks.SendDocument.Stored.{
  Becomes, Becomes-refl, Becomes-update, Becomes-records,
}

-- How a returned text names the stored status: by the status's value, or by one of the two early ends
-- of a run.
abbrev Reported : String → UnifiedDocumentStatus → Type 0
Reported s status =
    (s ≡ Status.value status)
    ⊎ ((s ≡ "circuit_open") × (status ≡ Status.pending))
    ⊎ ((s ≡ "failed") × (status ≡ Status.failed))

-- A run that raises has left the delivery as it was, or in the status SENDING.
abbrev Explained : Result String → DocumentDelivery → DocumentDelivery → Type 0
Explained (ok s) d e = Reported s e.unified_status
Explained (err f) d e = (e ≡ d) ⊎ (e.unified_status ≡ Status.sending)

pub record Ends {S : Type 0} (d : DocumentDelivery) (before : Database)
    (r : Result String × World S) : Type 0 where
  pub final : DocumentDelivery
  pub becomes : Becomes d final before r.1.db
  pub explained : Explained r.0 d final

-- The `try` statement goes on with an exception only where it has changed nothing.
try_send-raised :
    (run : Run) (d : DocumentDelivery) (o : SendOutcome) (f : Fault)
    → (try_send run d o).raised ≡ some f
    → (try_send run d o).delivery ≡ d
unfolding try_send
try_send-raised run d (accepted r) f h = cc
try_send-raised run d (transient e) f h = ground arith
try_send-raised run d (permanent e) f h = cc
try_send-raised run d (unexpected m) f h = cc

-- The end of a run, by the exception that `finally` lets through.
finish-Explained :
    (run : Run) (d sending : DocumentDelivery) (t : Tried) (db : Database)
    → sending.unified_status ≡ Status.sending
    → ((f : Fault) → t.raised ≡ some f → t.delivery ≡ sending)
    → Explained (finish run t db).0 d t.delivery
unfolding finish
finish-Explained run d sending t db st kept = elim (Option-cases t.raised) [
  | inl e ↦ rw e (inl refl)
  | inr (f, e) ↦ rw e (inr (ap (λ (x : DocumentDelivery). x.unified_status) (kept f e) ∙ st))
]

finish-Becomes :
    (run : Run) (d sending : DocumentDelivery) (t : Tried) (before db : Database)
    → Becomes d sending before db
    → SameKeys t.delivery sending
    → Becomes d t.delivery before (finish run t db).1
unfolding finish
finish-Becomes run d sending t before db b same =
    Becomes-update d sending t.delivery before
      (save_event (audit_of run t.delivery) (add_letter t.dead_letter db))
      (Becomes-records d sending before db (audit_of run t.delivery) t.dead_letter b) same

module _ (redis : Redis) (run : Run) (d : DocumentDelivery) where
  open redis use {Server}

  conclude-Ends :
      (account_id : ℕ) (sending : DocumentDelivery) (o : SendOutcome) (before : Database)
      (w : World Server)
      → sending.unified_status ≡ Status.sending
      → Becomes d sending before w.db
      → Ends d before (conclude redis run account_id sending o w)
  unfolding conclude
  conclude-Ends account_id sending o before w st b =
      let t : Tried = try_send run sending o in
      record {
        final = t.delivery;
        becomes = finish-Becomes run d sending t before w.db b (search keeps_keys);
        explained = finish-Explained run d sending t w.db st (try_send-raised run sending o);
      }

  call_provider-Ends :
      (r : Result Provider) (account_id : ℕ) (sending : DocumentDelivery) (file : List ℕ)
      (before : Database) (w : World Server)
      → sending.unified_status ≡ Status.sending
      → Becomes d sending before w.db
      → Ends d before (call_provider redis run r account_id sending file w)
  unfolding call_provider
  call_provider-Ends (err e) account_id sending file before w st b = record {
    final = sending;
    becomes = b;
    explained = inr st;
  }
  call_provider-Ends (ok provider) account_id sending file before w st b =
      conclude-Ends account_id sending (run.send provider sending file) before w st b

  postpone_until-Ends :
      (next : Option ℕ) (failed : DocumentDelivery) (w : World Server)
      → get_by_id d.id w.db ≡ ok (some d)
      → ((n u : ℕ) → SameKeys (schedule_retry n u failed) d)
      → Ends d w.db (postpone_until redis run next failed w)
  unfolding postpone_until
  postpone_until-Ends none failed w found same = record {
    final = d;
    becomes = Becomes-refl d w.db found;
    explained = inl refl;
  }
  postpone_until-Ends (some n) failed w found same = record {
    final = schedule_retry n (run.clock 3) failed;
    becomes =
        Becomes-update d d (schedule_retry n (run.clock 3) failed) w.db w.db
          (Becomes-refl d w.db found) (same n (run.clock 3));
    explained = inr (inl (refl, unfold schedule_retry in refl));
  }

  refuse_account-Ends :
      (w : World Server)
      → get_by_id d.id w.db ≡ ok (some d)
      → Ends d w.db (refuse_account redis run d w)
  unfolding refuse_account
  refuse_account-Ends w found =
      let failed : DocumentDelivery =
        mark_failed "PROVIDER_ACCOUNT_INACTIVE" "Provider account not active" (run.clock 0) d in
      record {
        final = failed;
        becomes =
            Becomes-update d d failed w.db w.db (Becomes-refl d w.db found) (search keeps_keys);
        explained = inr (inr (refl, unfold mark_failed in refl));
      }

  after_guard-Ends :
      (g : Guard) (account : ProviderAccount) (file : List ℕ) (w : World Server)
      → get_by_id d.id w.db ≡ ok (some d)
      → Ends d w.db (after_guard redis run g account d file w)
  unfolding after_guard postpone dispatch
  after_guard-Ends circuit_open account file w found =
      postpone_until-Ends _ _ w found (λ n u. search keeps_keys)
  after_guard-Ends passed account file w found =
      let sending : DocumentDelivery = mark_sending (run.clock 1) d in
      call_provider-Ends (Factory.create account.provider_type account.credentials_json) account.id
        sending file w.db (record w { db = Deliveries.update sending w.db })
        (unfold mark_sending in refl)
        (Becomes-update d d sending w.db w.db (Becomes-refl d w.db found) (search keeps_keys))

  with_account-Ends :
      (r : Result (Option ProviderAccount)) (file : List ℕ) (w : World Server)
      → get_by_id d.id w.db ≡ ok (some d)
      → Ends d w.db (with_account redis run r d file w)
  unfolding with_account guarded
  with_account-Ends (err e) file w found = record {
    final = d;
    becomes = Becomes-refl d w.db found;
    explained = inl refl;
  }
  with_account-Ends (ok none) file w found = refuse_account-Ends w found
  with_account-Ends (ok (some account)) file w found = elim (Bool-cases account.is_active) [
    | inl e ↦ simp e (
        after_guard-Ends (guard redis run.settings account.id (run.clock 0) w.server).0 account file
          (record w { server = (guard redis run.settings account.id (run.clock 0) w.server).1 })
          found)
    | inr e ↦ simp e (refuse_account-Ends w found)
  ]

-- A run for a delivery that exists, with a file that can be read, stores one delivery in its place. The
-- text that it returns is the value of the stored status, or "circuit_open" with the status PENDING, or
-- "failed" with the status FAILED; if it raises, the delivery is as it was or in the status SENDING. The
-- keys of the delivery, every other delivery, the accounts and the documents are as before.
pub send_document-Ends :
    (redis : Redis) (run : Run) (id : ℕ) (file hex : List ℕ) (d : DocumentDelivery)
    (w : World redis.Server)
    → fromhex hex ≡ some file
    → get_by_id id w.db ≡ ok (some d)
    → Ends d w.db
        (send_document redis run (record { delivery_id = some id; file_bytes_hex = hex }) w)
unfolding send_document with_id with_file with_delivery
send_document-Ends redis run id file hex d w readable found =
    let found' : get_by_id d.id w.db ≡ ok (some d) =
      subst (λ i. get_by_id i w.db ≡ ok (some d)) (sym (get_by_id-id id w.db d found)) found in
    rw (readable, with_file)
      (rw (found, with_delivery)
        (with_account-Ends redis run d (Accounts.get_by_id d.provider_account_id w.db) file w
          found'))
