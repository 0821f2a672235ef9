-- ===== src/System/Runs.antt =====
-- Every run of the tasks `send_document` and `process_dlq` keeps the tables sound.
use edo_adapter_enterprise.Shared.{
  ℕ, refl, String, Bool, true, false, not, Option, none, some, List, [], ◌∷◌, All, if◌then◌else◌,
  Bool-cases, inl, inr,
}
use edo_adapter_enterprise.Shared.Results.{Result, ok, err}
use edo_adapter_enterprise.Domain.Json.{Json}
use edo_adapter_enterprise.Domain.Account.{ProviderAccount}
use edo_adapter_enterprise.Domain.DeadLetter.{DlqEntry}
use edo_adapter_enterprise.Domain.Delivery.{
  DocumentDelivery, mark_sending, mark_sent, mark_failed, schedule_retry,
}
use edo_adapter_enterprise.Domain.Delivery.Lifecycle.{IsConsistent}
use edo_adapter_enterprise.Domain.Audit
use edo_adapter_enterprise.Database.Rows.{Database}
use edo_adapter_enterprise.Database.Deliveries
use edo_adapter_enterprise.Database.Others
use edo_adapter_enterprise.Providers.Interface.{
  SendOutcome, accepted, transient, permanent, unexpected,
}
use edo_adapter_enterprise.Providers.Factory
use edo_adapter_enterprise.Providers.Factory.{Provider}
use edo_adapter_enterprise.Reliability.Backoff.{should_retry, compute_next_retry}
use edo_adapter_enterprise.Reliability.Circuit.{Redis, Guard, passed, circuit_open, guard}
use edo_adapter_enterprise.Tasks.World.{World, SendCall}
use edo_adapter_enterprise.Tasks.Sending.{
  Run, Tried, try_send, retried, given_up, write_dlq, finish, audit_of, add_letter,
}
use edo_adapter_enterprise.Tasks.SendDocument.{
  conclude, call_provider, dispatch, postpone_until, postpone, after_guard, guarded, refuse_account,
  with_account, with_delivery, with_file, with_id, send_document,
}
use edo_adapter_enterprise.Tasks.SendDocument.Hex.{fromhex}
use edo_adapter_enterprise.Tasks.ProcessDlq.{replay_entries, call_of, is_waiting}
use edo_adapter_enterprise.System.Sound.{
  IsSound, LetterIsSound, update-IsSound, save_entry-IsSound, save_event-IsSound,
}

abbrev OptionalLetter : Option DlqEntry → Type 0
OptionalLetter none = Unit
OptionalLetter (some e) = LetterIsSound e

-- What the `try` statement leaves can be stored.
record Leaves (t : Tried) : Type 0 where
  delivery : IsConsistent t.delivery
  letter : OptionalLetter t.dead_letter

retried-Leaves :
    (run : Run) (d : DocumentDelivery) (next : Option ℕ)
    → IsConsistent d
    → Leaves (retried run d next)
unfolding schedule_retry
retried-Leaves run d none h = record { delivery = h; letter = tt }
retried-Leaves run d (some n) h = record { delivery = tt; letter = tt }

given_up-Leaves :
    (run : Run) (d : DocumentDelivery) (code message : String) (retryable : Bool)
    → Leaves (given_up run d code message retryable)
unfolding mark_failed write_dlq
given_up-Leaves run d code message retryable = record {
  delivery = (refl, refl, refl);
  letter = (refl, refl);
}

try_send-Leaves :
    (run : Run) (d : DocumentDelivery) (o : SendOutcome)
    → IsConsistent d
    → Leaves (try_send run d o)
unfolding try_send mark_sent
try_send-Leaves run d (accepted r) h = record { delivery = (refl, refl); letter = tt }
try_send-Leaves run d (transient e) h =
    elim (Bool-cases (should_retry run.settings d.retry_count)) [
      | inl more ↦ rw more (
          retried-Leaves run d
            (compute_next_retry run.settings run.uniform (run.clock 2) d.retry_count) h)
      | inr spent ↦ rw spent (given_up-Leaves run d e.code e.message true)
    ]
try_send-Leaves run d (permanent e) h = given_up-Leaves run d e.code e.message false
try_send-Leaves run d (unexpected message) h = given_up-Leaves run d "UNKNOWN_ERROR" message false

add_letter-IsSound :
    (l : Option DlqEntry) (db : Database)
    → OptionalLetter l
    → IsSound db
    → IsSound (add_letter l db)
add_letter-IsSound none db h v = v
add_letter-IsSound (some e) db h v = save_entry-IsSound e db h v

finish-IsSound :
    (run : Run) (t : Tried) (db : Database) → Leaves t → IsSound db → IsSound (finish run t db).1
unfolding finish
finish-IsSound run t db l v =
    update-IsSound t.delivery
      (Others.save_event (audit_of run t.delivery) (add_letter t.dead_letter db)) l.delivery
      (save_event-IsSound (audit_of run t.delivery) (add_letter t.dead_letter db)
        (unfold audit_of in unfold Audit.create in refl)
        (add_letter-IsSound t.dead_letter db l.letter v))

module _ (redis : Redis) (run : Run) where
  open redis use {Server}

  abbrev Keeps : Result String × World Server → Type 0
  Keeps r = IsSound r.1.db

  conclude-IsSound :
      (id : ℕ) (d : DocumentDelivery) (o : SendOutcome) (w : World Server)
      → IsConsistent d
      → IsSound w.db
      → Keeps (conclude redis run id d o w)
  unfolding conclude
  conclude-IsSound id d o w c v =
      finish-IsSound run (try_send run d o) w.db (try_send-Leaves run d o c) v

  call_provider-IsSound :
      (r : Result Provider) (id : ℕ) (d : DocumentDelivery) (file : List ℕ) (w : World Server)
      → IsConsistent d
      → IsSound w.db
      → Keeps (call_provider redis run r id d file w)
  unfolding call_provider
  call_provider-IsSound (err f) id d file w c v = v
  call_provider-IsSound (ok p) id d file w c v = conclude-IsSound id d (run.send p d file) w c v

  postpone_until-IsSound :
      (next : Option ℕ) (d : DocumentDelivery) (w : World Server)
      → IsSound w.db
      → Keeps (postpone_until redis run next d w)
  unfolding postpone_until
  postpone_until-IsSound none d w v = v
  postpone_until-IsSound (some n) d w v =
      update-IsSound (schedule_retry n (run.clock 3) d) w.db (unfold schedule_retry in tt) v

  after_guard-IsSound :
      (g : Guard) (a : ProviderAccount) (d : DocumentDelivery) (file : List ℕ) (w : World Server)
      → IsSound w.db
      → Keeps (after_guard redis run g a d file w)
  unfolding after_guard postpone dispatch
  after_guard-IsSound circuit_open a d file w v = postpone_until-IsSound _ _ w v
  after_guard-IsSound passed a d file w v =
      let sending = mark_sending (run.clock 1) d in
      let consistent : IsConsistent sending = unfold mark_sending in tt in
      call_provider-IsSound (Factory.create a.provider_type a.credentials_json) a.id sending file
        (record w { db = Deliveries.update sending w.db }) consistent
        (update-IsSound sending w.db consistent v)

  guarded-IsSound :
      (a : ProviderAccount) (d : DocumentDelivery) (file : List ℕ) (w : World Server)
      → IsSound w.db
      → Keeps (guarded redis run a d file w)
  unfolding guarded
  guarded-IsSound a d file w v =
      let (g, r) = guard redis run.settings a.id (run.clock 0) w.server in
      after_guard-IsSound g a d file (record w { server = r }) v

  refuse_account-IsSound :
      (d : DocumentDelivery) (w : World Server)
      → IsSound w.db
      → Keeps (refuse_account redis run d w)
  unfolding refuse_account
  refuse_account-IsSound d w v = update-IsSound _ w.db (unfold mark_failed in (refl, refl, refl)) v

  either :
      (b : Bool) (x y : Result String × World Server)
      → Keeps x
      → Keeps y
      → Keeps (if not b then x else y)
  either true x y h k = k
  either false x y h k = h

  with_account-IsSound :
      (r : Result (Option ProviderAccount)) (d : DocumentDelivery) (file : List ℕ)
      (w : World Server)
      → IsSound w.db
      → Keeps (with_account redis run r d file w)
  unfolding with_account
  with_account-IsSound (err f) d file w v = v
  with_account-IsSound (ok none) d file w v = refuse_account-IsSound d w v
  with_account-IsSound (ok (some a)) d file w v =
      either a.is_active (refuse_account redis run d w) (guarded redis run a d file w)
        (refuse_account-IsSound d w v) (guarded-IsSound a d file w v)

  with_delivery-IsSound :
      (r : Result (Option DocumentDelivery)) (file : List ℕ) (w : World Server)
      → IsSound w.db
      → Keeps (with_delivery redis run r file w)
  unfolding with_delivery
  with_delivery-IsSound (err f) file w v = v
  with_delivery-IsSound (ok none) file w v = v
  with_delivery-IsSound (ok (some d)) file w v = with_account-IsSound _ d file w v

  with_file-IsSound :
      (file : Option (List ℕ)) (id : ℕ) (w : World Server)
      → IsSound w.db
      → Keeps (with_file redis run file id w)
  unfolding with_file
  with_file-IsSound none id w v = v
  with_file-IsSound (some file) id w v = with_delivery-IsSound _ file w v

  with_id-IsSound :
      (id : Option ℕ) (file : List ℕ) (w : World Server)
      → IsSound w.db
      → Keeps (with_id redis run id file w)
  unfolding with_id
  with_id-IsSound none file w v = v
  with_id-IsSound (some id) file w v = with_file-IsSound (fromhex file) id w v

  pub send_document-IsSound :
      (call : SendCall) (w : World Server)
      → IsSound w.db
      → IsSound (send_document redis run call w).1.db
  unfolding send_document
  send_document-IsSound call w v = with_id-IsSound call.delivery_id call.file_bytes_hex w v

-- The task that replays dead letters sets no column but `replayed_at`.
module _ (str_json : Json → List ℕ) (publish : SendCall → Bool) (now : ℕ) where
  replay_entries-letters :
      (es : List DlqEntry)
      → All LetterIsSound es
      → All LetterIsSound (replay_entries str_json publish now es).entries
  unfolding replay_entries
  replay_entries-letters [] h = tt
  replay_entries-letters (e ∷ es) h = elim (Bool-cases (is_waiting e)) [
    | inl w ↦ elim (Bool-cases (publish (call_of str_json e))) [
      | inl p ↦ rw w (rw p (h.0, replay_entries-letters es h.1))
      | inr p ↦ rw w (rw p (h.0, replay_entries-letters es h.1))
    ]
    | inr w ↦ rw w (h.0, replay_entries-letters es h.1)
  ]

  pub replay_entries-IsSound :
      (db : Database)
      → IsSound db
      → IsSound
          (record db { dlq_entries = (replay_entries str_json publish now db.dlq_entries).entries })
  replay_entries-IsSound db v = record {
    deliveries = v.deliveries;
    accounts = v.accounts;
    letters = replay_entries-letters db.dlq_entries v.letters;
    events = v.events;
  }
