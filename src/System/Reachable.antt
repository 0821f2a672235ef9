-- ===== src/System/Reachable.antt =====
-- Histories: requests and runs of tasks one after the other, in any order, a call also more than once, as a
-- queue with at-least-once delivery makes them.
use edo_adapter_enterprise.Shared.{
  ℕ, String, ◌≡◌, refl, Bool, false, Option, List, [], ◌∷◌, ◌++◌, filter, All, ◌==◌,
}
use edo_adapter_enterprise.Shared.Results.{Result, ok, err, ◌>>=◌}
use edo_adapter_enterprise.Shared.Tables.{order_by_desc}
use edo_adapter_enterprise.Shared.Comprehensions.{All-order_by_desc, All-imp}
use edo_adapter_enterprise.Shared.Selected.{
  All-filter_keep, filter-none, traverse-ok, read_one, drop-nil, take-nil,
}
use edo_adapter_enterprise.Domain.Json.{Json}
use edo_adapter_enterprise.Domain.Account.{ProviderAccount}
use edo_adapter_enterprise.Domain.Audit.{AuditEvent}
use edo_adapter_enterprise.Domain.Delivery.{DocumentDelivery}
use edo_adapter_enterprise.Database.Rows.{
  Database, DocumentDeliveryModel, delivery_to_entity, provider_to_entity,
}
use edo_adapter_enterprise.Database.Deliveries
use edo_adapter_enterprise.Database.Accounts
use edo_adapter_enterprise.Reliability.Circuit.{Redis}
use edo_adapter_enterprise.Tasks.World.{World, SendCall}
use edo_adapter_enterprise.Tasks.Sending.{Run}
use edo_adapter_enterprise.Tasks.SendDocument.{send_document}
use edo_adapter_enterprise.Tasks.ProcessDlq.{Processed, process_dlq, replay_entries}
use edo_adapter_enterprise.Api.Sessions.{CurrentUser, returned, Session, ended}
use edo_adapter_enterprise.Api.Documents.{
  Request, SendDocumentRequest, UploadFile, send_document_endpoint,
}
use edo_adapter_enterprise.Api.Documents.Retry.{retry_document}
use edo_adapter_enterprise.Api.Dlq.{replay_dlq_entry, replay_batch}
use edo_adapter_enterprise.Api.Accounts.{
  RegisterProviderAccountRequest, register_provider_account, activate_account, deactivate_account,
}
use edo_adapter_enterprise.Api.Audit.{document_audit_timeline, selects, page}
use edo_adapter_enterprise.System.Sound.{IsSound, DeliveryIsSound, EventIsSound}
use edo_adapter_enterprise.System.Runs.{send_document-IsSound, replay_entries-IsSound}
use edo_adapter_enterprise.System.Requests.{
  send_document_endpoint-Keeps, retry_document-Keeps, replay_dlq_entry-Keeps, replay_batch-Keeps,
  register_provider_account-Keeps, activate_account-Keeps, deactivate_account-Keeps, ended-IsSound,
}

-- What can happen: the requests that write, each by any user, and a run of a task.
pub data Event : Type 0 where
  sends : Request → CurrentUser → SendDocumentRequest → UploadFile → Event
  retries : ℕ → Bool → Event
  replays : CurrentUser → ℕ → ℕ → Bool → Event
  replays_batch : CurrentUser → (ℕ → ℕ) → List ℕ → Bool → Event
  registers : CurrentUser → ℕ → RegisterProviderAccountRequest → ℕ → Event
  activates : CurrentUser → ℕ → ℕ → Event
  deactivates : CurrentUser → ℕ → ℕ → Event
  runs_send : Run → SendCall → Event
  runs_dlq : (List String → ℕ → Result (Unit {0})) → (Json → List ℕ) → (SendCall → Bool) → ℕ → Event

module _ (redis : Redis) where
  open redis use {Server}

  -- The session that a request begins with.
  abbrev session_of : World Server → Session
  session_of w = record { db = w.db; sent = [] }

  -- A run of `process_dlq`: an exception ends the session before its commit.
  abbrev processed : Result Processed → World Server → World Server
  processed (err fault) w = w
  processed (ok p) w = record w {
    db = record w.db { dlq_entries = p.entries };
    queue = w.queue ++ p.calls;
  }

  unfoldable pub happens : Event → World Server → World Server
  happens (sends request user body file) w =
      (ended (send_document_endpoint request user body file (session_of w)) w).1
  happens (retries document_id force) w =
      (ended (retry_document document_id force (session_of w)) w).1
  happens (replays user now entry_id force) w =
      (ended (replay_dlq_entry user now entry_id force (session_of w)) w).1
  happens (replays_batch user clock ids force) w =
      (ended (replay_batch user clock ids force (session_of w)) w).1
  happens (registers user id body now) w =
      (ended (register_provider_account user id body now (session_of w)) w).1
  happens (activates user id now) w = (ended (activate_account user id now (session_of w)) w).1
  happens (deactivates user id now) w = (ended (deactivate_account user id now (session_of w)) w).1
  happens (runs_send run call) w = (send_document redis run call w).1
  happens (runs_dlq set_gauge str_json publish now) w =
      processed (process_dlq str_json publish now set_gauge w.db.dlq_entries) w

  unfoldable pub history : List Event → World Server → World Server
  history [] w = w
  history (e ∷ es) w = history es (happens e w)

  processed-IsSound :
      (str_json : Json → List ℕ) (publish : SendCall → Bool) (now : ℕ) (gauge : Result (Unit {0}))
      (w : World Server)
      → IsSound w.db
      → IsSound
          (processed
            (gauge >>= λ _. ok (replay_entries str_json publish now w.db.dlq_entries))
            w).db
  processed-IsSound str_json publish now (err fault) w v = v
  processed-IsSound str_json publish now (ok u) w v =
      replay_entries-IsSound str_json publish now w.db v

  happens-IsSound : (e : Event) (w : World Server) → IsSound w.db → IsSound (happens e w).db
  unfolding happens process_dlq
  happens-IsSound (sends request user body file) w v =
      ended-IsSound _ w (send_document_endpoint-Keeps request user body file (session_of w) v) v
  happens-IsSound (retries document_id force) w v =
      ended-IsSound _ w (retry_document-Keeps document_id force (session_of w) v) v
  happens-IsSound (replays user now entry_id force) w v =
      ended-IsSound _ w (replay_dlq_entry-Keeps user now entry_id force (session_of w) v) v
  happens-IsSound (replays_batch user clock ids force) w v =
      ended-IsSound _ w (replay_batch-Keeps user clock ids force (session_of w) v) v
  happens-IsSound (registers user id body now) w v =
      ended-IsSound _ w (register_provider_account-Keeps user id body now (session_of w) v) v
  happens-IsSound (activates user id now) w v =
      ended-IsSound _ w (activate_account-Keeps user id now (session_of w) v) v
  happens-IsSound (deactivates user id now) w v =
      ended-IsSound _ w (deactivate_account-Keeps user id now (session_of w) v) v
  happens-IsSound (runs_send run call) w v = send_document-IsSound redis run call w v
  happens-IsSound (runs_dlq set_gauge str_json publish now) w v =
      processed-IsSound str_json publish now _ w v

  -- Whatever requests and runs of tasks happen, in any order, from sound tables (such as empty ones): every
  -- row of a delivery is read back as a delivery whose stamps and errors agree with its status, every row of
  -- an account is read back, every dead letter is one of `send_document` and names a delivery, and every audit
  -- event is one of a delivery.
  pub history-IsSound :
      (es : List Event) (w : World Server) → IsSound w.db → IsSound (history es w).db
  unfolding history
  history-IsSound [] w v = v
  history-IsSound (e ∷ es) w v = history-IsSound es (happens e w) (happens-IsSound e w v)

IsRead : DocumentDeliveryModel → Type 0
IsRead m = (d : DocumentDelivery) × (delivery_to_entity m ≡ ok d)

deliveries-IsRead : (ms : List DocumentDeliveryModel) → All DeliveryIsSound ms → All IsRead ms
unfolding IsRead
deliveries-IsRead ms h = All-imp DeliveryIsSound IsRead (λ m v. (v.0, v.1)) ms h

module _ (redis : Redis) where
  open redis use {Server}

  -- So no stored text is ever refused: after any history, the deliveries of a document, a delivery and an
  -- account are read without an exception.
  pub history-reads :
      (es : List Event) (w : World Server) (document delivery account : ℕ)
      → IsSound w.db
      → let db = (history redis es w).db in
        ((ds : List DocumentDelivery) × (Deliveries.list_by_document document db ≡ ok ds))
        × ((d : Option DocumentDelivery) × (Deliveries.get_by_id delivery db ≡ ok d))
        × ((a : Option ProviderAccount) × (Accounts.get_by_id account db ≡ ok a))
  unfolding Deliveries.list_by_document Deliveries.get_by_id Accounts.get_by_id IsRead
  history-reads es w document delivery account v =
      let db : Database = (history redis es w).db in
      let sound = history-IsSound redis es w v in
      let of_document : DocumentDeliveryModel → Bool = λ m. m.document_id == document in
      let read = deliveries-IsRead db.deliveries sound.deliveries in
      (
        traverse-ok delivery_to_entity
            (order_by_desc (λ m. m.created_at) (filter of_document db.deliveries))
            (All-order_by_desc IsRead (λ m. m.created_at) (filter of_document db.deliveries)
              (All-filter_keep IsRead of_document db.deliveries read)),
        read_one delivery_to_entity (Deliveries.has_id delivery) db.deliveries read,
        read_one provider_to_entity (Accounts.has_id account) db.accounts sound.accounts,
      )

  -- The timeline of a document is always empty: after any history it has no event, for any user and any page.
  pub history-timeline :
      (es : List Event) (w : World Server) (user : CurrentUser) (document_id limit offset : ℕ)
      → IsSound w.db
      → (document_audit_timeline user document_id limit offset
          (session_of redis (history redis es w))).0
        ≡ returned (page limit offset [])
  unfolding document_audit_timeline
  history-timeline es w user document_id limit offset v =
      let db : Database = (history redis es w).db in
      let sound = history-IsSound redis es w v in
      let none_selected = filter-none (selects user "document" document_id) db.audit_events (
        All-imp EventIsSound (λ e. selects user "document" document_id e ≡ false) (λ e h. rw h refl)
          db.audit_events sound.events) in
      rw none_selected
        (rw (drop-nil {A = AuditEvent} offset) (rw (take-nil {A = AuditEvent} limit) refl))
