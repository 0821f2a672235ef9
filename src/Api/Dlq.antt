-- ===== src/Api/Dlq.antt =====
-- src/presentation/api/v1/dlq.py: the endpoints of dead letters.
pub mod Isolation
use edo_adapter_enterprise.Shared.{
  ℕ, ◌+◌, String, Bool, true, false, not, ◌&&◌, Option, none, some, List, [], ◌∷◌, ◌++◌, map,
  str_eq, ◌==◌, if◌then◌else◌,
}
use edo_adapter_enterprise.Domain.DeadLetter.{DlqEntry, mark_replayed}
use edo_adapter_enterprise.Database.Others.{get_entry, list_entries_by_tenant, update_entry}
use edo_adapter_enterprise.Tasks.World.{SendCall}
use edo_adapter_enterprise.Api.Sessions.{
  CurrentUser, Answer, returned, http_exception, Session, require_admin,
}

pub record DlqEntryResponse : Type 0 where
  pub id : ℕ
  pub tenant_id : ℕ
  pub delivery_id : Option ℕ
  pub task_name : String
  pub reason_code : String
  pub reason_message : String
  pub retryable : Bool
  pub replayed_at : Option ℕ
  pub created_at : ℕ

-- `_to_response`
unfoldable to_response : DlqEntry → DlqEntryResponse
to_response e = record {
  id = e.id;
  tenant_id = e.tenant_id;
  delivery_id = e.delivery_id;
  task_name = e.task_name;
  reason_code = e.reason_code;
  reason_message = e.reason_message;
  retryable = e.retryable;
  replayed_at = e.replayed_at;
  created_at = e.created_at;
}

-- The call that a replay sends: a task `send_document` with a delivery is sent again, with an empty file.
abbrev call_for : Bool → Option ℕ → List SendCall
call_for sends none = []
call_for sends (some id) =
    if sends then record { delivery_id = some id; file_bytes_hex = [] } ∷ [] else []

unfoldable pub replay_calls : DlqEntry → List SendCall
replay_calls e = call_for (str_eq e.task_name "send_document") e.delivery_id

-- The steps that both endpoints take for an entry: the call, `mark_replayed` and the update.
unfoldable pub replay : ℕ → DlqEntry → Session → Session
replay now e s = record {
  db = update_entry (mark_replayed now e) s.db;
  sent = s.sent ++ replay_calls e;
}

module _ (user : CurrentUser) where
  unfoldable list_dlq : ℕ → ℕ → Session → Answer (List DlqEntryResponse) × Session
  list_dlq offset limit s =
      (returned (map to_response (list_entries_by_tenant user.tenant_id offset limit s.db)), s)

  abbrev pub own : Option DlqEntry → Option DlqEntry
  own none = none
  own (some e) = if not (e.tenant_id == user.tenant_id) then none else some e

  unfoldable answer_entry : Session → Option DlqEntry → Answer DlqEntryResponse × Session
  answer_entry s none = (http_exception 404 "DLQ entry not found", s)
  answer_entry s (some e) = (returned (to_response e), s)

  unfoldable get_dlq_entry : ℕ → Session → Answer DlqEntryResponse × Session
  get_dlq_entry entry_id s = answer_entry s (own (get_entry entry_id s.db))

  -- The response of a replay is the value of its key `status`.
  unfoldable pub replay_entry : ℕ → Bool → Session → Option DlqEntry → Answer String × Session
  replay_entry now force s none = (http_exception 404 "DLQ entry not found", s)
  replay_entry now force s (some e) =
      if not e.retryable && not force
      then (http_exception 422 "Entry is not retryable. Use force=true to override.", s)
      else (returned "replayed", replay now e s)

  unfoldable pub replay_dlq_entry : ℕ → ℕ → Bool → Session → Answer String × Session
  replay_dlq_entry now entry_id force s =
      require_admin user (replay_entry now force s (own (get_entry entry_id s.db))) s

  -- One turn of the loop of `replay_batch`, with the count and the clock reading of each replay.
  unfoldable pub replay_in_batch : (ℕ → ℕ) → Bool → ℕ → Session → Option DlqEntry → ℕ × Session
  replay_in_batch clock force n s none = (n, s)
  replay_in_batch clock force n s (some e) =
      if not e.retryable && not force then (n, s) else (n + 1, replay (clock n) e s)

  unfoldable pub replay_all : (ℕ → ℕ) → Bool → List ℕ → ℕ → Session → ℕ × Session
  replay_all clock force [] n s = (n, s)
  replay_all clock force (entry_id ∷ ids) n s =
      let (n', s') = replay_in_batch clock force n s (own (get_entry entry_id s.db)) in
      replay_all clock force ids n' s'

  unfoldable pub replay_batch : (ℕ → ℕ) → List ℕ → Bool → Session → Answer ℕ × Session
  replay_batch clock entry_ids force s =
      require_admin user (let (n, s') = replay_all clock force entry_ids 0 s in (returned n, s')) s
