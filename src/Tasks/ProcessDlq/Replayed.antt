-- ===== src/Tasks/ProcessDlq/Replayed.antt =====
-- What becomes of a dead letter of `send_document` when it is replayed.
use edo_adapter_enterprise.Shared.{ℕ, String, Bool, List, [], ◌≡◌, refl}
use edo_adapter_enterprise.Domain.Json.{Json}
use edo_adapter_enterprise.Domain.Delivery.{DocumentDelivery}
use edo_adapter_enterprise.Database.Deliveries.{get_by_id}
use edo_adapter_enterprise.Reliability.Circuit.{Redis}
use edo_adapter_enterprise.Tasks.World.{World}
use edo_adapter_enterprise.Tasks.Sending.{Run, write_dlq}
use edo_adapter_enterprise.Tasks.SendDocument.{send_document, with_id, with_file, with_delivery}
use edo_adapter_enterprise.Tasks.SendDocument.Hex.{fromhex}
use edo_adapter_enterprise.Tasks.ProcessDlq.{call_of}

-- The call that replays a dead letter of `send_document` names the letter's delivery, and its run goes on with
-- that delivery and an empty file: the letter does not hold the bytes.
replayed_letter :
    (redis : Redis) (run later : Run) (str_json : Json → List ℕ) (d : DocumentDelivery)
    (code message : String) (retryable : Bool) (w : World redis.Server)
    → send_document redis later (call_of str_json (write_dlq run d code message retryable)) w
      ≡ with_delivery redis later (get_by_id d.id w.db) [] w
unfolding send_document with_id with_file fromhex call_of write_dlq
replayed_letter redis run later str_json d code message retryable w = refl
