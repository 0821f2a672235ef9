-- ===== src/Tasks/SendDocument/Keys.antt =====
-- What a run never changes of a delivery: its keys.
use edo_adapter_enterprise.Shared.{ℕ, String, arith}
use edo_adapter_enterprise.Domain.Delivery.{
  DocumentDelivery, mark_sending, mark_failed, schedule_retry,
}
use edo_adapter_enterprise.Database.Deliveries.Storage.{SameKeys}
use edo_adapter_enterprise.Providers.Interface.{
  SendOutcome, accepted, transient, permanent, unexpected,
}
use edo_adapter_enterprise.Tasks.Sending.{Run, try_send}

-- The methods that a run calls keep the keys.
pub mark_sending-SameKeys : (t : ℕ) (d : DocumentDelivery) → SameKeys (mark_sending t d) d
unfolding mark_sending
mark_sending-SameKeys t d = ground arith

pub mark_failed-SameKeys :
    (c m : String) (t : ℕ) (d : DocumentDelivery) → SameKeys (mark_failed c m t d) d
unfolding mark_failed
mark_failed-SameKeys c m t d = ground arith

pub postponed-SameKeys :
    (c m : String) (t n u : ℕ) (d : DocumentDelivery)
    → SameKeys (schedule_retry n u (mark_failed c m t d)) d
unfolding mark_failed schedule_retry
postponed-SameKeys c m t n u d = ground arith

pub try_send-SameKeys :
    (run : Run) (d : DocumentDelivery) (o : SendOutcome) → SameKeys (try_send run d o).delivery d
unfolding try_send
try_send-SameKeys run d (accepted r) = ground arith
try_send-SameKeys run d (transient e) = ground arith
try_send-SameKeys run d (permanent e) = ground arith
try_send-SameKeys run d (unexpected m) = ground arith

-- The keys stay, for `search`.
pub ruleset keeps_keys =
    (mark_sending-SameKeys, mark_failed-SameKeys, postponed-SameKeys, try_send-SameKeys)
