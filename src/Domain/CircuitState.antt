-- ===== src/Domain/CircuitState.antt =====
-- src/domain/value_objects/delivery_status.py: the states of a circuit breaker and of a webhook's
-- signature. `opened` is the member OPEN.
use edo_adapter_enterprise.Shared.{String}

pub data CircuitState : Type 0 where
  closed opened half_open : CircuitState

abbrev pub value : CircuitState → String
value closed = "CLOSED"
value opened = "OPEN"
value half_open = "HALF_OPEN"

pub data WebhookSignatureStatus : Type 0 where
  valid invalid skipped : WebhookSignatureStatus
