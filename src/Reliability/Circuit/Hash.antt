-- ===== src/Reliability/Circuit/Hash.antt =====
-- The breaker as a machine on one hash: what each operation of circuit_breaker.py does to the hash of
-- its account, with Redis and the other accounts left out.
use edo_adapter_enterprise.Shared.{ℕ, ◌+◌, some, leb, if◌then◌else◌}
use edo_adapter_enterprise.Core.Config.{Settings}
use edo_adapter_enterprise.Domain.CircuitState.{CircuitState, closed, opened, half_open}
use edo_adapter_enterprise.Reliability.Circuit.{CircuitHash, or_zero, or_closed}

-- Whether the timeout of an open circuit has passed.
abbrev pub expired : Settings → ℕ → CircuitHash → CircuitState
expired s now h =
    if leb (or_zero h.opened_at + s.circuit_recovery_timeout) now then half_open else opened

-- The state that an operation sees: an open circuit is half-open once its timeout has passed.
abbrev pub seen_from : CircuitState → Settings → ℕ → CircuitHash → CircuitState
seen_from opened s now h = expired s now h
seen_from c s now h = c

unfoldable pub seen : Settings → ℕ → CircuitHash → CircuitState
seen s now h = seen_from (or_closed h.state) s now h

-- The hash after it was looked at: only the passage to half-open is written.
abbrev pub noted_from : CircuitState → Settings → ℕ → CircuitHash → CircuitHash
noted_from opened s now h =
    if leb (or_zero h.opened_at + s.circuit_recovery_timeout) now
    then record h { state = some half_open }
    else h
noted_from c s now h = h

unfoldable pub noted : Settings → ℕ → CircuitHash → CircuitHash
noted s now h = noted_from (or_closed h.state) s now h

unfoldable pub fail : Settings → ℕ → CircuitHash → CircuitHash
fail s now h =
    let failures = or_zero h.failures + 1 in
    if leb s.circuit_failure_threshold failures
    then record h { state = some opened; opened_at = some now; failures = some 0 }
    else record h { state = some closed; failures = some failures }

abbrev pub succeed_from : CircuitState → Settings → CircuitHash → CircuitHash
succeed_from closed s h = record h { failures = some 0 }
succeed_from opened s h = h
succeed_from half_open s h =
    let successes = or_zero h.half_open_successes + 1 in
    if leb s.circuit_half_open_max_calls successes
    then record h { state = some closed; failures = some 0; half_open_successes = some 0 }
    else record h { half_open_successes = some successes }

unfoldable pub succeed : Settings → ℕ → CircuitHash → CircuitHash
succeed s now h = succeed_from (seen s now h) s (noted s now h)
