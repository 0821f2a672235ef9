-- ===== src/Examples/Reliability.antt =====
-- The backoff and the circuit breaker on concrete inputs.
use edo_adapter_enterprise.Reliability.Circuit.Workers.{advance}
use edo_adapter_enterprise.Shared.{
  ℕ, ◌+◌, ◌*◌, ◌^◌, ◌≤◌, ◌≡◌, refl, [], ◌∷◌, some, ◌==◌, if◌then◌else◌, arith,
}
use edo_adapter_enterprise.Core.Config.{defaults}
use edo_adapter_enterprise.Domain.CircuitState.{closed, opened, half_open}
use edo_adapter_enterprise.Reliability.Backoff.{compute_next_retry}
use edo_adapter_enterprise.Reliability.Backoff.Delay.{compute_next_retry_bounds}
use edo_adapter_enterprise.Reliability.Circuit.{
  CircuitHash, or_zero, or_closed, passed, circuit_open, record_failure, record_success, guard,
}
use edo_adapter_enterprise.Reliability.Circuit.Hash.{fail}
use edo_adapter_enterprise.Reliability.Circuit.Isolation.{only, record_failure-fail}
use edo_adapter_enterprise.Reliability.Circuit.Transitions.{
  fail_each, succeed_each, opens_at_threshold, refuses_until_timeout, closes_after_successes,
  failure_closes,
}
use edo_adapter_enterprise.Reliability.Circuit.Workers.{
  answered, guards, succeeds, fails, opens, finished, System, Reach, begins, moves, failure_begins,
  here, next,
}
use edo_adapter_enterprise.Reliability.Circuit.Workers.Alone.{alone, workers-alone}
use edo_adapter_enterprise.Reliability.Circuit.Workers.Interleaved.{IsHeld, workers-interleaved}
use edo_adapter_enterprise.Reliability.Circuit.Workers.Lost.{half_open_with, successes_lost}
use edo_adapter_enterprise.Examples.Fixtures.{memory, empty_hash, no_circuits, circuit_5_open}

-- The fifth failure of account 5 opens its circuit.
opens_at_threshold_example :
    let before = fail_each memory defaults 5 (10 ∷ 20 ∷ 30 ∷ 40 ∷ []) no_circuits in
    let after = record_failure memory defaults 5 50 before in
    (or_zero (before 5).failures ≡ 4)
    × (or_closed (before 5).state ≡ closed)
    × ((after 5).state ≡ some opened)
    × ((after 5).opened_at ≡ some 50)
    × ((after 5).failures ≡ some 0)
unfolding defaults
opens_at_threshold_example =
    opens_at_threshold memory defaults 5 (10 ∷ 20 ∷ 30 ∷ 40 ∷ []) 50 no_circuits refl refl refl

refuses_until_timeout_example :
    let answer = guard memory defaults 5 60_000_999 circuit_5_open in
    (answer.0 ≡ circuit_open) × ((answer.1 5).state ≡ some opened)
unfolding defaults
refuses_until_timeout_example =
    refuses_until_timeout memory defaults 5 1000 60_000_999 circuit_5_open refl refl

abbrev circuit_5_half_open : ℕ → CircuitHash
circuit_5_half_open k = if k == 5 then record empty_hash { state = some half_open } else empty_hash

closes_after_successes_example :
    (succeed_each memory defaults 5 (10 ∷ 20 ∷ []) circuit_5_half_open 5).state ≡ some closed
unfolding defaults
closes_after_successes_example =
    closes_after_successes memory defaults 5 (10 ∷ 20 ∷ []) circuit_5_half_open refl refl
      (omega arith) (omega arith)

failure_closes_example :
    let after = record_failure memory defaults 5 2000 circuit_5_open in
    ((after 5).state ≡ some closed) × ((guard memory defaults 5 2001 after).0 ≡ passed)
unfolding defaults
failure_closes_example = failure_closes memory defaults 5 2000 2001 circuit_5_open (omega arith)

record_failure-fail_example :
    record_failure memory defaults 5 2000 circuit_5_open 5
    ≡ only memory defaults 5 2000 (fail defaults 2000 (circuit_5_open 5)) circuit_5_open 5
record_failure-fail_example = record_failure-fail memory defaults 5 2000 circuit_5_open 5

compute_next_retry_bounds_example :
    (t : ℕ) × (compute_next_retry defaults (λ bound. bound) 2000 3 ≡ some t)
    × (2000 ≤ t)
    × (t ≤ 2000 + 10_000_000 * 2 ^ 3)
    × (t ≤ 2000 + 900_000_000)
unfolding defaults
compute_next_retry_bounds_example =
    compute_next_retry_bounds defaults (λ bound. bound) 2000 3 (λ bound. omega arith) (omega arith)
      (omega arith)

workers-alone_example :
    let h = circuit_5_half_open 5 in
    (alone defaults 2000 2 (guards, h) ≡ (
      answered (guard memory defaults 5 2000 circuit_5_half_open).0,
      (guard memory defaults 5 2000 circuit_5_half_open).1 5,
    ))
    × (alone defaults 2000 5 (succeeds, h)
        ≡ (finished, record_success memory defaults 5 2000 circuit_5_half_open 5))
    × (alone defaults 2000 2 (fails, h)
        ≡ (finished, record_failure memory defaults 5 2000 circuit_5_half_open 5))
workers-alone_example = workers-alone memory defaults 5 2000 circuit_5_half_open

abbrev one_failure : CircuitHash
one_failure = record empty_hash { state = some closed; failures = some 1 }

-- One worker records a failure and opens the circuit at 20, before another one begins.
workers-interleaved_example :
    IsHeld
      (record defaults { circuit_failure_threshold = 1 })
      (some 20)
      (record {
        workers = fails ∷ finished ∷ [];
        hash = record one_failure { state = some opened; opened_at = some 20; failures = some 0 };
      })
unfolding advance
workers-interleaved_example =
    workers-interleaved (record defaults { circuit_failure_threshold = 1 }) (fails ∷ finished ∷ [])
      (record one_failure { state = some opened; opened_at = some 20; failures = some 0 })
      (omega arith)
      (next
        (next
          (next (next here (begins fails [] empty_hash failure_begins))
            (moves [] [] fails empty_hash 10))
          (moves [] [] opens one_failure 20))
        (begins fails (finished ∷ [])
          (record one_failure { state = some opened; opened_at = some 20; failures = some 0 })
          failure_begins))

-- Of the two successes that the settings ask for, none is counted yet.
successes_lost_example :
    let before : System = record { workers = []; hash = half_open_with (some 20) (some 0) 0 } in
    Reach defaults before (record {
      workers = finished ∷ finished ∷ [];
      hash = record {
        state = some closed;
        opened_at = some 20;
        failures = some 0;
        half_open_successes = some 0;
      };
    })
    × Reach defaults before
        (record { workers = finished ∷ finished ∷ []; hash = half_open_with (some 20) (some 0) 1 })
unfolding defaults
successes_lost_example = successes_lost defaults 2000 (some 20) (some 0) 0 refl
