-- ===== src/Reliability/Circuit.antt =====
-- src/infrastructure/reliability/circuit_breaker.py: the circuit breaker of a provider account, whose
-- state is the Redis hash `circuit:<account>`. Redis itself is a parameter.
pub mod Hash
pub mod Transitions
pub mod Isolation
pub mod Workers
use edo_adapter_enterprise.Shared.{
  ℕ, suc, ◌+◌, Bool, true, false, Option, none, some, ◌≡◌, leb, ◌==◌, if◌then◌else◌,
}
use edo_adapter_enterprise.Core.Config.{Settings}
use edo_adapter_enterprise.Domain.CircuitState.{CircuitState, closed, opened, half_open}

-- The fields that the code keeps in a hash; `none` is a field that the hash does not have.
pub record CircuitHash : Type 0 where
  pub state : Option CircuitState
  pub opened_at : Option ℕ
  pub failures : Option ℕ
  pub half_open_successes : Option ℕ

-- The commands HSET that the code sends.
pub data Field : Type 0 where
  set_state : CircuitState → Field
  set_opened_at set_failures set_half_open_successes : ℕ → Field

-- What HSET does to a hash.
abbrev pub set_field : Field → CircuitHash → CircuitHash
set_field (set_state c) h = record h { state = some c }
set_field (set_opened_at t) h = record h { opened_at = some t }
set_field (set_failures n) h = record h { failures = some n }
set_field (set_half_open_successes n) h = record h { half_open_successes = some n }

-- What the code relies on in Redis: HGETALL reads one hash, and HSET sets one field of one hash.
pub record Redis : Type 1 where
  pub Server : Type 0
  pub hgetall : Server → ℕ → CircuitHash
  pub hset : ℕ → Field → Server → Server
  pub hgetall-hset :
      (r : Server) (k j : ℕ) (f : Field)
      → hgetall (hset k f r) j ≡ (if k == j then set_field f (hgetall r j) else hgetall r j)

-- `int(... or 0)`
abbrev pub or_zero : Option ℕ → ℕ
or_zero none = 0
or_zero (some n) = n

-- `data.get(b"state", b"CLOSED")`; an empty hash is closed too.
abbrev pub or_closed : Option CircuitState → CircuitState
or_closed none = closed
or_closed (some c) = c

-- What `guard` does: it returns, or raises `CircuitOpenError`.
pub data Guard : Type 0 where
  passed circuit_open : Guard

unfoldable pub guard_in : CircuitState → Guard
guard_in opened = circuit_open
guard_in _ = passed

module _ (redis : Redis) (s : Settings) where
  open redis use {Server, hgetall, hset}

  -- `_transition`; `now` is what `time.time()` returned.
  unfoldable transition : ℕ → CircuitState → ℕ → Server → Server
  transition account closed now r =
      hset account (set_half_open_successes 0)
        (hset account (set_failures 0) (hset account (set_state closed) r))
  transition account opened now r =
      hset account (set_failures 0)
        (hset account (set_opened_at now) (hset account (set_state opened) r))
  transition account half_open now r = hset account (set_state half_open) r

  unfoldable pub state_of : ℕ → CircuitState → ℕ → Server → CircuitState × Server
  unfolding transition
  state_of account opened now r =
      if leb (or_zero (hgetall r account).opened_at + s.circuit_recovery_timeout) now
      then (half_open, transition account half_open now r)
      else (opened, r)
  state_of account c now r = (c, r)

  unfoldable pub get_state : ℕ → ℕ → Server → CircuitState × Server
  unfolding state_of
  get_state account now r = state_of account (or_closed (hgetall r account).state) now r

  -- The branches of `record_success`, on the state that `get_state` returned.
  unfoldable pub succeed_in : ℕ → CircuitState → ℕ → Server → Server
  unfolding transition
  succeed_in account half_open now r =
      let count = or_zero (hgetall r account).half_open_successes + 1 in
      let counted = hset account (set_half_open_successes count) r in
      if leb s.circuit_half_open_max_calls count
      then transition account closed now counted
      else counted
  succeed_in account closed now r = hset account (set_failures 0) r
  succeed_in account opened now r = r

  unfoldable pub record_success : ℕ → ℕ → Server → Server
  record_success account now r =
      let (state, r') = get_state account now r in succeed_in account state now r'

  -- HINCRBY answers with the new count, and HSET follows in the same pipeline.
  unfoldable pub record_failure : ℕ → ℕ → Server → Server
  unfolding transition
  record_failure account now r =
      let failures = or_zero (hgetall r account).failures + 1 in
      let counted = hset account (set_state closed) (hset account (set_failures failures) r) in
      if leb s.circuit_failure_threshold failures
      then transition account opened now counted
      else counted

  unfoldable pub guard : ℕ → ℕ → Server → Guard × Server
  guard account now r = let (state, r') = get_state account now r in (guard_in state, r')
