-- ===== src/Reliability/Circuit/Workers.antt =====
-- The breaker of one account with several workers at once: circuit_breaker.py command by command. Redis runs each
-- command, and each pipeline of commands, as a whole; between two of them the commands of other workers may come.
pub mod Alone
pub mod Interleaved
pub mod Lost
use edo_adapter_enterprise.Shared.{ℕ, ◌+◌, some, List, ◌∷◌, ◌++◌, leb, if◌then◌else◌}
use edo_adapter_enterprise.Core.Config.{Settings}
use edo_adapter_enterprise.Domain.CircuitState.{CircuitState, closed, opened, half_open}
use edo_adapter_enterprise.Reliability.Circuit.{
  CircuitHash, Guard, passed, circuit_open, guard_in, or_zero, or_closed,
}

-- Where a worker is, by the command that comes next: HGETALL of `guard`, its passage to half-open, its answer;
-- HGETALL of `record_success`, its passage to half-open, HGET and HSET of the successes, its passage to closed,
-- the reset of the failures; the pipeline of `record_failure` and its passage to open; no command.
pub data Worker : Type 0 where
  guards guard_half_opens : Worker
  answered : Guard → Worker
  succeeds success_half_opens counts : Worker
  writes : ℕ → Worker
  closes resets fails opens finished : Worker

module _ (s : Settings) (now : ℕ) where
  abbrev late : CircuitHash → Worker → Worker → Worker
  late h then_go else_go =
      if leb (or_zero h.opened_at + s.circuit_recovery_timeout) now then then_go else else_go

  -- After the HGETALL of `guard` and of `record_success`, by the state that was read.
  abbrev guard_from : CircuitState → CircuitHash → Worker
  guard_from opened h = late h guard_half_opens (answered circuit_open)
  guard_from c h = answered (guard_in c)

  abbrev success_from : CircuitState → CircuitHash → Worker
  success_from opened h = late h success_half_opens finished
  success_from half_open h = counts
  success_from closed h = resets

  -- The next command of a worker, at the time `now`.
  unfoldable pub advance : Worker → CircuitHash → Worker × CircuitHash
  advance guards h = (guard_from (or_closed h.state) h, h)
  advance guard_half_opens h = (answered passed, record h { state = some half_open })
  advance (answered g) h = (answered g, h)
  advance succeeds h = (success_from (or_closed h.state) h, h)
  advance success_half_opens h = (counts, record h { state = some half_open })
  advance counts h = (writes (or_zero h.half_open_successes + 1), h)
  advance (writes n) h = (
    if leb s.circuit_half_open_max_calls n then closes else finished,
    record h { half_open_successes = some n },
  )
  advance closes h =
      (finished, record h { state = some closed; failures = some 0; half_open_successes = some 0 })
  advance resets h = (finished, record h { failures = some 0 })
  advance fails h =
      let n = or_zero h.failures + 1 in
      (
        if leb s.circuit_failure_threshold n then opens else finished,
        record h { state = some closed; failures = some n },
      )
  advance opens h =
      (finished, record h { state = some opened; opened_at = some now; failures = some 0 })
  advance finished h = (finished, h)

-- The workers of an account, and its hash.
pub record System : Type 0 where
  pub workers : List Worker
  pub hash : CircuitHash

-- A call begins.
pub data Begins : Worker → Type 0 where
  guard_begins : Begins guards
  success_begins : Begins succeeds
  failure_begins : Begins fails

-- A step: a call begins, or any one of the workers sends its next command, at any time of the clock.
pub data Step (s : Settings) : System → System → Type 0 where
  begins :
      (w : Worker) (ws : List Worker) (h : CircuitHash)
      → Begins w
      → Step s (record { workers = ws; hash = h }) (record { workers = w ∷ ws; hash = h })
  moves :
      (before after : List Worker) (w : Worker) (h : CircuitHash) (now : ℕ)
      → Step s
          (record { workers = before ++ w ∷ after; hash = h })
          (record {
            workers = before ++ (advance s now w h).0 ∷ after;
            hash = (advance s now w h).1;
          })

pub data Reach (s : Settings) (x : System) : System → Type 0 where
  here : Reach s x x
  next : {y z : System} → Reach s x y → Step s y z → Reach s x z
