-- ===== src/Reliability/Circuit/Workers/Alone.antt =====
-- A worker whose commands no other worker's come between.
use edo_adapter_enterprise.Shared.{
  ℕ, zero, suc, ◌+◌, Bool, ◌≡◌, refl, some, leb, Bool-cases, inl, inr,
}
use edo_adapter_enterprise.Core.Config.{Settings}
use edo_adapter_enterprise.Domain.CircuitState.{CircuitState, closed, opened, half_open}
use edo_adapter_enterprise.Reliability.Circuit.{
  CircuitHash, Redis, guard, guard_in, record_success, record_failure, or_zero, or_closed,
}
use edo_adapter_enterprise.Reliability.Circuit.Isolation.{
  guard-seen, guard_own, record_success_own, record_failure_own,
}
use edo_adapter_enterprise.Reliability.Circuit.Hash.{
  seen, noted, fail, succeed, seen_from, noted_from, succeed_from,
}
use edo_adapter_enterprise.Reliability.Circuit.Workers.{
  Worker, guards, answered, succeeds, fails, finished, counts, guard_from, success_from, advance,
}

module _ (s : Settings) (now : ℕ) where
  -- So many commands of one worker, one after the other.
  unfoldable pub alone : ℕ → Worker × CircuitHash → Worker × CircuitHash
  alone zero x = x
  alone (suc n) x = alone n (advance s now x.0 x.1)

  alone-fails : (h : CircuitHash) → alone 2 (fails, h) ≡ (finished, fail s now h)
  unfolding alone advance fail
  alone-fails h = elim (Bool-cases (leb s.circuit_failure_threshold (or_zero h.failures + 1))) [
    | inl e ↦ rw e refl
    | inr e ↦ rw e refl
  ]

  abbrev is_late : CircuitHash → Bool
  is_late h = leb (or_zero h.opened_at + s.circuit_recovery_timeout) now

  guard_from-seen :
      (c : CircuitState) (h : CircuitHash)
      → alone 1 (guard_from s now c h, h)
        ≡ (answered (guard_in (seen_from c s now h)), noted_from c s now h)
  unfolding alone advance guard_in
  guard_from-seen closed h = refl
  guard_from-seen half_open h = refl
  guard_from-seen opened h = elim (Bool-cases (is_late h)) [ inl e ↦ rw e refl | inr e ↦ rw e refl ]

  alone-guards :
      (h : CircuitHash) → alone 2 (guards, h) ≡ (answered (guard_in (seen s now h)), noted s now h)
  unfolding alone advance seen noted
  alone-guards h = guard_from-seen (or_closed h.state) h

  alone-counts :
      (n : ℕ) (h : CircuitHash)
      → alone (suc (suc (suc n))) (counts, h) ≡ alone n (finished, succeed_from half_open s h)
  unfolding alone advance
  alone-counts n h =
      elim (Bool-cases (leb s.circuit_half_open_max_calls (or_zero h.half_open_successes + 1))) [
        | inl e ↦ rw e refl
        | inr e ↦ rw e refl
      ]

  success_from-succeed :
      (c : CircuitState) (h : CircuitHash)
      → alone 4 (success_from s now c h, h)
        ≡ (finished, succeed_from (seen_from c s now h) s (noted_from c s now h))
  unfolding alone advance
  success_from-succeed closed h = refl
  success_from-succeed half_open h = alone-counts 1 h
  success_from-succeed opened h = elim (Bool-cases (is_late h)) [
    | inl e ↦ rw e (alone-counts 0 (record h { state = some half_open }))
    | inr e ↦ rw e refl
  ]

  alone-succeeds : (h : CircuitHash) → alone 5 (succeeds, h) ≡ (finished, succeed s now h)
  unfolding alone advance succeed seen noted
  alone-succeeds h = success_from-succeed (or_closed h.state) h

-- A worker that no other interrupts does what the whole operation does: `guard` in two commands at most, with its
-- answer, `record_success` in five, and `record_failure` in two, each to the hash of its account.
pub workers-alone :
    (redis : Redis) (s : Settings) (account now : ℕ) (r : redis.Server)
    → let h = redis.hgetall r account in
      (alone s now 2 (guards, h) ≡ (
        answered (guard redis s account now r).0,
        redis.hgetall (guard redis s account now r).1 account,
      ))
      × (alone s now 5 (succeeds, h)
          ≡ (finished, redis.hgetall (record_success redis s account now r) account))
      × (alone s now 2 (fails, h)
          ≡ (finished, redis.hgetall (record_failure redis s account now r) account))
workers-alone redis s account now r =
    let h = redis.hgetall r account in
    (
      rw ((guard-seen redis s account now r account).0)
          (rw (guard_own redis s account now r) (alone-guards s now h)),
      rw (record_success_own redis s account now r) (alone-succeeds s now h),
      rw (record_failure_own redis s account now r) (alone-fails s now h),
    )
