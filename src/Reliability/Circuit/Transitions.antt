-- ===== src/Reliability/Circuit/Transitions.antt =====
-- The life of a circuit: it opens at the threshold, refuses until its timeout, and closes again.
use edo_adapter_enterprise.Shared.{
  ℕ, ◌+◌, ◌≤◌, ◌<◌, some, ◌≡◌, refl, ◌∙◌, arith, List, [], ◌∷◌, length, leb, ◌==◌, if◌then◌else◌,
  ap,
}
use edo_adapter_enterprise.Core.Config.{Settings}
use edo_adapter_enterprise.Domain.CircuitState.{closed, opened, half_open}
use edo_adapter_enterprise.Reliability.Circuit.{
  CircuitHash, Redis, or_zero, or_closed, passed, circuit_open, record_success, record_failure,
  guard, guard_in,
}
use edo_adapter_enterprise.Reliability.Circuit.Hash.{seen, noted, fail, succeed}
use edo_adapter_enterprise.Reliability.Circuit.Isolation.{
  record_failure_own, record_success_own, guard_own, guard-seen,
}

-- Failures and successes in a row, on one hash.
abbrev fail_all : Settings → List ℕ → CircuitHash → CircuitHash
fail_all s [] h = h
fail_all s (t ∷ ts) h = fail_all s ts (fail s t h)

abbrev succeed_all : Settings → List ℕ → CircuitHash → CircuitHash
succeed_all s [] h = h
succeed_all s (t ∷ ts) h = succeed_all s ts (succeed s t h)

fail_all-counts :
    (s : Settings) (ts : List ℕ) (h : CircuitHash)
    → or_closed h.state ≡ closed
    → or_zero h.failures + length ts < s.circuit_failure_threshold
    → (or_zero (fail_all s ts h).failures ≡ or_zero h.failures + length ts)
      × (or_closed (fail_all s ts h).state ≡ closed)
unfolding fail
fail_all-counts s [] h shut below = (omega arith, shut)
fail_all-counts s (t ∷ ts) h shut below =
    let rest = fail_all-counts s ts (fail s t h) (ground arith) (ground arith) in
    (ground (arith, rest.0), rest.1)

fail_at_threshold :
    (s : Settings) (t : ℕ) (h : CircuitHash)
    → s.circuit_failure_threshold ≤ or_zero h.failures + 1
    → ((fail s t h).state ≡ some opened)
      × ((fail s t h).opened_at ≡ some t)
      × ((fail s t h).failures ≡ some 0)
unfolding fail
fail_at_threshold s t h below = (ground arith, ground arith, ground arith)

succeed_once :
    (s : Settings) (t : ℕ) (h : CircuitHash)
    → h.state ≡ some half_open
    → or_zero h.half_open_successes + 1 < s.circuit_half_open_max_calls
    → ((succeed s t h).state ≡ some half_open)
      × (or_zero (succeed s t h).half_open_successes ≡ or_zero h.half_open_successes + 1)
unfolding succeed seen noted
succeed_once s t h half below = (ground arith, ground arith)

succeed_all-closes :
    (s : Settings) (ts : List ℕ) (h : CircuitHash)
    → h.state ≡ some half_open
    → or_zero h.half_open_successes < s.circuit_half_open_max_calls
    → or_zero h.half_open_successes + length ts ≤ s.circuit_half_open_max_calls
    → (succeed_all s ts h).state
      ≡ some (
          if or_zero h.half_open_successes + length ts == s.circuit_half_open_max_calls
          then closed
          else half_open)
unfolding succeed seen noted
succeed_all-closes s [] h half below fits = ground arith
succeed_all-closes s (t ∷ []) h half below fits = ground arith
succeed_all-closes s (t ∷ u ∷ ts) h half below fits =
    let (st, n) = succeed_once s t h half (omega arith) in
    succeed_all-closes s (u ∷ ts) (succeed s t h) st (omega (arith, n)) (omega (arith, n))
    ∙ ap (λ k. some (if k == s.circuit_half_open_max_calls then closed else half_open))
        (omega (arith, n))

opens_on_hash :
    (s : Settings) (ts : List ℕ) (t : ℕ) (h : CircuitHash)
    → or_closed h.state ≡ closed
    → or_zero h.failures ≡ 0
    → length ts + 1 ≡ s.circuit_failure_threshold
    → let before = fail_all s ts h in
      let after = fail s t before in
      (or_zero before.failures ≡ length ts)
      × (or_closed before.state ≡ closed)
      × (after.state ≡ some opened)
      × (after.opened_at ≡ some t)
      × (after.failures ≡ some 0)
opens_on_hash s ts t h shut_yet none_yet enough =
    let (count, shut) = fail_all-counts s ts h shut_yet (omega arith) in
    let (st, at, zeroed) = fail_at_threshold s t (fail_all s ts h) (omega (arith, count)) in
    (omega (arith, count), shut, st, at, zeroed)

module _ (redis : Redis) (s : Settings) (account : ℕ) where
  open redis use {Server, hgetall}

  -- Calls in a row, at the times given.
  unfoldable pub fail_each : List ℕ → Server → Server
  fail_each [] r = r
  fail_each (t ∷ ts) r = fail_each ts (record_failure redis s account t r)

  unfoldable pub succeed_each : List ℕ → Server → Server
  succeed_each [] r = r
  succeed_each (t ∷ ts) r = succeed_each ts (record_success redis s account t r)

  fail_each-all :
      (ts : List ℕ) (r : Server)
      → hgetall (fail_each ts r) account ≡ fail_all s ts (hgetall r account)
  unfolding fail_each
  fail_each-all [] r = refl
  fail_each-all (t ∷ ts) r =
      fail_each-all ts (record_failure redis s account t r)
      ∙ ap (fail_all s ts) (record_failure_own redis s account t r)

  succeed_each-all :
      (ts : List ℕ) (r : Server)
      → hgetall (succeed_each ts r) account ≡ succeed_all s ts (hgetall r account)
  unfolding succeed_each
  succeed_each-all [] r = refl
  succeed_each-all (t ∷ ts) r =
      succeed_each-all ts (record_success redis s account t r)
      ∙ ap (succeed_all s ts) (record_success_own redis s account t r)

  -- A closed circuit that counts no failure opens at exactly the threshold of failures in a row:
  -- before the last one it is closed, and its counter is the number of failures; the last one opens
  -- the circuit at its own time, and starts the count anew.
  pub opens_at_threshold :
      (ts : List ℕ) (t : ℕ) (r : Server)
      → or_closed (hgetall r account).state ≡ closed
      → or_zero (hgetall r account).failures ≡ 0
      → length ts + 1 ≡ s.circuit_failure_threshold
      → let before = hgetall (fail_each ts r) account in
        let after = hgetall (record_failure redis s account t (fail_each ts r)) account in
        (or_zero before.failures ≡ length ts)
        × (or_closed before.state ≡ closed)
        × (after.state ≡ some opened)
        × (after.opened_at ≡ some t)
        × (after.failures ≡ some 0)
  opens_at_threshold ts t r shut none_yet enough =
      rw (record_failure_own redis s account t (fail_each ts r))
        (rw (fail_each-all ts r) (opens_on_hash s ts t (hgetall r account) shut none_yet enough))

  -- An open circuit refuses calls until its timeout has passed; from then on it lets them through and
  -- is half-open.
  pub refuses_until_timeout :
      (opened_at now : ℕ) (r : Server)
      → (hgetall r account).state ≡ some opened
      → (hgetall r account).opened_at ≡ some opened_at
      → let late = leb (opened_at + s.circuit_recovery_timeout) now in
        let (answer, r') = guard redis s account now r in
        (answer ≡ (if late then passed else circuit_open))
        × ((hgetall r' account).state ≡ some (if late then half_open else opened))
  unfolding seen noted guard_in
  refuses_until_timeout opened_at now r st at =
      ground (arith, guard-seen redis s account now r account, guard_own redis s account now r)

  -- A half-open circuit that counts no success closes at exactly the number of successes in a row
  -- that the settings ask for (at least one), and is half-open before.
  pub closes_after_successes :
      (ts : List ℕ) (r : Server)
      → (hgetall r account).state ≡ some half_open
      → or_zero (hgetall r account).half_open_successes ≡ 0
      → 0 < s.circuit_half_open_max_calls
      → length ts ≤ s.circuit_half_open_max_calls
      → (hgetall (succeed_each ts r) account).state
        ≡ some (if length ts == s.circuit_half_open_max_calls then closed else half_open)
  closes_after_successes ts r st none_yet some_calls few =
      rw (succeed_each-all ts r)
        (ground (arith, succeed_all-closes s ts (hgetall r account) st (omega arith) (omega arith)))

  -- A failure that does not reach the threshold leaves the circuit closed, whatever its state was: a
  -- half-open circuit, and an open one too, is closed by it, and the next call passes.
  pub failure_closes :
      (t now : ℕ) (r : Server)
      → or_zero (hgetall r account).failures + 1 < s.circuit_failure_threshold
      → let r' = record_failure redis s account t r in
        ((hgetall r' account).state ≡ some closed) × ((guard redis s account now r').0 ≡ passed)
  unfolding fail seen guard_in
  failure_closes t now r below = ground (
    arith,
    record_failure_own redis s account t r,
    guard-seen redis s account now (record_failure redis s account t r) account,
  )
