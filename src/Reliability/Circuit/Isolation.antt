-- ===== src/Reliability/Circuit/Isolation.antt =====
-- The breaker in Redis implements the machine of one hash, for its account alone.
use edo_adapter_enterprise.Shared.{
  ℕ, ◌+◌, Bool, false, ◌≡◌, refl, leb, ◌==◌, ==_refl, if◌then◌else◌, arith, Bool-cases, inl, inr,
  subst, ==_iff, ap, ◌∙◌,
}
use edo_adapter_enterprise.Core.Config.{Settings}
use edo_adapter_enterprise.Domain.CircuitState.{CircuitState, closed, opened, half_open}
use edo_adapter_enterprise.Reliability.Circuit.{
  CircuitHash, Redis, or_zero, or_closed, state_of, succeed_in, get_state, record_success,
  record_failure, guard, guard_in,
}
use edo_adapter_enterprise.Reliability.Circuit.Hash.{
  seen_from, noted_from, seen, noted, fail, succeed, succeed_from,
}

module _ (redis : Redis) (s : Settings) (account now : ℕ) where
  open redis use {Server, hgetall, hset, hgetall-hset}

  -- Where the account's hash becomes `h`, and every other stays.
  abbrev pub only : CircuitHash → Server → ℕ → CircuitHash
  only h r j = if account == j then h else hgetall r j

  abbrev late : Server → Bool
  late r = leb (or_zero (hgetall r account).opened_at + s.circuit_recovery_timeout) now

  abbrev failing : Server → Bool
  failing r = leb s.circuit_failure_threshold (or_zero (hgetall r account).failures + 1)

  abbrev enough : Server → Bool
  enough r = leb s.circuit_half_open_max_calls (or_zero (hgetall r account).half_open_successes + 1)

  -- An operation that makes the account's hash `h` and leaves the others.
  at_only :
      (h : CircuitHash) (r r' : Server) (j : ℕ)
      → hgetall r' account ≡ h
      → ((account == j) ≡ false → hgetall r' j ≡ hgetall r j)
      → hgetall r' j ≡ only h r j
  at_only h r r' j own other = elim (Bool-cases (account == j)) [
    | inl e ↦ rw e (subst (λ k. hgetall r' k ≡ h) ((==_iff account j).0 e) own)
    | inr e ↦ rw e (other e)
  ]

  pub record_failure_own :
      (r : Server)
      → hgetall (record_failure redis s account now r) account ≡ fail s now (hgetall r account)
  unfolding record_failure fail
  record_failure_own r = elim (Bool-cases (failing r)) [
    | inl e ↦ simp (e, hgetall-hset, ==_refl)
    | inr e ↦ simp (e, hgetall-hset, ==_refl)
  ]

  record_failure_other :
      (r : Server) (j : ℕ)
      → (account == j) ≡ false
      → hgetall (record_failure redis s account now r) j ≡ hgetall r j
  unfolding record_failure
  record_failure_other r j ne = elim (Bool-cases (failing r)) [
    | inl e ↦ simp (e, hgetall-hset, ne)
    | inr e ↦ simp (e, hgetall-hset, ne)
  ]

  -- Recording a failure changes the hash of its account as `fail` of the machine on one hash does, and leaves
  -- the hash of every other account as it was.
  pub record_failure-fail :
      (r : Server) (j : ℕ)
      → hgetall (record_failure redis s account now r) j ≡ only (fail s now (hgetall r account)) r j
  record_failure-fail r j =
      at_only (fail s now (hgetall r account)) r (record_failure redis s account now r) j
        (record_failure_own r) (record_failure_other r j)

  -- The same of `state_of`, for each state that the hash may hold.
  state_of-seen :
      (c : CircuitState) (r : Server)
      → (state_of redis s account c now r).0 ≡ seen_from c s now (hgetall r account)
  unfolding state_of
  state_of-seen opened r = ground arith
  state_of-seen _ r = refl

  state_of_own :
      (c : CircuitState) (r : Server)
      → hgetall (state_of redis s account c now r).1 account
        ≡ noted_from c s now (hgetall r account)
  unfolding state_of
  state_of_own opened r = elim (Bool-cases (late r)) [
    | inl e ↦ simp (e, hgetall-hset, ==_refl)
    | inr e ↦ simp e
  ]
  state_of_own _ r = refl

  state_of_other :
      (c : CircuitState) (r : Server) (j : ℕ)
      → (account == j) ≡ false
      → hgetall (state_of redis s account c now r).1 j ≡ hgetall r j
  unfolding state_of
  state_of_other opened r j ne = elim (Bool-cases (late r)) [
    | inl e ↦ simp (e, hgetall-hset, ne)
    | inr e ↦ simp e
  ]
  state_of_other _ r j ne = refl

  get_state_answer :
      (r : Server) → (get_state redis s account now r).0 ≡ seen s now (hgetall r account)
  unfolding get_state seen
  get_state_answer r = state_of-seen (or_closed (hgetall r account).state) r

  get_state_own :
      (r : Server)
      → hgetall (get_state redis s account now r).1 account ≡ noted s now (hgetall r account)
  unfolding get_state noted
  get_state_own r = state_of_own (or_closed (hgetall r account).state) r

  get_state_other :
      (r : Server) (j : ℕ)
      → (account == j) ≡ false
      → hgetall (get_state redis s account now r).1 j ≡ hgetall r j
  unfolding get_state
  get_state_other r j ne = state_of_other (or_closed (hgetall r account).state) r j ne

  succeed_in_own :
      (c : CircuitState) (r : Server)
      → hgetall (succeed_in redis s account c now r) account ≡ succeed_from c s (hgetall r account)
  unfolding succeed_in
  succeed_in_own closed r = simp (hgetall-hset, ==_refl)
  succeed_in_own opened r = refl
  succeed_in_own half_open r = elim (Bool-cases (enough r)) [
    | inl e ↦ simp (e, hgetall-hset, ==_refl)
    | inr e ↦ simp (e, hgetall-hset, ==_refl)
  ]

  succeed_in_other :
      (c : CircuitState) (r : Server) (j : ℕ)
      → (account == j) ≡ false
      → hgetall (succeed_in redis s account c now r) j ≡ hgetall r j
  unfolding succeed_in
  succeed_in_other closed r j ne = simp (hgetall-hset, ne)
  succeed_in_other opened r j ne = refl
  succeed_in_other half_open r j ne = elim (Bool-cases (enough r)) [
    | inl e ↦ simp (e, hgetall-hset, ne)
    | inr e ↦ simp (e, hgetall-hset, ne)
  ]

  -- Recording a success changes the hash of its account as `succeed` of the machine on one hash does, and leaves
  -- the hash of every other account as it was.
  record_success-succeed :
      (r : Server) (j : ℕ)
      → hgetall (record_success redis s account now r) j
        ≡ only (succeed s now (hgetall r account)) r j
  unfolding record_success succeed
  record_success-succeed r j =
      let state = (get_state redis s account now r).0 in
      let r' = (get_state redis s account now r).1 in
      at_only (succeed_from (seen s now (hgetall r account)) s (noted s now (hgetall r account))) r
        (record_success redis s account now r) j
        (rw (← get_state_answer r, ← get_state_own r) (succeed_in_own state r'))
        (λ ne. succeed_in_other state r' j ne ∙ get_state_other r j ne)

  -- The guard refuses exactly when the machine on one hash sees the circuit open (`seen`); it writes at most the
  -- passage to half-open (`noted`), to the account's own hash, and leaves every other.
  pub guard-seen :
      (r : Server) (j : ℕ)
      → ((guard redis s account now r).0 ≡ guard_in (seen s now (hgetall r account)))
        × (hgetall (guard redis s account now r).1 j ≡ only (noted s now (hgetall r account)) r j)
  unfolding guard
  guard-seen r j = (
    ap guard_in (get_state_answer r),
    at_only (noted s now (hgetall r account)) r (get_state redis s account now r).1 j
        (get_state_own r) (get_state_other r j),
  )

  pub record_success_own :
      (r : Server)
      → hgetall (record_success redis s account now r) account ≡ succeed s now (hgetall r account)
  record_success_own r = record_success-succeed r account ∙ rw (==_refl account)

  pub guard_own :
      (r : Server)
      → hgetall (guard redis s account now r).1 account ≡ noted s now (hgetall r account)
  guard_own r = (guard-seen r account).1 ∙ rw (==_refl account)
