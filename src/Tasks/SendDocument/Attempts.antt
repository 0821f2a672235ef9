-- ===== src/Tasks/SendDocument/Attempts.antt =====
-- The retry budget of a delivery whose provider keeps failing for the moment.
use edo_adapter_enterprise.Shared.{
  ◌+◌, ◌≤◌, ◌<◌, ltb, true, none, some, List, [], ◌∷◌, ◌≡◌, refl, arith, is_some, length, All,
}
use edo_adapter_enterprise.Core.Config.{Settings}
use edo_adapter_enterprise.Domain.Errors.{DomainError}
use edo_adapter_enterprise.Domain.Status
use edo_adapter_enterprise.Domain.Delivery.{DocumentDelivery, mark_sending, mark_failed}
use edo_adapter_enterprise.Domain.DeadLetter.{DlqEntry}
use edo_adapter_enterprise.Providers.Interface.{transient}
use edo_adapter_enterprise.Reliability.Backoff.{should_retry}
use edo_adapter_enterprise.Tasks.Sending.{
  Run, FitsCalendar, Tried, try_send, write_dlq, compute_next_retry-some,
}

-- One run that reaches the provider and ends in a transient error.
unfoldable pub attempt : Run × DomainError → DocumentDelivery → Tried
attempt (run, e) d = try_send run (mark_sending (run.clock 1) d) (transient e)

-- Such runs in a row.
unfoldable pub attempts : List (Run × DomainError) → DocumentDelivery → DocumentDelivery
attempts [] d = d
attempts (r ∷ rs) d = attempts rs (attempt r d).delivery

abbrev RunFitsCalendar : Run × DomainError → Type 0
RunFitsCalendar (run, e) = FitsCalendar run

abbrev SameSettings : Settings → Run × DomainError → Type 0
SameSettings s (run, e) = run.settings ≡ s

attempt_retried :
    (s : Settings) (r : Run × DomainError) (d : DocumentDelivery)
    → s.default_retry_max_attempts ≤ 1024
    → SameSettings s r
    → RunFitsCalendar r
    → d.retry_count < s.default_retry_max_attempts
    → let t = attempt r d in
      (t.delivery.retry_count ≡ d.retry_count + 1)
      × (t.delivery.unified_status ≡ Status.pending)
      × (is_some t.delivery.next_retry_at ≡ true)
      × (t.dead_letter ≡ none)
      × (t.raised ≡ none)
unfolding attempt try_send should_retry mark_sending
attempt_retried s (run, e) d small same dated below =
    let (next, found) = compute_next_retry-some run d.retry_count dated (omega arith) in
    let allowed : ltb d.retry_count run.settings.default_retry_max_attempts ≡ true = ground arith in
    rw (allowed, found) (refl, refl, refl, refl, refl)

attempt_exhausted :
    (s : Settings) (r : Run × DomainError) (d : DocumentDelivery)
    → SameSettings s r
    → s.default_retry_max_attempts ≤ d.retry_count
    → let t = attempt r d in
      (t.delivery.unified_status ≡ Status.failed)
      × (t.raised ≡ none)
      × ((l : DlqEntry) × (t.dead_letter ≡ some l) × (l.retryable ≡ true))
unfolding attempt try_send should_retry mark_sending write_dlq
attempt_exhausted s (run, e) d same above = (
  ground arith,
  ground arith,
  (
    write_dlq run (mark_failed e.code e.message (run.clock 3) (mark_sending (run.clock 1) d)) e.code
        e.message true,
    ground arith,
    refl,
  ),
)

-- A pending delivery whose provider answers with a transient error in every run is pending again, with one
-- retry counted, after each of those runs, as long as the settings allow attempts (at most 1024).
attempts_count :
    (s : Settings) (rs : List (Run × DomainError)) (d : DocumentDelivery)
    → s.default_retry_max_attempts ≤ 1024
    → All (SameSettings s) rs
    → All RunFitsCalendar rs
    → d.unified_status ≡ Status.pending
    → d.retry_count + length rs ≤ s.default_retry_max_attempts
    → ((attempts rs d).retry_count ≡ d.retry_count + length rs)
      × ((attempts rs d).unified_status ≡ Status.pending)
unfolding attempts
attempts_count s [] d small same dated waiting fits = (omega arith, waiting)
attempts_count s (r ∷ rs) d small same dated waiting fits =
    let (count, st, _, _, _) = attempt_retried s r d small same.0 dated.0 (omega arith) in
    let (total, pending) =
      attempts_count s rs (attempt r d).delivery small same.1 dated.1 st (omega (arith, count)) in
    (omega (arith, total, count), pending)

-- A pending delivery that was never retried and whose provider answers with a transient error in every run, all
-- with the same settings, is still pending after as many runs as the settings allow attempts (at most 1024),
-- and the next run gives it up: it is FAILED, and a retryable dead letter is written. (The random numbers are
-- between 0 and their bounds, and the longest delay does not lead past the last date of Python.)
pub retry_budget :
    (s : Settings) (rs : List (Run × DomainError)) (last : Run × DomainError) (d : DocumentDelivery)
    → s.default_retry_max_attempts ≤ 1024
    → All (SameSettings s) rs
    → All RunFitsCalendar rs
    → SameSettings s last
    → d.unified_status ≡ Status.pending
    → d.retry_count ≡ 0
    → length rs ≡ s.default_retry_max_attempts
    → let before = attempts rs d in
      let t = attempt last before in
      (before.unified_status ≡ Status.pending)
      × (t.delivery.unified_status ≡ Status.failed)
      × (t.raised ≡ none)
      × ((l : DlqEntry) × (t.dead_letter ≡ some l) × (l.retryable ≡ true))
retry_budget s rs last d small same dated same_last waiting zeroed all =
    let (count, pending) = attempts_count s rs d small same dated waiting (omega arith) in
    let (failed, quiet, letter) =
      attempt_exhausted s last (attempts rs d) same_last (omega (arith, count)) in
    (pending, failed, quiet, letter)
