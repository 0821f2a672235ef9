-- ===== src/Reliability/Backoff.antt =====
-- src/infrastructure/reliability/retry_backoff.py: the exponential backoff with full jitter.
pub mod Delay
use edo_adapter_enterprise.Shared.{
  ℕ, ◌+◌, ◌*◌, ◌^◌, min, String, Bool, true, false, ◌||◌, ◌&&◌, leb, Option, none, some, ltb,
  starts_with, if◌then◌else◌, List, [], ◌∷◌,
}
use edo_adapter_enterprise.Core.Config.{Settings}

-- `min(base * (2 ** retry_count), max_s)`
unfoldable pub delay : Settings → ℕ → ℕ
delay s retry_count = min (s.default_retry_base * 2 ^ retry_count) s.default_retry_max

-- `datetime.max` in UTC, in microseconds since 1970.
abbrev pub datetime_max : ℕ
datetime_max = 253_402_300_799_999_999

-- `uniform` is what `random.uniform(0, ·)` draws. `none` is an `OverflowError`: the base is a float, and Python
-- refuses to convert `2 ** retry_count` to one from 2 ** 1024 on; and no `datetime` is after the year 9999 (a
-- delay too large for a `timedelta` is past it too).
unfoldable pub compute_next_retry : Settings → (ℕ → ℕ) → ℕ → ℕ → Option ℕ
compute_next_retry s uniform now retry_count =
    let next = now + uniform (delay s retry_count) in
    if ltb retry_count 1024 && leb next datetime_max then some next else none

unfoldable pub should_retry : Settings → ℕ → Bool
should_retry s retry_count = ltb retry_count s.default_retry_max_attempts

abbrev transient_prefixes : List String
transient_prefixes = "PROVIDER_TRANSIENT_ERROR" ∷ "PROVIDER_RATE_LIMIT" ∷ "CIRCUIT_OPEN" ∷ []

unfoldable any_prefix : String → List String → Bool
any_prefix code [] = false
any_prefix code (p ∷ ps) = starts_with code p || any_prefix code ps

unfoldable pub is_transient : String → Bool
unfolding any_prefix
is_transient error_code = any_prefix error_code transient_prefixes
