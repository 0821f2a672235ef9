-- ===== src/Core/Config.antt =====
-- src/core/config.py: the settings that retries, the circuit breaker and the tokens read.
-- Durations are microseconds, as `datetime` counts them.
use edo_adapter_enterprise.Shared.{ℕ}

pub record Settings : Type 0 where
  pub default_retry_max_attempts : ℕ
  pub default_retry_base : ℕ
  pub default_retry_max : ℕ
  pub circuit_failure_threshold : ℕ
  pub circuit_recovery_timeout : ℕ
  pub circuit_half_open_max_calls : ℕ
  pub access_token_ttl : ℕ
  pub refresh_token_ttl : ℕ

-- `Settings()` with nothing in the environment.
unfoldable pub defaults : Settings
defaults = record {
  default_retry_max_attempts = 5;
  default_retry_base = 10_000_000;
  default_retry_max = 900_000_000;
  circuit_failure_threshold = 5;
  circuit_recovery_timeout = 60_000_000;
  circuit_half_open_max_calls = 2;
  access_token_ttl = 1_800_000_000;
  refresh_token_ttl = 1_209_600_000_000;
}
