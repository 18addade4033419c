-- ===== src/Config.antt =====
-- env/app/config.py: the settings that the modelled code reads. Durations are in the unit of times.
use ccj.Prelude.{ℕ}

pub record Settings : Type 0 where
  pub claim_lease_seconds : ℕ
  pub retry_backoff_base_seconds : ℕ
  pub retry_backoff_max_seconds : ℕ
  pub failure_threshold : ℕ
  pub quarantine_seconds : ℕ
  pub max_delivery_attempts : ℕ
  pub max_requeue_cycles : ℕ
  pub receipt_timeout_seconds : ℕ
  pub confirm_timeout_seconds : ℕ
