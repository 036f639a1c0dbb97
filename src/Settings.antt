-- ===== src/Settings.antt =====
-- settings/config.py: the settings that the import services read, with the ranges that their
-- `Field` declarations enforce when the application starts.
use supply_chain_integration.Base.{ℕ, ◌≤◌}

pub record Settings : Type 0 where
  pub import_max_attempts : ℕ
  pub import_retry_base_seconds : ℕ
  pub import_retry_max_seconds : ℕ
  pub import_lease_seconds : ℕ
  pub import_redispatch_seconds : ℕ

pub record InRange (s : Settings) : Type 0 where
  pub attempts_low : 1 ≤ s.import_max_attempts
  pub attempts_high : s.import_max_attempts ≤ 10
  pub base_low : 1 ≤ s.import_retry_base_seconds
  pub base_high : s.import_retry_base_seconds ≤ 300
  pub max_low : 1 ≤ s.import_retry_max_seconds
  pub max_high : s.import_retry_max_seconds ≤ 3600
  pub lease_low : 30 ≤ s.import_lease_seconds
  pub lease_high : s.import_lease_seconds ≤ 3600
  pub redispatch_low : 10 ≤ s.import_redispatch_seconds
  pub redispatch_high : s.import_redispatch_seconds ≤ 3600

abbrev pub default_settings : Settings
default_settings = record {
  import_max_attempts = 3;
  import_retry_base_seconds = 2;
  import_retry_max_seconds = 60;
  import_lease_seconds = 300;
  import_redispatch_seconds = 60;
}
