-- ===== src/Imports/Failure/Backoff.antt =====
-- The delays between the attempts of a job.
use supply_chain_integration.Base.{ℕ, zero, suc, ◌-◌, ◌*◌, ◌^◌, ◌≤◌, ◌≡◌, min, arith}
use supply_chain_integration.Settings.{Settings, InRange}
use supply_chain_integration.Imports.Failure.Policy.{calculate_retry_delay}

doubled : (a n : ℕ) → a * 2 ^ suc n ≡ 2 * (a * 2 ^ n)
doubled a n = grind arith

-- A base of at least one is not made smaller by a power of two.
product_positive : (a n : ℕ) → 1 ≤ a → 1 ≤ a * 2 ^ n
product_positive a zero h = ground arith
product_positive a (suc n) h = ground (arith, doubled a n, product_positive a n h)

-- With settings in their ranges the delay is at least one second and at most the configured
-- maximum, the first attempt waits for the base or the maximum, whichever is smaller, and each
-- later one twice as long as the one before, up to that maximum.
pub calculate_retry_delay_lem :
    (settings : Settings) (attempt_count : ℕ)
    → InRange settings
    → (1 ≤ calculate_retry_delay settings attempt_count)
      × (calculate_retry_delay settings attempt_count ≤ settings.import_retry_max_seconds)
      × (calculate_retry_delay settings 1
          ≡ min settings.import_retry_base_seconds settings.import_retry_max_seconds)
      × (calculate_retry_delay settings (suc (suc attempt_count))
          ≡ min
              (2 * calculate_retry_delay settings (suc attempt_count))
              settings.import_retry_max_seconds)
unfolding calculate_retry_delay
calculate_retry_delay_lem settings n range =
    let base = settings.import_retry_base_seconds in
    (
      ground (arith, range.max_low, product_positive base (n - 1) range.base_low),
      ground arith,
      ground arith,
      ground (arith, doubled base n, product_positive base n range.base_low),
    )
