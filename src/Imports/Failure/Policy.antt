-- ===== src/Imports/Failure/Policy.antt =====
-- Which failures are retried, and after how long.
use Prim.Native.String.{[], ◌∷◌}
use supply_chain_integration.Base.{ℕ, zero, suc, ◌-◌, ◌*◌, ◌^◌, min, String, Bool, true, false}
use supply_chain_integration.Domain.Errors.{
  Exn, operational_error, transient_import, timeout_error, connection_error, permanent_import,
}
use supply_chain_integration.Settings.{Settings}

-- `text[:n]`
unfoldable pub first_chars : ℕ → String → String
first_chars zero text = []
first_chars (suc n) [] = []
first_chars (suc n) (c ∷ text) = c ∷ first_chars n text

unfoldable pub classify_import_failure : Exn → Bool × String
classify_import_failure operational_error = (true, "transient_database_error")
classify_import_failure transient_import = (true, "transient_import_error")
classify_import_failure timeout_error = (true, "transient_timeout")
classify_import_failure connection_error = (true, "transient_connection_error")
classify_import_failure permanent_import = (false, "permanent_import_error")
classify_import_failure error = (false, "unexpected_import_error")

-- `max(attempt_count - 1, 0)` is the subtraction of ℕ.
unfoldable pub calculate_retry_delay : Settings → ℕ → ℕ
calculate_retry_delay settings attempt_count =
    min (settings.import_retry_base_seconds * 2 ^ (attempt_count - 1))
      settings.import_retry_max_seconds
