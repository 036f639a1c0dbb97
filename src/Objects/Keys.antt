-- ===== src/Objects/Keys.antt =====
-- `build_raw_object_key` of application/integration_services.py. The text of a date, `isoformat`
-- of the standard library, is a parameter.
use Prim.Native.String.{◌++◌}
use text.Mathlib.TextLemmas.{append_cancel_left, append_cancel_right}
use supply_chain_integration.Base.{String, ◌≡◌, Option, or_else}
use supply_chain_integration.Domain.Enums.{ImportSourceType, source_type_value}
use supply_chain_integration.Store.Rows.{Time}

abbrev extension : ImportSourceType → String
extension ImportSourceType.supplier_a_json = "json"
extension ImportSourceType.supplier_b_csv = "csv"

module _ (isoformat : Time → String) where
  -- `now` is `datetime.now(UTC)`, the default of `observed_at`.
  unfoldable pub build_raw_object_key : ImportSourceType → String → Option Time → Time → String
  build_raw_object_key source_type content_sha256 observed_at now =
      "raw/inventory/"
      ++ ("source="
          ++ (source_type_value source_type
              ++ ("/ingest_date="
                  ++ (isoformat (or_else observed_at now)
                      ++ ("/" ++ (content_sha256 ++ ("." ++ extension source_type)))))))

  -- Two payloads of one source type whose dates have the same text have the same key only if their
  -- checksums are equal.
  pub build_raw_object_key-injective :
      (source_type : ImportSourceType) (sha₁ sha₂ : String) (at₁ at₂ : Option Time)
      (now₁ now₂ : Time)
      → isoformat (or_else at₁ now₁) ≡ isoformat (or_else at₂ now₂)
      → build_raw_object_key source_type sha₁ at₁ now₁
        ≡ build_raw_object_key source_type sha₂ at₂ now₂
      → sha₁ ≡ sha₂
  unfolding build_raw_object_key
  build_raw_object_key-injective st a b at₁ at₂ now₁ now₂ day h =
      append_cancel_right a b ("." ++ extension st) (
        append_cancel_left "/" _ _ (
          append_cancel_left (isoformat (or_else at₂ now₂)) _ _ (
            append_cancel_left "/ingest_date=" _ _ (
              append_cancel_left (source_type_value st) _ _ (
                append_cancel_left "source=" _ _
                  (append_cancel_left "raw/inventory/" _ _ (rw day at h)))))))
