-- ===== src/Util/Status/Codes.antt =====
-- The table of error codes against the messages that a response has for a status.
use zls.Base.{◌≢◌, ◌≤◌, ◌<◌, refl, arith}
use zls.Base.Bytes.{codes}
use zls.Http.Response.{get_status_message}
use zls.Util.Status.{
  ErrorCode, code_value, get_http_status, ok_code, invalid_argument, invalid_range,
  invalid_part_number, invalid_part_order, entity_too_large, checksum_mismatch,
  missing_content_length, unauthorized, invalid_token, access_denied, signature_expired,
  no_such_bucket, no_such_key, no_such_upload, bucket_already_exists, idempotency_conflict,
  object_already_exists, internal_error, database_error, storage_error, service_unavailable,
}

-- A code of an error has a status between 400 and 599, for which a
-- response has a message of its own.
pub get_http_status-IsKnown :
    (c : ErrorCode)
    → c ≢ ok_code
    → (400 ≤ get_http_status c)
      × (get_http_status c < 600)
      × (get_status_message (get_http_status c) ≢ codes "Unknown")
unfolding get_http_status code_value get_status_message
get_http_status-IsKnown ok_code h = absurd (h refl)
get_http_status-IsKnown invalid_argument h = (omega arith, omega arith, λ e. absurd (cc e))
get_http_status-IsKnown invalid_range h = (omega arith, omega arith, λ e. absurd (cc e))
get_http_status-IsKnown invalid_part_number h = (omega arith, omega arith, λ e. absurd (cc e))
get_http_status-IsKnown invalid_part_order h = (omega arith, omega arith, λ e. absurd (cc e))
get_http_status-IsKnown entity_too_large h = (omega arith, omega arith, λ e. absurd (cc e))
get_http_status-IsKnown checksum_mismatch h = (omega arith, omega arith, λ e. absurd (cc e))
get_http_status-IsKnown missing_content_length h = (omega arith, omega arith, λ e. absurd (cc e))
get_http_status-IsKnown unauthorized h = (omega arith, omega arith, λ e. absurd (cc e))
get_http_status-IsKnown invalid_token h = (omega arith, omega arith, λ e. absurd (cc e))
get_http_status-IsKnown access_denied h = (omega arith, omega arith, λ e. absurd (cc e))
get_http_status-IsKnown signature_expired h = (omega arith, omega arith, λ e. absurd (cc e))
get_http_status-IsKnown no_such_bucket h = (omega arith, omega arith, λ e. absurd (cc e))
get_http_status-IsKnown no_such_key h = (omega arith, omega arith, λ e. absurd (cc e))
get_http_status-IsKnown no_such_upload h = (omega arith, omega arith, λ e. absurd (cc e))
get_http_status-IsKnown bucket_already_exists h = (omega arith, omega arith, λ e. absurd (cc e))
get_http_status-IsKnown idempotency_conflict h = (omega arith, omega arith, λ e. absurd (cc e))
get_http_status-IsKnown object_already_exists h = (omega arith, omega arith, λ e. absurd (cc e))
get_http_status-IsKnown internal_error h = (omega arith, omega arith, λ e. absurd (cc e))
get_http_status-IsKnown database_error h = (omega arith, omega arith, λ e. absurd (cc e))
get_http_status-IsKnown storage_error h = (omega arith, omega arith, λ e. absurd (cc e))
get_http_status-IsKnown service_unavailable h = (omega arith, omega arith, λ e. absurd (cc e))
