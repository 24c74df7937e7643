-- ===== src/Util/Status.antt =====
-- src/util/status.h: error codes with their HTTP statuses and names, `Status`, and `Result<T>`, a value
-- or a status.
pub mod Codes
use zls.Base.{ℕ, ◌/◌, ◌+◌, ◌*◌, Bool, true, false, ◌||◌, List, [], ◌∷◌, ◌++◌, if◌then◌else◌, ◌==◌}
use zls.Base.Bytes.{Bytes, codes}

pub data ErrorCode : Type 0 where
  ok_code invalid_argument invalid_range invalid_part_number invalid_part_order entity_too_large
        checksum_mismatch missing_content_length :
      ErrorCode
  unauthorized invalid_token : ErrorCode
  access_denied signature_expired : ErrorCode
  no_such_bucket no_such_key no_such_upload : ErrorCode
  bucket_already_exists idempotency_conflict object_already_exists : ErrorCode
  internal_error database_error storage_error : ErrorCode
  service_unavailable : ErrorCode

-- The enumerator's value.
unfoldable pub code_value : ErrorCode → ℕ
code_value ok_code = 0
code_value invalid_argument = 400001
code_value invalid_range = 400002
code_value invalid_part_number = 400003
code_value invalid_part_order = 400004
code_value entity_too_large = 400005
code_value checksum_mismatch = 400006
code_value missing_content_length = 400007
code_value unauthorized = 401001
code_value invalid_token = 401002
code_value access_denied = 403001
code_value signature_expired = 403002
code_value no_such_bucket = 404001
code_value no_such_key = 404002
code_value no_such_upload = 404003
code_value bucket_already_exists = 409001
code_value idempotency_conflict = 409002
code_value object_already_exists = 409003
code_value internal_error = 500001
code_value database_error = 500002
code_value storage_error = 500003
code_value service_unavailable = 503001

unfoldable pub get_http_status : ErrorCode → ℕ
get_http_status code = if code_value code == 0 then 200 else code_value code / 1000

unfoldable pub get_error_name : ErrorCode → Bytes
get_error_name ok_code = codes "OK"
get_error_name invalid_argument = codes "InvalidArgument"
get_error_name invalid_range = codes "InvalidRange"
get_error_name invalid_part_number = codes "InvalidPartNumber"
get_error_name invalid_part_order = codes "InvalidPartOrder"
get_error_name entity_too_large = codes "EntityTooLarge"
get_error_name checksum_mismatch = codes "ChecksumMismatch"
get_error_name missing_content_length = codes "MissingContentLength"
get_error_name unauthorized = codes "Unauthorized"
get_error_name invalid_token = codes "InvalidToken"
get_error_name access_denied = codes "AccessDenied"
get_error_name signature_expired = codes "SignatureExpired"
get_error_name no_such_bucket = codes "NoSuchBucket"
get_error_name no_such_key = codes "NoSuchKey"
get_error_name no_such_upload = codes "NoSuchUpload"
get_error_name bucket_already_exists = codes "BucketAlreadyExists"
get_error_name idempotency_conflict = codes "IdempotencyConflict"
get_error_name object_already_exists = codes "ObjectAlreadyExists"
get_error_name internal_error = codes "InternalError"
get_error_name database_error = codes "DatabaseError"
get_error_name storage_error = codes "StorageError"
get_error_name service_unavailable = codes "ServiceUnavailable"

pub record Status : Type 0 where
  pub code : ErrorCode
  pub message : Bytes

-- `Status::OK()`.
abbrev pub ok_status : Status
ok_status = record { code = ok_code; message = [] }

unfoldable pub is_ok : Status → Bool
is_ok s = code_value s.code == 0

unfoldable pub is_not_found : Status → Bool
is_not_found s =
    (code_value s.code == code_value no_such_key)
    || ((code_value s.code == code_value no_such_bucket)
        || (code_value s.code == code_value no_such_upload))

unfoldable pub http_status : Status → ℕ
http_status s = get_http_status s.code

unfoldable pub to_string : Status → Bytes
to_string s = if is_ok s then codes "OK" else get_error_name s.code ++ (codes ": " ++ s.message)

module _ {ℓ} where
  pub data Result (T : Type ℓ) : Type ℓ where
    value : T → Result T
    failed : Status → Result T

  unfoldable pub result_ok : {T : Type ℓ} → Result T → Bool
  result_ok (value x) = true
  result_ok (failed s) = false

  unfoldable pub result_status : {T : Type ℓ} → Result T → Status
  result_status (value x) = ok_status
  result_status (failed s) = s

  unfoldable pub result_code : {T : Type ℓ} → Result T → ErrorCode
  result_code (value x) = ok_code
  result_code (failed s) = s.code
