-- ===== src/Types.antt =====
-- include/smartthings4cpp/types.h and the codes of include/smartthings4cpp/exceptions.h.
use smartthings4cpp.Base.{Bool, true, false, Option, none, some, Bytes, str, if◌then◌else◌, []}

pub data ErrorCode : Type 0 where
  success : ErrorCode
  network_error : ErrorCode
  authentication_required : ErrorCode
  authentication_failed : ErrorCode
  invalid_request : ErrorCode
  resource_not_found : ErrorCode
  invalid_parameter : ErrorCode
  conflict : ErrorCode
  rate_limited : ErrorCode
  api_error : ErrorCode
  timeout_error : ErrorCode
  unknown_error : ErrorCode

-- `error == ErrorCode::Success`
abbrev pub is_success : ErrorCode → Bool
is_success success = true
is_success _ = false

-- `Result<T>`
pub record Result {ℓ} (A : Type ℓ) : Type ℓ where
  pub value : Option A
  pub error : ErrorCode
  pub error_message : Bytes

-- `Result<void>`
pub record Outcome : Type 0 where
  pub error : ErrorCode
  pub error_message : Bytes

-- The constructors of `Result<T>`: with nothing, with a value, with a code.
abbrev pub no_result {ℓ} : {A : Type ℓ} → Result A
no_result = record { value = none; error = success; error_message = [] }

abbrev pub returned {ℓ} : {A : Type ℓ} → A → Result A
returned a = record { value = some a; error = success; error_message = [] }

abbrev pub failed {ℓ} : {A : Type ℓ} → ErrorCode → Bytes → Result A
failed code message = record { value = none; error = code; error_message = message }

-- The constructors of `Result<void>`.
abbrev pub done : Outcome
done = record { error = success; error_message = [] }

abbrev pub not_done : ErrorCode → Bytes → Outcome
not_done code message = record { error = code; error_message = message }

-- The value of a result that is a success and has one.
abbrev pub result_of {ℓ} : {A : Type ℓ} → Result A → Option A
result_of r = if is_success r.error then r.value else none

pub error_code_to_string : ErrorCode → Bytes
error_code_to_string success = str "Success"
error_code_to_string network_error = str "Network Error"
error_code_to_string authentication_required = str "Authentication Required"
error_code_to_string authentication_failed = str "Authentication Failed"
error_code_to_string invalid_request = str "Invalid Request"
error_code_to_string resource_not_found = str "Resource Not Found"
error_code_to_string invalid_parameter = str "Invalid Parameter"
error_code_to_string conflict = str "Conflict"
error_code_to_string rate_limited = str "Rate Limited"
error_code_to_string api_error = str "API Error"
error_code_to_string timeout_error = str "Timeout Error"
error_code_to_string unknown_error = str "Unknown Error"
