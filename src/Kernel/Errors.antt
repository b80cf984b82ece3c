-- ===== src/Kernel/Errors.antt =====
-- src/app/shared_kernel/errors: the status codes and the error details; and how a Python call ends.
use api_template.Base.{ℕ, String, Option}

-- The exceptions that the modelled code raises, or lets through, by their classes.
pub data Exn : Type 0 where
  runtime_error value_error type_error key_error attribute_error index_error : Exn
  integrity_error multiple_results_found lookup_error validation_failed : Exn
  invalid_operation os_error : Exn

-- How a call ends: with a value, or by an exception.
pub data Outcome {ℓ} (A : Type ℓ) : Type ℓ where
  returned : A → Outcome A
  raised : Exn → Outcome A

pub data StatusCode : Type 0 where
  invalid_login_credentials invalid_token_provided access_token_required : StatusCode
  invalid_password invalid_otp otp_already_verified otp_expired invalid_token_type : StatusCode
  invalid_refresh_token access_denied unauthorized invalid_access_token : StatusCode
  otp_resend_cooldown : StatusCode
  unique_constraint duplicated required_value string_range_limit_exceeded : StatusCode
  regex_not_match invalid_type numeric_range_limit_exceeded list_invalid_range : StatusCode
  validation_error invalid_value : StatusCode
  required_filter invalid_filter_lookup unallowed_filter_lookup : StatusCode
  duplicated_filter_field : StatusCode
  file_size_limit_exceeded file_not_found_in_fs unsupported_file_format : StatusCode
  invalid_file_format : StatusCode
  object_not_found request_body_is_empty not_enough_stock invalid_input not_found : StatusCode
  resource_has_dependencies too_short_content unknown_error : StatusCode
  detailed_error network_error unexpected_response timeout : StatusCode

-- A text, or an f-string with one number in it, before it is rendered.
pub data Message : Type 0 where
  text : String → Message
  formatted : (before : String) → (number : ℕ) → (after : String) → Message

-- `P` is the type of the payload, a dict that each component fills in its own way.
pub record AppExceptionDetail (P : Type 0) : Type 0 where
  pub status : StatusCode
  pub message : Option Message
  pub field : Option String
  pub payload : P
