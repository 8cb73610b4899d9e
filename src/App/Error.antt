-- ===== src/App/Error.antt =====
-- The errors of crates/dandori-app-services/src/service.rs
use dandori.Base.{String}
use dandori.Domain.Ids.{Uuid}

pub data ErrorKind : Type 0 where
  validation precondition conflict not_found authz tenant_boundary infrastructure : ErrorKind

pub record AppServiceError : Type 0 where
  pub code : String
  pub message : String
  pub kind : ErrorKind
  pub correlation_id : Uuid

-- `AppServiceError::validation`
abbrev pub validation_error : String → String → Uuid → AppServiceError
validation_error code message correlation = record {
  code = code;
  message = message;
  kind = ErrorKind.validation;
  correlation_id = correlation;
}

-- `INTERNAL_ERROR_PUBLIC_MESSAGE`
abbrev pub internal_message : String
internal_message = "an internal error occurred"

-- `AppServiceError::internal`: the private cause goes to the log only.
abbrev pub internal : String → Uuid → AppServiceError
internal code correlation = record {
  code = code;
  message = internal_message;
  kind = ErrorKind.infrastructure;
  correlation_id = correlation;
}
