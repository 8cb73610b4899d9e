-- ===== src/Domain/Error.antt =====
-- crates/dandori-domain/src/error.rs
use dandori.Base.{String}

-- `ValidationError`, `PreconditionError` and the four others: structs with the same two fields.
pub record ErrorDetail : Type 0 where
  pub code : String
  pub message : String

pub data DomainError : Type 0 where
  validation precondition conflict authz tenant_boundary infrastructure : ErrorDetail → DomainError

abbrev pub detail : String → String → ErrorDetail
detail code message = record { code = code; message = message }

-- `DomainError::validation`
abbrev pub validation_error : String → String → DomainError
validation_error code message = validation (detail code message)

abbrev pub detail_of : DomainError → ErrorDetail
detail_of (validation d) = d
detail_of (precondition d) = d
detail_of (conflict d) = d
detail_of (authz d) = d
detail_of (tenant_boundary d) = d
detail_of (infrastructure d) = d
