-- ===== src/Api/Errors.antt =====
-- frontend/src/api/errors.ts: the error envelope of the API and the error that `apiFetch` throws.
use punah_pustak.Common.{ℕ, String, Option, List, Dict}

-- `error.fields` maps a field to its messages.
pub record ApiErrorEnvelope : Type 0 where
  pub code : String
  pub message : String
  pub fields : Option (Dict (List String))

pub record ApiError : Type 0 where
  pub status : ℕ
  pub code : String
  pub message : String
  pub fields : Option (Dict (List String))

-- The constructor of `ApiError`.
abbrev pub api_error : ℕ → ApiErrorEnvelope → ApiError
api_error status e = record {
  status = status;
  code = e.code;
  message = e.message;
  fields = e.fields;
}

-- What a `catch` clause may hold. `raised` is an `Error` that is no `ApiError`, such as the
-- `TypeError` of a failed `fetch` or of a body that is not JSON; `other` is any other value.
pub data Thrown : Type 0 where
  api : ApiError → Thrown
  raised : String → Thrown
  other : Thrown
