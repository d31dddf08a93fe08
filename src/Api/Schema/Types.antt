-- ===== src/Api/Schema/Types.antt =====
-- The vocabulary of frontend/src/api/schema.ts: what one operation of the server takes and answers.
use punah_pustak.Common.{ℕ, String, Option, List}
use punah_pustak.Api.Endpoints.{Method}

pub data Piece : Type 0 where
  literal : String → Piece
  -- `{name}` in a path
  param : String → Piece

pub data Presence : Type 0 where
  required optional : Presence

pub data ContentType : Type 0 where
  application_json multipart_form_data : ContentType

-- An entry of `operations`. Types are named as in `components["schemas"]`; a response without content has none.
pub record Operation : Type 0 where
  pub query : List (String × Presence)
  pub path_params : List String
  pub cookies : List String
  pub request_body : Option (ContentType × String)
  pub responses : List (ℕ × Option String)

-- An entry of `paths`, with the methods that it does not exclude.
pub record PathItem : Type 0 where
  pub template : List Piece
  pub methods : List (Method × Operation)
