-- ===== src/Ui/Tests.antt =====
-- Form errors and pages of results on concrete values.
use punah_pustak.Common.{◌≤◌, ◌<◌, ◌↔◌, some, List, [], ◌∷◌, String, Dict, arith}
use punah_pustak.Api.Errors.{ApiError}
use punah_pustak.Ui.Pagination.{total_pages, page_iff_item}

abbrev taken_fields : Dict (List String)
taken_fields = ("email", "Already taken." ∷ "Not a college address." ∷ []) ∷ ("username", []) ∷ []

abbrev taken : ApiError
taken = record {
  status = 422;
  code = "validation_error";
  message = "Check the form.";
  fields = some taken_fields;
}

page_iff_item_example : (3 ≤ total_pages 24 49) ↔ (48 < 49)
page_iff_item_example = page_iff_item 24 49 2 (omega arith) (omega arith)
