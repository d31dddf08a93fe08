-- ===== src/Api/Schema/Tests.antt =====
-- Requests and answers of concrete operations.
use punah_pustak.Common.{String, ℕ, ◌≡◌, refl, true, false, some, []}
use punah_pustak.Api.Client.{call_to, Shared, receive, settled}
use punah_pustak.Api.Endpoints.{post, request, admin, suspend_user}
use punah_pustak.Api.Endpoints.Types.{call_types}
use punah_pustak.Api.Schema
use punah_pustak.Api.Schema.Operations
use punah_pustak.Api.Schema.Conformance.{Conforms, ids, request-Conforms}
use punah_pustak.Api.Schema.Answers.{as_declared, expected, declared_answer_settles}

request-Conforms_example :
    Conforms
      (ids {N = ℕ} {J = ℕ} {F = ℕ} (admin (suspend_user "7" "spam")))
      (call_types {N = ℕ} {J = ℕ} {F = ℕ} (admin (suspend_user "7" "spam")))
      (request {N = ℕ} {J = ℕ} {F = ℕ} (admin (suspend_user "7" "spam")))
request-Conforms_example =
    request-Conforms {N = ℕ} {J = ℕ} {F = ℕ} (admin (suspend_user "7" "spam"))

abbrev detail : String
detail = "value is not a valid enumeration member"

abbrev quiet : Shared
quiet = record {
  access_token = some "t";
  refresh_in_flight = false;
  handlers = true;
  notices = [];
  traffic = [];
}

declared_answer_settles_example :
    receive
      (call_to post "/api/v1/admin/users/7/suspend")
      true
      (as_declared (422, some "HTTPValidationError") detail)
      quiet
    ≡ (settled (expected (422, some "HTTPValidationError") detail), quiet)
unfolding Schema.paths
declared_answer_settles_example =
    declared_answer_settles 14 0 1 Schema.admin_users_user_id_suspend_path post
      Operations.suspend_user_op (422, some "HTTPValidationError") refl refl refl
      (call_to post "/api/v1/admin/users/7/suspend") true detail quiet
