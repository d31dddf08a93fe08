-- ===== src/Pages/AdminUsers/Tests.antt =====
-- The page with two accounts, one of them the administrator's own.
use punah_pustak.Common.{true, some, List, [], ◌∷◌, ◌≡◌, refl, All, inl, inr}
use punah_pustak.Auth.{value}
use punah_pustak.Js.{◌⧺◌}
use punah_pustak.Listings.Formats.{Dates}
use punah_pustak.Pages.AdminUsers.{
  AdminUser, AdminUsersEvent, suspend_request, suspend_open, reason_change, suspend_press,
  suspend_reply, initial, run, update, handle_suspend, suspended, render_actions, render_status,
}
use punah_pustak.Pages.AdminUsers.Screen.{user_row}
use punah_pustak.Pages.AdminUsers.Safety.{
  HasReason, Spares, suspensions_have_reasons, rows_spare_self,
}

abbrev asha : AdminUser
asha = record {
  id = "a1";
  email = "asha@x.in";
  display_name = "Asha";
  created_at = "2026-01-01";
  is_active = true;
}

abbrev ravi : AdminUser
ravi = record {
  id = "r2";
  email = "ravi@x.in";
  display_name = "Ravi";
  created_at = "2026-02-01";
  is_active = true;
}

abbrev plain_dates : Dates
plain_dates = record { format_day = λ s. s; format_month = λ s. s }

abbrev suspends_ravi : List AdminUsersEvent
suspends_ravi =
    suspend_open ravi
    ∷ suspend_press
    ∷ reason_change "spam"
    ∷ suspend_press
    ∷ suspend_press
    ∷ suspend_reply (value tt)
    ∷ []

sent_once : (run initial suspends_ravi).requests ≡ suspend_request "r2" "spam" ∷ []
unfolding run update initial handle_suspend suspended punah_pustak.Js.trim
sent_once = refl

suspensions_have_reasons_example : All HasReason (run initial suspends_ravi).requests
suspensions_have_reasons_example = suspensions_have_reasons suspends_ravi

rows_spare_self_example : Spares (some "a1") (suspend_open ravi)
rows_spare_self_example =
    rows_spare_self plain_dates true (some "a1") initial (asha ∷ ravi ∷ []) (suspend_open ravi) (
      unfold user_row render_status render_actions in
      inr (inr (inr (inr (inr (inr (inr (inr (inr (inr (inr (inl (refl, refl)))))))))))))
