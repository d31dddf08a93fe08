-- ===== src/Auth/Tests.antt =====
-- Runs of the session on concrete events.
use punah_pustak.Common.{none, List, [], ◌∷◌}
use punah_pustak.Auth.{
  user, User, value, Auth, AuthEvent, restored, profile_reply, login_reply, initial, run,
}

abbrev meera : User
meera = record {
  id = "u1";
  email = "meera@x.org";
  display_name = "Meera";
  role = user;
  created_at = "2026-01-01";
}

abbrev logs_in : List AuthEvent
logs_in = restored none ∷ login_reply (value "t") ∷ profile_reply 0 (value meera) ∷ []

abbrev logged_in : Auth
logged_in = run initial logs_in
