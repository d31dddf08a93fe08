-- ===== src/Session/Tests.antt =====
-- Runs of the session and the client on concrete events.
use punah_pustak.Api.Endpoints.{get, post}
use punah_pustak.Common.{
  false, ◌≡◌, refl, String, true, Option, none, some, List, [], ◌∷◌, arith, get_elem?,
}
use punah_pustak.Api.Errors.{ApiErrorEnvelope}
use punah_pustak.Api.Client
use punah_pustak.Api.Client.{
  call_to, Document, undefined, refreshed, payload, envelope, Response, refused, resource_request,
  authorization, deliver, deliver_at, wake, wake_all, is_ok,
}
use punah_pustak.Api.Client.Restoring.{main}
use punah_pustak.Auth
use punah_pustak.Auth.{user, User, authenticated, password_change_required}
use punah_pustak.App.{login, place, replaced_by, app}
use punah_pustak.App.Samples.{static_router, reader}
use punah_pustak.Session.{
  logout_clicked, System, SystemEvent, answered, refresh_ended, resumed, mounted, login_submitted,
  page_called, step, run, loaded,
}
use punah_pustak.Session.Expiry.{
  HasEnded, IsShutOut, AsksForPassword, demand, refusal_ends_session, demand_leads_to_change,
}
use punah_pustak.Session.Sources.{own_profile}
use punah_pustak.Session.Users.{content}
use punah_pustak.Session.Origin.{answers, Occurs, signed_in-Occurs}
use punah_pustak.Auth.Safety.{is_authenticated}
use punah_pustak.Session.Logout.{logout_lasts}
use punah_pustak.Session.Login.{idle, ok, login_leads_back}

-- What a run computes with.
simulate : Unit {0}
unfolding run step loaded Client.step Auth.step deliver deliver_at wake wake_all main Client.initial
    Auth.initial
simulate = tt

-- The documents are texts; a profile's text is the display name.
abbrev profile_text : Option (Document String) → User
profile_text (some (payload name)) = record reader { display_name = name }
profile_text (some (envelope _)) = reader
profile_text none = reader

abbrev token_text : Document String → String
token_text (payload t) = t
token_text (envelope _) = ""

abbrev runs : List (SystemEvent String) → System String
runs = run profile_text token_text loaded

abbrev visitor : List (SystemEvent String)
visitor = mounted ∷ refresh_ended refused ∷ resumed 0 ∷ []

abbrev logging_in : List (SystemEvent String)
logging_in =
    mounted
    ∷ refresh_ended refused
    ∷ resumed 0
    ∷ login_submitted
    ∷ answered 0 (ok (payload "t"))
    ∷ resumed 0
    ∷ answered 0 (ok (payload "Meera"))
    ∷ resumed 0
    ∷ []

abbrev meera : User
meera = record reader { display_name = "Meera" }

nobody_yet : (runs visitor).auth.state ≡ Auth.unauthenticated
unfolding simulate
nobody_yet = refl

signed_in-Occurs_example :
    (r : Response String) × Occurs
      (own_profile, r)
      (answers profile_text token_text loaded logging_in)
    × (is_ok r.status ≡ true)
    × (meera ≡ profile_text (content r))
unfolding simulate
signed_in-Occurs_example = signed_in-Occurs profile_text token_text logging_in meera refl

login_leads_back_example :
    let s' = run profile_text token_text (idle none true [] [] Auth.initial []) (
      login_submitted
      ∷ answered 0 (ok (payload "t"))
      ∷ resumed 0
      ∷ answered 0 (ok (payload "Meera"))
      ∷ resumed 0
      ∷ []) in
    (s'.auth.state ≡ authenticated meera)
    × (s'.world.shared.access_token ≡ some "t")
    × (s'.world.shared.traffic
        ≡ resource_request (call_to get "/api/v1/users/me") (authorization (some "t"))
          ∷ resource_request (call_to post "/api/v1/auth/login") (authorization none)
          ∷ [])
    × (app s'.auth.state (record { path = "/login"; from = some "/profile" }) login
        ≡ replaced_by (place "/profile"))
login_leads_back_example =
    login_leads_back profile_text token_text none true [] [] Auth.initial [] (payload "t")
      (payload "Meera") (some "/profile")

-- The reader is logged in, and a page's request has a 401.
abbrev expiring : System String
expiring =
    step profile_text token_text
      (step profile_text token_text (runs logging_in)
        (page_called (call_to get "/api/v1/users/me/listings")))
      (answered 0 (record { status = 401; body = none }))

refusal_ends_session_example :
    let s' = step profile_text token_text expiring (refresh_ended refused) in
    (s'.world.shared.access_token ≡ none)
    × HasEnded s'.auth.state
    × IsShutOut static_router s'.auth.state
unfolding simulate
refusal_ends_session_example =
    refusal_ends_session profile_text token_text static_router expiring refl refl (omega arith)

abbrev new_password : ApiErrorEnvelope
new_password = record { code = "PASSWORD_CHANGE_REQUIRED"; message = "Change it"; fields = none }

abbrev asking : System String
asking =
    step profile_text token_text (runs logging_in)
      (page_called (call_to get "/api/v1/users/me/listings"))

demand_leads_to_change_example :
    let s' = step profile_text token_text asking (answered 0 (demand new_password)) in
    (s'.auth.state ≡ password_change_required)
    × (get_elem? s'.auth.navigations 0 ≡ some "/change-password")
    × AsksForPassword static_router s'.auth.state
    × (s'.world.shared.access_token ≡ asking.world.shared.access_token)
unfolding simulate
demand_leads_to_change_example =
    demand_leads_to_change profile_text token_text static_router asking 0
      (call_to get "/api/v1/users/me/listings") true new_password refl refl refl

-- The reader logs out, and the server accepts it.
abbrev leaving : System String
leaving =
    step profile_text token_text (step profile_text token_text (runs logging_in) logout_clicked)
      (answered 0 (record { status = 204; body = none }))

-- Afterwards a page's call has a 401, and a refresh still brings a token.
abbrev afterwards : List (SystemEvent String)
afterwards =
    page_called (call_to get "/api/v1/users/me/listings")
    ∷ answered 0 (record { status = 401; body = none })
    ∷ refresh_ended (refreshed "late")
    ∷ resumed 0
    ∷ []

logout_lasts_example :
    is_authenticated
      (run profile_text token_text
        (step profile_text token_text leaving (resumed 0))
        afterwards).auth.state
    ≡ false
unfolding simulate
logout_lasts_example =
    logout_lasts profile_text token_text leaving 0 (call_to post "/api/v1/auth/logout") undefined
      afterwards refl (tt, (tt, (tt, (tt, (tt, tt))))) refl refl (tt, (tt, (tt, (tt, tt))))

-- A page's call is under way when the reader logs out; its 401 comes before the answer to the logout, and the refresh
-- that it starts ends after it.
abbrev overtaken : List (SystemEvent String)
overtaken =
    page_called (call_to get "/api/v1/users/me/listings")
    ∷ logout_clicked
    ∷ answered 1 (record { status = 401; body = none })
    ∷ answered 0 (record { status = 204; body = none })
    ∷ resumed 0
    ∷ refresh_ended (refreshed "late")
    ∷ []

-- The token is stored although nobody is logged in, and the call is sent again with it.
late_token :
    let s = run profile_text token_text (runs logging_in) overtaken in
    (s.auth.state ≡ Auth.unauthenticated)
    × (s.world.shared.access_token ≡ some "late")
    × (get_elem? s.world.shared.traffic 0
        ≡ some (resource_request (call_to get "/api/v1/users/me/listings") (some "late")))
unfolding simulate
late_token = (refl, refl, refl)
