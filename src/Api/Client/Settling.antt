-- ===== src/Api/Client/Settling.antt =====
-- What the end of a refresh does to the calls that wait for it.
use punah_pustak.Common.{
  ℕ, suc, ◌+◌, ◌==◌, ◌≡◌, refl, String, true, false, Option, none, some, List, [], ◌∷◌, arith,
  truthy, eq_refl, if◌then◌else◌,
}
use punah_pustak.Api.Client.{
  awaiting_restore, awaiting_response, awaiting_refresh, settled, Job, fetching, restoring,
  restored, restore_failed, Traffic, refresh_request, refresh_answer, resource_request, Notice,
  session_expired, password_change_required, Shared, World, refreshed, refused, settle_refresh,
  perform_refresh, wake, wake_all, step,
}

abbrev carries : String → Option String → ℕ
carries t none = 0
carries t (some s) = if t == s then 1 else 0

-- The requests that carry the token `t`.
abbrev pub authorized : String → List Traffic → ℕ
authorized t [] = 0
authorized t (resource_request _ a ∷ ts) = carries t a + authorized t ts
authorized t (refresh_request ∷ ts) = authorized t ts
authorized t (refresh_answer ∷ ts) = authorized t ts

abbrev pub expiries : List Notice → ℕ
expiries [] = 0
expiries (session_expired ∷ ns) = suc (expiries ns)
expiries (password_change_required ∷ ns) = expiries ns

module _ {J : Type 0} where
  abbrev waits : Job J → ℕ
  waits (fetching _ (awaiting_restore _)) = 1
  waits (fetching _ (awaiting_refresh _)) = 1
  waits (fetching _ (awaiting_response _)) = 0
  waits (fetching _ (settled _)) = 0
  waits restoring = 0
  waits (restored _) = 0
  waits restore_failed = 0

  -- The calls of `apiFetch` that wait for the refresh.
  abbrev pub waiting : List (Job J) → ℕ
  waiting [] = 0
  waiting (j ∷ js) = waits j + waiting js

  abbrev expires : Job J → ℕ
  expires (fetching _ (awaiting_refresh _)) = 1
  expires (fetching _ (awaiting_restore _)) = 0
  expires (fetching _ (awaiting_response _)) = 0
  expires (fetching _ (settled _)) = 0
  expires restoring = 0
  expires (restored _) = 0
  expires restore_failed = 0

  -- The calls among them that have had a 401.
  abbrev pub unauthorized : List (Job J) → ℕ
  unauthorized [] = 0
  unauthorized (j ∷ js) = expires j + unauthorized js

  wake_refreshed :
      (t : String) (j : Job J) (c : Shared)
      → truthy t ≡ true
      → c.access_token ≡ some t
      → c.refresh_in_flight ≡ false
      → (authorized t (wake (refreshed t) j c).1.traffic ≡ waits j + authorized t c.traffic)
        × ((wake (refreshed t) j c).1.access_token ≡ some t)
        × ((wake (refreshed t) j c).1.refresh_in_flight ≡ false)
        × ((wake (refreshed t) j c).1.notices ≡ c.notices)
  unfolding wake
  wake_refreshed t (fetching target (awaiting_refresh r)) c h e i = ground (arith, eq_refl t)
  wake_refreshed t (fetching target (awaiting_restore b)) c h e i = ground (arith, eq_refl t)
  wake_refreshed t (fetching target _) c h e i = ground arith
  wake_refreshed t _ c h e i = ground arith

  wake_refused :
      (j : Job J) (c : Shared)
      → c.access_token ≡ none
      → ((wake refused j c).1.access_token ≡ none)
        × ((wake refused j c).1.handlers ≡ c.handlers)
        × (c.handlers ≡ true
            → expiries (wake refused j c).1.notices ≡ expires j + expiries c.notices)
  unfolding wake
  wake_refused (fetching target (awaiting_refresh r)) c e = ground arith
  wake_refused (fetching target (awaiting_restore b)) c e = ground arith
  wake_refused (fetching target _) c e = ground arith
  wake_refused _ c e = ground arith

  wake_all_refreshed :
      (t : String) (js : List (Job J)) (c : Shared)
      → truthy t ≡ true
      → c.access_token ≡ some t
      → c.refresh_in_flight ≡ false
      → (authorized t (wake_all (refreshed t) js c).1.traffic ≡ waiting js + authorized t c.traffic)
        × ((wake_all (refreshed t) js c).1.access_token ≡ some t)
        × ((wake_all (refreshed t) js c).1.refresh_in_flight ≡ false)
        × ((wake_all (refreshed t) js c).1.notices ≡ c.notices)
  unfolding wake_all
  wake_all_refreshed t [] c h e i = ground arith
  wake_all_refreshed t (j ∷ js) c h e i =
      let (sent, token, idle, quiet) = wake_all_refreshed t js c h e i in
      let (sent', token', idle', quiet') =
        wake_refreshed t j (wake_all (refreshed t) js c).1 h token idle in
      (omega arith, token', idle', cc)

  wake_all_refused :
      (js : List (Job J)) (c : Shared)
      → c.access_token ≡ none
      → c.handlers ≡ true
      → ((wake_all refused js c).1.access_token ≡ none)
        × ((wake_all refused js c).1.handlers ≡ true)
        × (expiries (wake_all refused js c).1.notices ≡ unauthorized js + expiries c.notices)
  unfolding wake_all
  wake_all_refused [] c e h = ground arith
  wake_all_refused (j ∷ js) c e h =
      let (token, live, told) = wake_all_refused js c e h in
      let (token', same, told') = wake_refused j (wake_all refused js c).1 token in
      (token', cc, omega (arith, told' live))

  -- When the refresh in flight brings a token that is not empty, the token is stored, exactly as
  -- many requests with that token are added to the traffic as calls were waiting, and no handler is
  -- called: every waiting call goes on, with the new token, after the one refresh.
  pub settle_refreshed :
      (w : World J) (t : String)
      → w.shared.refresh_in_flight ≡ true
      → truthy t ≡ true
      → let w' = step w (settle_refresh (refreshed t)) in
        (w'.shared.access_token ≡ some t)
        × (authorized t w'.shared.traffic ≡ waiting w.jobs + authorized t w.shared.traffic)
        × (w'.shared.notices ≡ w.shared.notices)
  unfolding step
  settle_refreshed w t busy h =
      let (sent, token, _, quiet) =
        wake_all_refreshed t w.jobs (perform_refresh (refreshed t) w.shared) h refl refl in
      rw busy (token, sent, quiet)

  -- When the refresh in flight is refused, the access token is dropped, and the session-expired
  -- handler, if registered, is called once for each waiting call that had a 401.
  pub settle_refused :
      (w : World J)
      → w.shared.refresh_in_flight ≡ true
      → w.shared.handlers ≡ true
      → let w' = step w (settle_refresh refused) in
        (w'.shared.access_token ≡ none)
        × (expiries w'.shared.notices ≡ unauthorized w.jobs + expiries w.shared.notices)
  unfolding step
  settle_refused w busy h =
      let (token, _, told) = wake_all_refused w.jobs (perform_refresh refused w.shared) refl h in
      rw busy (token, told)
