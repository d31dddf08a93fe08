-- ===== src/Pages/AdminUsers/Safety.antt =====
-- What an administrator can do from the page, and to whom.
use punah_pustak.Common.{
  if◌then◌else◌, String, Bool, true, false, Option, none, some, List, [], ◌∷◌, ◌≡◌, refl, All,
  truthy, arith,
}
use punah_pustak.Auth.{value, threw}
use punah_pustak.Js.{trim, ◌⧺◌}
use punah_pustak.Listings.Formats.{Dates}
use punah_pustak.Ui.View.{
  text, button, heading, dismiss, Allows, Allows-append, Allows-when, Offers, Offers-Allows,
}
use punah_pustak.Pages.AdminUsers.{
  AdminUser, AdminRequest, suspend_request, reset_request, AdminUsers, AdminUsersEvent,
  suspend_open, suspend_close, reason_change, suspend_press, suspend_reply, reinstate_press,
  reinstate_reply, reset_open, reset_close, reset_press, reset_reply, initial, handle_suspend,
  handle_reset_password, update, run, is_self, render_actions, render_status, close_reset_modal,
  password_reset, cannot_suspend,
}
use punah_pustak.Pages.AdminUsers.Screen.{user_rows, user_row, reset_modal, reset_contents}

-- Every suspension in the log has a reason that is not blank.
abbrev pub HasReason : AdminRequest → Type 0
HasReason (suspend_request _ r) = truthy (trim r) ≡ true
HasReason _ = Unit

suspend-HasReason :
    (o : Option AdminUser) (s : AdminUsers)
    → cannot_suspend s ≡ false
    → All HasReason s.requests
    → All HasReason (handle_suspend o s).requests
unfolding handle_suspend
suspend-HasReason none s e h = h
suspend-HasReason (some u) s e h = (ground arith, h)

reset-HasReason :
    (o : Option AdminUser) (s : AdminUsers)
    → All HasReason s.requests
    → All HasReason (handle_reset_password o s).requests
unfolding handle_reset_password
reset-HasReason none s h = h
reset-HasReason (some u) s h = (tt, h)

-- A press on a button that may be disabled.
unless-HasReason :
    (b : Bool) (s t : AdminUsers)
    → All HasReason s.requests
    → (b ≡ false → All HasReason t.requests)
    → All HasReason (if b then s else t).requests
unless-HasReason true s t h k = h
unless-HasReason false s t h k = k refl

update-HasReason :
    (s : AdminUsers) (e : AdminUsersEvent)
    → All HasReason s.requests
    → All HasReason (update s e).requests
unfolding update
update-HasReason s suspend_press h =
    unless-HasReason (cannot_suspend s) s _ h (λ on. suspend-HasReason s.suspend_target s on h)
update-HasReason s (reinstate_press u) h = unless-HasReason s.is_reinstating s _ h (λ _. (tt, h))
update-HasReason s reset_press h =
    unless-HasReason s.is_resetting s _ h (λ _. reset-HasReason s.reset_target s h)
update-HasReason s (suspend_reply (value _)) h = h
update-HasReason s (suspend_reply (threw t)) h = h
update-HasReason s (reinstate_reply (value _)) h = h
update-HasReason s (reinstate_reply (threw t)) h = h
update-HasReason s (reset_reply (value _)) h = h
update-HasReason s (reset_reply (threw t)) h = h
update-HasReason s _ h = h

run-HasReason :
    (s : AdminUsers) (es : List AdminUsersEvent)
    → All HasReason s.requests
    → All HasReason (run s es).requests
unfolding run
run-HasReason s [] h = h
run-HasReason s (e ∷ es) h = run-HasReason (update s e) es (update-HasReason s e h)

-- Over any events on the page, no suspension is sent with a blank reason code.
pub suspensions_have_reasons : (es : List AdminUsersEvent) → All HasReason (run initial es).requests
unfolding initial
suspensions_have_reasons es = run-HasReason initial es tt

-- The event is not about the account with this id.
abbrev pub Spares : Option String → AdminUsersEvent → Type 0
Spares me (suspend_open u) = is_self me u ≡ false
Spares me (reinstate_press u) = is_self me u ≡ false
Spares me (reset_open u) = is_self me u ≡ false
Spares me _ = Unit

actions-Allows :
    (me : Option String) (s : AdminUsers) (u : AdminUser)
    → Allows (Spares me) (render_actions me s u)
unfolding render_actions
actions-Allows me s u = ground arith

status-Allows : (me : Option String) (u : AdminUser) → Allows (Spares me) (render_status me u)
unfolding render_status
status-Allows me u = (tt, Allows-when (Spares me) (is_self me u) (text "you" ∷ []) (λ _. (tt, tt)))

row-Allows :
    (dates : Dates) (w : Bool) (me : Option String) (s : AdminUsers) (u : AdminUser)
    → Allows (Spares me) (user_row dates w me s u)
unfolding user_row
row-Allows dates true me s u =
    (tt, (tt, (tt, Allows-append _ _ _ (status-Allows me u) (tt, actions-Allows me s u))))
row-Allows dates false me s u = (
  tt,
  (tt, (tt, (tt, (tt, (tt, Allows-append _ _ _ (status-Allows me u) (actions-Allows me s u)))))),
)

rows-Allows :
    (dates : Dates) (w : Bool) (me : Option String) (s : AdminUsers) (us : List AdminUser)
    → Allows (Spares me) (user_rows dates w me s us)
rows-Allows dates w me s [] = tt
rows-Allows dates w me s (u ∷ us) =
    Allows-append _ _ _ (row-Allows dates w me s u) (rows-Allows dates w me s us)

-- Whatever accounts are listed, wide or narrow, no row offers an action on the account of the administrator who is
-- signed in.
pub rows_spare_self :
    (dates : Dates) (w : Bool) (me : Option String) (s : AdminUsers) (us : List AdminUser)
    (e : AdminUsersEvent)
    → Offers e (user_rows dates w me s us)
    → Spares me e
rows_spare_self dates w me s us e o = Offers-Allows _ e _ (rows-Allows dates w me s us) o

-- The reset of one account's password can be shown under another's name. If the modal for `u` is closed while the
-- reset is pending, and its answer comes before the modal for `v` is opened, that modal has `v`'s email in its title
-- and shows the password of `u`, with no button to reset `v`'s; only `u`'s reset was sent.
pub password_under_wrong_name :
    (s : AdminUsers) (u v : AdminUser) (p : String)
    → s.is_resetting ≡ false
    → truthy p ≡ true
    → let s' =
        run s
          (reset_open u ∷ reset_press ∷ reset_close ∷ reset_reply (value p) ∷ reset_open v ∷ []) in
      (reset_modal s'
        ≡ dismiss reset_close
          ∷ heading ("Reset password for " ⧺ v.email ⧺ "?")
          ∷ text
              "Relay this temporary password to the user out-of-band. It will not be shown again (FR-045)."
          ∷ text p
          ∷ button "Done" false reset_close
          ∷ [])
      × (s'.requests ≡ reset_request u.id ∷ s.requests)
unfolding run update reset_modal reset_contents handle_reset_password close_reset_modal
    password_reset punah_pustak.Ui.Parts.modal
password_under_wrong_name s u v p h t = (rw t refl, rw h refl)

-- A reason that was typed for `u` and cancelled is still there for `v`: pressing `Suspend` in the next modal sends it.
pub reason_outlives_cancel :
    (s : AdminUsers) (u v : AdminUser) (r : String)
    → s.is_suspending ≡ false
    → truthy (trim r) ≡ true
    → (run s (
        suspend_open u
        ∷ reason_change r
        ∷ suspend_close
        ∷ suspend_open v
        ∷ suspend_press
        ∷ [])).requests
      ≡ suspend_request v.id r ∷ s.requests
unfolding run update handle_suspend
reason_outlives_cancel s u v r h t = rw (h, t) refl
