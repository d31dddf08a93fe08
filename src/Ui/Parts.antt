-- ===== src/Ui/Parts.antt =====
-- The parts that pages are put together from: frontend/src/components/QueryState.tsx, Modal.tsx,
-- PageHeader.tsx, AdminNav.tsx, Button.tsx.
use punah_pustak.Common.{
  String, Bool, true, false, ◌||◌, Option, none, some, [], ◌∷◌, truthy, if◌then◌else◌,
}
use punah_pustak.Api.Errors.{Thrown}
use punah_pustak.Ui.FormErrors.{get_error_message}
use punah_pustak.Ui.View.{View, Item, heading, text, alert, status, link, button, dismiss, when}

module _ {E : Type 0} where
  -- A `Button` is disabled while it is loading.
  abbrev pub loading_button : String → (disabled is_loading : Bool) → E → Item E
  loading_button label disabled is_loading e = button label (disabled || is_loading) e

  -- `{error && <p role="alert">…</p>}`
  abbrev pub error_alert : Option String → View E
  error_alert none = []
  error_alert (some m) = when (truthy m) (alert m ∷ [])

  abbrev pub page_header : (title description : String) → View E
  page_header title description = heading title ∷ text description ∷ []

  abbrev pub admin_nav : View E
  admin_nav = link "/admin/users" "Users" ∷ link "/admin/listings" "Listings" ∷ []

  -- The dialog: its events of `onClose`, its title, its contents.
  unfoldable pub modal : (is_open : Bool) (on_close : E) (title : String) → View E → View E
  modal true on_close title children = dismiss on_close ∷ heading title ∷ children
  modal false on_close title children = []

  query_error : Option Thrown → (is_empty : Bool) (empty children : View E) → View E
  query_error (some t) is_empty empty children = alert (get_error_message t) ∷ []
  query_error none is_empty empty children = if is_empty then empty else children

  -- `QueryState`: loading, then the error, then the empty state, then the children.
  unfoldable pub query_state :
      (is_loading : Bool)
      → Option Thrown
      → (is_empty : Bool) (skeleton empty children : View E) → View E
  unfolding query_error
  query_state true error is_empty skeleton empty children = skeleton
  query_state false error is_empty skeleton empty children =
      query_error error is_empty empty children

  abbrev pub loading_message : View E
  loading_message = status "Loading…" ∷ []
