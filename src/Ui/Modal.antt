-- ===== src/Ui/Modal.antt =====
-- frontend/src/components/Modal.tsx: the effect that moves the focus into the dialog, traps `Tab` and
-- gives the focus back. What `Tab` does where the effect does not prevent it is the browser's, and a
-- parameter.
pub mod Trap
pub mod Clicks
mod Tests
use punah_pustak.Common.{
  ℕ, zero, suc, ◌-◌, ◌===◌, String, Bool, true, false, ◌&&◌, not, Option, none, some, List, [], ◌∷◌,
  if◌then◌else◌,
}

-- `document.activeElement`: the body, an element outside the dialog, the dialog's container, or one
-- of its focusable elements by position.
pub data Focus : Type 0 where
  body : Focus
  elsewhere : String → Focus
  container : Focus
  node : ℕ → Focus

-- `nodes` is how many elements `querySelectorAll(FOCUSABLE_SELECTOR)` finds, which only renders change; `close_calls` counts the
-- calls of `onClose`.
pub record Modal : Type 0 where
  pub is_open : Bool
  pub nodes : ℕ
  pub focus : Focus
  pub previously_focused : Focus
  pub close_calls : ℕ

pub data ModalEvent : Type 0 where
  -- the parent renders with `isOpen` for the first time, with this many focusable elements
  open_with : ℕ → ModalEvent
  -- the parent renders again with `isOpen`, with a new function for `onClose` or the same one, and with this many
  -- focusable elements; `position` says where those from before stand now, and `none` for one that is gone or disabled
  render : (new_on_close : Bool) (nodes : ℕ) (position : ℕ → Option ℕ) → ModalEvent
  -- `Tab`, with `Shift` or without
  tab : (shift : Bool) → ModalEvent
  escape : ModalEvent
  -- the user clicks into the dialog
  click : Focus → ModalEvent
  -- the parent renders without `isOpen`
  close : ModalEvent

-- `(focusable?.[0] ?? container)?.focus()`
abbrev pub first_focus : ℕ → Focus
first_focus zero = container
first_focus (suc n) = node 0

-- The body of the effect.
unfoldable pub enter : Modal → Modal
enter s = record s { previously_focused = s.focus; focus = first_focus s.nodes }

abbrev pub at_position : Option ℕ → Focus
at_position none = body
at_position (some i) = node i

-- An element after a render: the browser takes the focus from one that is gone or disabled.
abbrev pub carried : (ℕ → Option ℕ) → Focus → Focus
carried position (node i) = at_position (position i)
carried position body = body
carried position (elsewhere x) = elsewhere x
carried position container = container

-- `previouslyFocusedRef.current?.focus()` while the dialog is on the page: the body takes no focus.
abbrev pub refocus : Focus → Focus → Focus
refocus body now = now
refocus f now = f

-- The same once the dialog is off the page, and with it what it held.
abbrev pub refocus_outside : Focus → Focus
refocus_outside (elsewhere x) = elsewhere x
refocus_outside _ = body

abbrev pub is_node : ℕ → Focus → Bool
is_node n (node i) = i === n
is_node n _ = false

-- The dialog once it is rendered again, before the effect runs.
unfoldable pub rerendered : ℕ → (ℕ → Option ℕ) → Modal → Modal
rerendered n position s = record s {
  nodes = n;
  focus = carried position s.focus;
  previously_focused = carried position s.previously_focused;
}

-- The cleanup and the body of the effect.
unfoldable pub re_enter : Modal → Modal
unfolding enter
re_enter s = enter (record s { focus = refocus s.previously_focused s.focus })

module _ (browser_tab : Bool → ℕ → Focus → Focus) where
  -- `handleKeyDown` for `Tab`.
  abbrev pub handle_tab : (shift : Bool) → (nodes : ℕ) → Focus → Focus
  handle_tab shift zero f = browser_tab shift zero f
  handle_tab true (suc n) f = if is_node 0 f then node n else browser_tab true (suc n) f
  handle_tab false (suc n) f = if is_node n f then node 0 else browser_tab false (suc n) f

  -- The effect depends on `isOpen` and `onClose`: when `onClose` is new, its cleanup and its body run.
  unfoldable pub step_open : Modal → ModalEvent → Modal
  unfolding rerendered re_enter
  step_open s (open_with n) = s
  step_open s (render false n position) = rerendered n position s
  step_open s (render true n position) = re_enter (rerendered n position s)
  step_open s (tab shift) = record s { focus = handle_tab shift s.nodes s.focus }
  step_open s escape = record s { close_calls = suc s.close_calls }
  step_open s (click f) = record s { focus = f }
  step_open s close = record s { is_open = false; focus = refocus_outside s.previously_focused }

  -- A dialog that is not open renders nothing and listens to nothing.
  unfoldable pub step_closed : Modal → ModalEvent → Modal
  unfolding enter
  step_closed s (open_with n) = enter (record s { is_open = true; nodes = n })
  step_closed s (tab shift) = record s { focus = browser_tab shift 0 s.focus }
  step_closed s (click f) = record s { focus = f }
  step_closed s _ = s

  abbrev pub step_when : Bool → Modal → ModalEvent → Modal
  step_when true s e = step_open s e
  step_when false s e = step_closed s e

  unfoldable pub step : Modal → ModalEvent → Modal
  step s e = step_when s.is_open s e

  unfoldable pub run : Modal → List ModalEvent → Modal
  run s [] = s
  run s (e ∷ es) = run (step s e) es
