-- ===== src/Ui/MediaQuery.antt =====
-- frontend/src/hooks/useMediaQuery.ts: whether a media query matches, kept in sync.
--
-- The hook hands three functions to React's `useSyncExternalStore`. What React does with them is a parameter of the
-- events: it subscribes when the component mounts, it subscribes anew after each render, since the function is a new
-- one each time, and it unsubscribes when the component unmounts, each time by what subscribing returned.
pub mod Synced
mod Tests
use punah_pustak.Common.{
  ℕ, suc, ◌-◌, ◌+◌, ◌≤◌, ◌≡◌, refl, String, Bool, true, false, Option, none, some, List, [], ◌∷◌,
  arith, if◌then◌else◌,
}

-- `window.matchMedia`, where there is one: whether a query matches now.
abbrev pub MatchMedia : Type 0
MatchMedia = Option (String → Bool)

-- `getSnapshot`
unfoldable pub snapshot : MatchMedia → (query : String) (fallback : Bool) → Bool
snapshot none query fallback = fallback
snapshot (some matches) query fallback = matches query

-- What subscribing returns: a function that removes the listener of its own list, or does nothing.
pub data Subscription : Type 0 where
  nothing : Subscription
  listener : Subscription

pub record Hook : Type 0 where
  pub window : MatchMedia
  pub listeners : ℕ
  pub subscription : Option Subscription
  pub value : Bool

pub data HookEvent : Type 0 where
  mounted : HookEvent
  rendered : HookEvent
  -- the query starts or ceases to match
  changed : (String → Bool) → HookEvent
  unmounted : HookEvent

unfoldable pub subscribe : Hook → Hook
subscribe h = elim h.window [
  | none ↦ record h { subscription = some nothing }
  | some _ ↦ record h { subscription = some listener; listeners = h.listeners + 1 }
]

unfoldable pub unsubscribe : Option Subscription → Hook → Hook
unsubscribe none h = h
unsubscribe (some nothing) h = record h { subscription = none }
unsubscribe (some listener) h = record h { subscription = none; listeners = h.listeners - 1 }

module _ (query : String) (fallback : Bool) where
  abbrev read : Hook → Hook
  read h = record h { value = snapshot h.window query fallback }

  -- A listener tells React, which reads the snapshot again; without one nothing is told.
  abbrev told : Option Subscription → Hook → Hook
  told (some listener) h = read h
  told (some nothing) h = h
  told none h = h

  abbrev window_changed : (String → Bool) → MatchMedia → MatchMedia
  window_changed f none = none
  window_changed f (some _) = some f

  unfoldable pub step : Hook → HookEvent → Hook
  unfolding snapshot subscribe unsubscribe
  step h mounted = subscribe (read h)
  step h rendered = subscribe (unsubscribe h.subscription (read h))
  step h (changed f) = told h.subscription (record h { window = window_changed f h.window })
  step h unmounted = unsubscribe h.subscription h

  unfoldable pub run : Hook → List HookEvent → Hook
  run h [] = h
  run h (e ∷ es) = run (step h e) es
