-- ===== src/Ui/MediaQuery/Synced.antt =====
-- The hook's value is that of the query, and no listener is left behind.
use punah_pustak.Common.{ℕ, ◌+◌, ◌≡◌, String, Bool, none, some}
use punah_pustak.Ui.MediaQuery.{
  MatchMedia, snapshot, Subscription, nothing, listener, Hook, HookEvent, mounted, rendered,
  changed, unmounted,
}

-- What happens to a component between its mounting and its unmounting.
abbrev pub IsMeanwhile : HookEvent → Type 0
IsMeanwhile mounted = ⊥
IsMeanwhile rendered = Unit
IsMeanwhile (changed _) = Unit
IsMeanwhile unmounted = ⊥

abbrev expected : MatchMedia → Subscription
expected none = nothing
expected (some _) = listener

abbrev weight : MatchMedia → ℕ
weight none = 0
weight (some _) = 1

module _ (query : String) (fallback : Bool) where
  record IsSynced (n : ℕ) (h : Hook) : Type 0 where
    subscribed : h.subscription ≡ some (expected h.window)
    counted : h.listeners ≡ n + weight h.window
    current : h.value ≡ snapshot h.window query fallback
