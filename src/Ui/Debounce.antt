-- ===== src/Ui/Debounce.antt =====
-- frontend/src/hooks/useDebouncedValue.ts: the value, what the hook returns, and the timer with the
-- value that its closure holds. Times are left out: a timer that is set may fire at any moment.
mod Tests
use punah_pustak.Common.{
  ◌==◌, ◌≡◌, ◌≢◌, refl, String, Bool, true, false, Option, none, some, List, [], ◌∷◌, arith, eq_iff,
  if◌then◌else◌, All, ◌⊎◌, inl, inr,
}

pub record Debounced : Type 0 where
  pub value : String
  pub debounced : String
  pub timer : Option String

pub data DebounceEvent : Type 0 where
  -- the component renders with this value
  render : String → DebounceEvent
  fire : DebounceEvent

unfoldable pub mount : String → Debounced
mount v = record { value = v; debounced = v; timer = some v }

abbrev fired : Option String → Debounced → Debounced
fired none s = s
fired (some v) s = record s { debounced = v; timer = none }

-- The effect runs, after its cleanup has cleared the old timer, only if the value has changed.
unfoldable pub step : Debounced → DebounceEvent → Debounced
step s (render v) = if v == s.value then s else record s { value = v; timer = some v }
step s fire = fired s.timer s

unfoldable pub run : Debounced → List DebounceEvent → Debounced
run s [] = s
run s (e ∷ es) = run (step s e) es

-- The timer holds the latest value; with no timer set the hook returns the latest value.
abbrev pub IsCurrent : Debounced → Type 0
IsCurrent s = (s.timer ≡ some s.value) ⊎ ((s.timer ≡ none) × (s.debounced ≡ s.value))

step-IsCurrent : (s : Debounced) (e : DebounceEvent) → IsCurrent s → IsCurrent (step s e)
unfolding step
step-IsCurrent s (render v) h = ground (arith, eq_iff v s.value)
step-IsCurrent s fire h = ground arith

run-IsCurrent : (s : Debounced) (es : List DebounceEvent) → IsCurrent s → IsCurrent (run s es)
unfolding run
run-IsCurrent s [] h = h
run-IsCurrent s (e ∷ es) h = run-IsCurrent (step s e) es (step-IsCurrent s e h)

fire-current : (s : Debounced) → IsCurrent s → (step s fire).debounced ≡ s.value
unfolding step
fire-current s h = ground arith

-- Whatever was typed and whenever timers fired, the next firing (or, with no timer set, the hook as
-- it stands) gives the value of the latest render, never an older one.
pub debounce_settles :
    (v : String) (es : List DebounceEvent)
    → (step (run (mount v) es) fire).debounced ≡ (run (mount v) es).value
unfolding mount
debounce_settles v es = fire-current _ (run-IsCurrent _ es (inl refl))
