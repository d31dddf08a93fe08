-- ===== src/Ui/Debounce/Tests.antt =====
-- The debounced search box on concrete events.
use punah_pustak.Common.{◌≡◌, refl, List, [], ◌∷◌}
use punah_pustak.Ui.Debounce.{DebounceEvent, render, fire, mount, step, run, debounce_settles}

abbrev typing : List DebounceEvent
typing = render "d" ∷ render "du" ∷ fire ∷ render "dun" ∷ []

shows_older : (run (mount "") typing).debounced ≡ "du"
unfolding mount run step
shows_older = refl

debounce_settles_example :
    (step (run (mount "") typing) fire).debounced ≡ (run (mount "") typing).value
debounce_settles_example = debounce_settles "" typing
