-- ===== src/Ui/MediaQuery/Tests.antt =====
-- A window that is made wide and narrow again.
use punah_pustak.Common.{true, false, some, List, [], ◌∷◌, none}
use punah_pustak.Ui.MediaQuery.{HookEvent, Hook, rendered, changed}

abbrev resizing : List HookEvent
resizing = changed (λ q. true) ∷ rendered ∷ changed (λ q. false) ∷ []

abbrev narrow : Hook
narrow = record { window = some (λ q. false); listeners = 0; subscription = none; value = false }
