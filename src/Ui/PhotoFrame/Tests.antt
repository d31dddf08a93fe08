-- ===== src/Ui/PhotoFrame/Tests.antt =====
-- The frame of a wide photo.
use punah_pustak.Common.{true, false, List, [], ◌∷◌, ◌≡◌, refl}
use punah_pustak.Ui.PhotoFrame.{
  initial, run, step, on_element, handle_loaded, rendered, load, FrameEvent, failed,
}
use punah_pustak.Ui.PhotoFrame.Shape.{Bounded, run-Bounded}

-- It is not complete at the first render, then loads.
abbrev wide : List FrameEvent
wide = rendered false 0 0 ∷ load 3000 1000 ∷ rendered true 3000 1000 ∷ []

its_ratio : (run initial wide).ratio ≡ record { over = 4; under = 3 }
unfolding run step on_element handle_loaded initial
its_ratio = refl

-- A broken photo from the cache.
broken : (run initial (rendered true 0 0 ∷ load 10 10 ∷ [])).state ≡ failed
unfolding run step on_element handle_loaded initial
broken = refl

run-Bounded_example : Bounded (run initial wide).ratio
run-Bounded_example = run-Bounded wide
