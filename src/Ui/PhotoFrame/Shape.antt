-- ===== src/Ui/PhotoFrame/Shape.antt =====
-- The shape of a photo's field, and when a photo is shown.
use punah_pustak.Common.{
  ℕ, ◌*◌, ◌≤◌, ◌<◌, ◌===◌, Bool, true, false, ◌&&◌, ◌≡◌, refl, List, [], ◌∷◌, arith, if◌then◌else◌,
}
use punah_pustak.Ui.PhotoFrame.{
  Loading, loading, loaded, failed, Ratio, Frame, FrameEvent, rendered, load, load_error, initial,
  handle_loaded, on_element, step_in, step, run, smaller, larger, stage_min_ratio, stage_max_ratio,
  is_loading,
}

-- Between 3:4 and 4:3, and no division by zero, so not `NaN`.
abbrev pub Bounded : Ratio → Type 0
Bounded r = (0 < r.under) × (3 * r.under ≤ 4 * r.over) × (3 * r.over ≤ 4 * r.under)

unless-Bounded :
    (b : Bool) (s t : Frame)
    → Bounded s.ratio
    → (b ≡ false → Bounded t.ratio)
    → Bounded (if b then s else t).ratio
unless-Bounded true s t h k = h
unless-Bounded false s t h k = k refl

clamped-Bounded :
    (w h : ℕ)
    → (w === 0) ≡ false
    → Bounded (smaller (larger (record { over = w; under = h }) stage_min_ratio) stage_max_ratio)
clamped-Bounded w h e = ground arith

handle_loaded-Bounded :
    (w h : ℕ) (s : Frame) → Bounded s.ratio → Bounded (handle_loaded w h s).ratio
unfolding handle_loaded
handle_loaded-Bounded w h s b = unless-Bounded (w === 0) _ _ b (clamped-Bounded w h)

on_element-Bounded : (s : Frame) (e : FrameEvent) → Bounded s.ratio → Bounded (on_element s e).ratio
unfolding on_element
on_element-Bounded s (rendered complete w h) b =
    unless-Bounded (complete && is_loading s.state) (handle_loaded w h s) s
      (handle_loaded-Bounded w h s b) (λ _. b)
on_element-Bounded s (load w h) b = handle_loaded-Bounded w h s b
on_element-Bounded s load_error b = b

step-Bounded : (s : Frame) (e : FrameEvent) → Bounded s.ratio → Bounded (step s e).ratio
unfolding step
step-Bounded s e b = in_state s.state
  where
    in_state : (l : Loading) → Bounded (step_in l s e).ratio
    in_state failed = b
    in_state loading = on_element-Bounded s e b
    in_state loaded = on_element-Bounded s e b

run-step-Bounded : (s : Frame) (es : List FrameEvent) → Bounded s.ratio → Bounded (run s es).ratio
unfolding run
run-step-Bounded s [] b = b
run-step-Bounded s (e ∷ es) b = run-step-Bounded (step s e) es (step-Bounded s e b)

-- Whatever the sizes of the photo, one of which may be 0, and in whatever order the browser reports on it, the field
-- of a frame is never narrower than 3:4, never wider than 4:3, and its ratio is never `NaN` or infinite.
pub run-Bounded : (es : List FrameEvent) → Bounded (run initial es).ratio
unfolding initial
run-Bounded es = run-step-Bounded initial es (omega arith, omega arith, omega arith)

-- A photo whose own shape lies between 3:4 and 4:3 gets a field of that shape.
pub own_shape :
    (s : Frame) (w h : ℕ)
    → 0 < w
    → 3 * h ≤ 4 * w
    → 3 * w ≤ 4 * h
    → (handle_loaded w h s).ratio.over * h ≡ w * (handle_loaded w h s).ratio.under
unfolding handle_loaded
own_shape s w h p lo hi = ground arith
