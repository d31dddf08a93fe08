-- ===== src/Ui/PhotoFrame.antt =====
-- frontend/src/components/PhotoFrame.tsx and NoCoverPlaceholder.tsx: the states of a photo, and the shape of its field.
-- Ratios are exact fractions here, of which `0 / 0` is `NaN`; a photo's sizes are in pixels.
pub mod Shape
mod Tests
use punah_pustak.Common.{
  ℕ, zero, ◌*◌, ◌===◌, leb, String, Bool, true, false, ◌&&◌, Option, none, some, List, [], ◌∷◌,
  ◌++◌, if◌then◌else◌,
}
use punah_pustak.Ui.View.{View, text, image, when}

pub data Loading : Type 0 where
  loading loaded failed : Loading

-- Over `under`: `width / height`.
pub record Ratio : Type 0 where
  pub over : ℕ
  pub under : ℕ

abbrev pub stage_min_ratio : Ratio
stage_min_ratio = record { over = 3; under = 4 }

abbrev pub stage_max_ratio : Ratio
stage_max_ratio = record { over = 4; under = 3 }

abbrev pub at_most : Ratio → Ratio → Bool
at_most a b = leb (a.over * b.under) (b.over * a.under)

abbrev pub is_nan : Ratio → Bool
is_nan r = (r.over === 0) && (r.under === 0)

-- `Math.max` and `Math.min`, which are `NaN` if an argument is; a height of 0 below another number stands for the
-- quotient's infinity.
abbrev pub larger : Ratio → Ratio → Ratio
larger a b = if is_nan a then a else if is_nan b then b else if at_most a b then b else a

abbrev pub smaller : Ratio → Ratio → Ratio
smaller a b = if is_nan a then a else if is_nan b then b else if at_most a b then a else b

pub record Frame : Type 0 where
  pub state : Loading
  pub ratio : Ratio

unfoldable pub initial : Frame
initial = record { state = loading; ratio = record { over = 1; under = 1 } }

unfoldable pub handle_loaded : (natural_width natural_height : ℕ) → Frame → Frame
handle_loaded natural_width natural_height s =
    if natural_width === 0 then record s { state = failed } else record s {
      state = loaded;
      ratio =
          smaller (larger (record { over = natural_width; under = natural_height }) stage_min_ratio)
            stage_max_ratio;
    }

pub data FrameEvent : Type 0 where
  -- the `ref` callback of a render, with `element.complete` and the sizes
  rendered : (complete : Bool) (natural_width natural_height : ℕ) → FrameEvent
  load : (natural_width natural_height : ℕ) → FrameEvent
  load_error : FrameEvent

abbrev pub is_loading : Loading → Bool
is_loading loading = true
is_loading loaded = false
is_loading failed = false

-- While the element is there: a frame that has failed renders the placeholder instead.
unfoldable pub on_element : Frame → FrameEvent → Frame
unfolding handle_loaded
on_element s (rendered complete w h) =
    if complete && is_loading s.state then handle_loaded w h s else s
on_element s (load w h) = handle_loaded w h s
on_element s load_error = record s { state = failed }

abbrev step_in : Loading → Frame → FrameEvent → Frame
step_in failed s e = s
step_in loading s e = on_element s e
step_in loaded s e = on_element s e

unfoldable pub step : Frame → FrameEvent → Frame
unfolding on_element
step s e = step_in s.state s e

unfoldable pub run : Frame → List FrameEvent → Frame
run s [] = s
run s (e ∷ es) = run (step s e) es

pub data Variant : Type 0 where
  grid thumb stage : Variant

-- What the placeholder says to all readers: where `announce` is false, its label is drawn but hidden from assistive
-- technology, and left out here. Title and author are drawn by the styles.
unfoldable pub no_cover : {E : Type 0} → Variant → (announce : Bool) → View E
no_cover thumb announce = when announce (text "No photo yet" ∷ [])
no_cover stage announce =
    when announce (text "No photo yet" ∷ [])
    ++ (text
          "The seller hasn't added a photo of this copy. Judge it by the condition grade and the seller's note."
        ∷ [])
no_cover grid announce = when announce (text "No photo yet" ∷ [])

abbrev shown :
    {E : Type 0} → Loading → Variant → (announce : Bool) → Option (String × String) → View E
shown state variant announce none = no_cover variant announce
shown failed variant announce (some i) = no_cover variant announce
shown loading variant announce (some (url, alt)) = image url alt ∷ []
shown loaded variant announce (some (url, alt)) = image url alt ∷ []

-- The frame of an image, its URL and its alternative text.
unfoldable pub photo_frame :
    {E : Type 0} → Frame → Variant → (announce : Bool) → Option (String × String) → View E
unfolding no_cover
photo_frame s variant announce i = shown s.state variant announce i
