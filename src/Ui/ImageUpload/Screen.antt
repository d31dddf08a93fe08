-- ===== src/Ui/ImageUpload/Screen.antt =====
-- What frontend/src/components/ImageUploadField.tsx renders. The system's file chooser and a drop of files are not part
-- of the view: their files come to `add_files` and `handle_drop`.
use punah_pustak.Common.{
  ℕ, suc, ◌+◌, ◌-◌, ◌*◌, ltb, String, Bool, false, not, Option, List, [], ◌∷◌, ◌++◌, length,
  if◌then◌else◌, ◌===◌,
}
use punah_pustak.Js.{◌⧺◌}
use punah_pustak.Ui.View.{View, text, counts, image, button, when}
use punah_pustak.Ui.Parts.{error_alert}
use punah_pustak.Ui.ImageUpload.{is_full, max_images_per_listing}

abbrev pub max_image_size_bytes : ℕ
max_image_size_bytes = 5 * 1024 * 1024

-- What the field reads of a `File`.
pub record FileFacts : Type 0 where
  pub name : ℕ → String
  pub size : ℕ → ℕ

pub data PhotoEvent : Type 0 where
  choose_files : PhotoEvent
  remove : ℕ → PhotoEvent

-- `previewUrls.current.get(file)`, as the text of the URL.
abbrev preview_url : (ℕ → String) → List (ℕ × ℕ) → ℕ → String
preview_url url_text [] f = ""
preview_url url_text ((g, url) ∷ c) f =
    let rest = preview_url url_text c f in if g === f then url_text url else rest

module _ (facts : FileFacts) (url_text : ℕ → String) (cache : List (ℕ × ℕ)) where
  open facts use {name, size}

  abbrev too_large : ℕ → Bool
  too_large f = ltb max_image_size_bytes (size f)

  -- The chosen files from the index `i` on.
  abbrev pub file_rows : ℕ → List ℕ → View PhotoEvent
  file_rows i [] = []
  file_rows i (f ∷ fs) =
      image (preview_url url_text cache f) (name f)
      ∷ (when (too_large f) (text "Too large" ∷ [])
          ++ (button ("Remove " ⧺ name f) false (remove i) ∷ file_rows (suc i) fs))

  unfoldable pub image_field : (existing : ℕ) → List ℕ → Option String → View PhotoEvent
  image_field existing files error =
      text (if is_full existing files then "Photo limit reached" else "Add a photo of your copy")
      ∷ (when (not (is_full existing files)) (
            text "Choose files or drop them here. The first photo is the one buyers see first."
            ∷ [])
          ++ (button "Choose files" (is_full existing files) choose_files
              ∷ counts
                  "JPEG, PNG, or WebP, up to 5 MB each. {} more can be added ({} total per listing)."
                  ((max_images_per_listing - (existing + length files))
                    ∷ max_images_per_listing
                    ∷ [])
              ∷ (file_rows 0 files ++ error_alert error)))
