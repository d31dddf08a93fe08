-- ===== src/Ui/ImageUpload.antt =====
-- frontend/src/components/ImageUploadField.tsx: the chosen files and the object URLs of their
-- previews. A `File` is an object, known by its identity (a number).
pub mod Urls
pub mod Screen
mod Tests
use punah_pustak.Common.{
  ℕ, zero, suc, ◌+◌, ◌≤◌, ◌===◌, leb, ltb, String, Bool, true, false, not, ◌||◌, Option, none, some,
  List, [], ◌∷◌, ◌++◌, length, if◌then◌else◌,
}

abbrev pub max_images_per_listing : ℕ
max_images_per_listing = 6

-- `remaining <= 0`, where `remaining` is the difference of the source, which may be negative.
abbrev pub is_full : ℕ → List ℕ → Bool
is_full existing files = leb max_images_per_listing (existing + length files)

-- The argument of `onFilesChange`, `none` where it is not called.
unfoldable pub add_files : List ℕ → List ℕ → Option (List ℕ)
add_files files [] = none
add_files files (f ∷ fs) = some (files ++ f ∷ fs)

-- `handleDrop`; `handleSelect` is `add_files`.
unfoldable pub handle_drop : ℕ → List ℕ → List ℕ → Option (List ℕ)
unfolding add_files
handle_drop existing files dropped =
    if is_full existing files then none else add_files files dropped

-- `files.filter((_, i) => i !== index)`
unfoldable pub remove_file : List ℕ → ℕ → List ℕ
remove_file [] i = []
remove_file (f ∷ fs) zero = fs
remove_file (f ∷ fs) (suc i) = f ∷ remove_file fs i

abbrev pub includes_file : List ℕ → ℕ → Bool
includes_file [] f = false
includes_file (g ∷ fs) f = (g === f) || includes_file fs f

-- `previewUrls.current`, with the URLs ever made and ever revoked. URLs are numbered as they are made.
pub record Previews : Type 0 where
  pub cache : List (ℕ × ℕ)
  pub next_url : ℕ
  pub revoked : List ℕ

abbrev pub cached : List (ℕ × ℕ) → ℕ → Bool
cached [] f = false
cached ((g, _) ∷ c) f = (g === f) || cached c f

-- The first loop of the effect: entries whose file is gone are revoked and deleted.
unfoldable pub keep_current : List ℕ → List (ℕ × ℕ) → List (ℕ × ℕ)
keep_current files [] = []
keep_current files ((f, url) ∷ c) =
    let rest = keep_current files c in if includes_file files f then (f, url) ∷ rest else rest

unfoldable pub revoke_others : List ℕ → List (ℕ × ℕ) → List ℕ → List ℕ
revoke_others files [] revoked = revoked
revoke_others files ((f, url) ∷ c) revoked =
    revoke_others files c (if includes_file files f then revoked else url ∷ revoked)

-- The second loop: a URL for each file that has none.
unfoldable pub make_missing : List ℕ → List (ℕ × ℕ) → ℕ → List (ℕ × ℕ) × ℕ
make_missing [] c next = (c, next)
make_missing (f ∷ fs) c next =
    make_missing fs (if cached c f then c else c ++ (f, next) ∷ [])
      (if cached c f then next else suc next)

-- The effect on `[files]`.
unfoldable pub sync_previews : List ℕ → Previews → Previews
sync_previews files p =
    let (c, next) = make_missing files (keep_current files p.cache) p.next_url in
    record { cache = c; next_url = next; revoked = revoke_others files p.cache p.revoked }

abbrev pub revoke_all : List (ℕ × ℕ) → List ℕ → List ℕ
revoke_all [] revoked = revoked
revoke_all ((f, url) ∷ c) revoked = revoke_all c (url ∷ revoked)

-- The field mounts, then shows one selection of files after another.
abbrev pub empty_previews : Previews
empty_previews = record { cache = []; next_url = 0; revoked = [] }

unfoldable pub sync_all : List (List ℕ) → Previews → Previews
sync_all [] p = p
sync_all (files ∷ rest) p = sync_all rest (sync_previews files p)

-- The cleanup at unmount.
unfoldable pub unmount : Previews → Previews
unmount p = record p { revoked = revoke_all p.cache p.revoked }
