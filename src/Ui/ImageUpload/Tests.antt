-- ===== src/Ui/ImageUpload/Tests.antt =====
-- The image field on concrete selections.
use punah_pustak.Common.{ℕ, ◌≡◌, refl, List, [], ◌∷◌, length}
use punah_pustak.Ui.ImageUpload.{
  sync_previews, sync_all, empty_previews, unmount, keep_current, make_missing, revoke_others,
}
use punah_pustak.Ui.ImageUpload.Urls.{no_leak}

-- Files 1 and 2 are chosen, then 1 is removed and 3 added.
abbrev two_rounds : List (List ℕ)
two_rounds = (1 ∷ 2 ∷ []) ∷ (2 ∷ 3 ∷ []) ∷ []

second_cache :
    sync_all two_rounds empty_previews
    ≡ record { cache = (2, 1) ∷ (3, 2) ∷ []; next_url = 3; revoked = 0 ∷ [] }
unfolding sync_all sync_previews keep_current make_missing revoke_others
second_cache = refl

no_leak_example :
    let p = unmount (sync_all two_rounds empty_previews) in length p.revoked ≡ p.next_url
no_leak_example = no_leak two_rounds
