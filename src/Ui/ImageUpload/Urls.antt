-- ===== src/Ui/ImageUpload/Urls.antt =====
-- The previews follow the selection, and no object URL is leaked.
use punah_pustak.Common.{
  ℕ, suc, ◌+◌, ◌<◌, ◌≡◌, refl, Bool, true, false, ◌||◌, some, List, [], ◌∷◌, ◌++◌, length,
  length-append, All, All-append, arith, if◌then◌else◌,
}
use punah_pustak.Ui.ImageUpload.{
  includes_file, cached, Previews, keep_current, revoke_others, make_missing, sync_previews,
  sync_all, empty_previews, revoke_all, unmount, is_full, max_images_per_listing, handle_drop,
}

cached-append : (c d : List (ℕ × ℕ)) (f : ℕ) → cached (c ++ d) f ≡ (cached c f || cached d f)
cached-append [] d f = refl
cached-append ((g, u) ∷ c) d f = ground (arith, cached-append c d f)

-- What is cached stays cached while URLs are made.
make_missing-cached :
    (fs : List ℕ) (c : List (ℕ × ℕ)) (n f : ℕ)
    → cached c f ≡ true
    → cached (make_missing fs c n).0 f ≡ true
unfolding make_missing
make_missing-cached [] c n f h = h
make_missing-cached (g ∷ fs) c n f h =
    make_missing-cached fs _ _ f (ground (arith, cached-append c ((g, n) ∷ []) f))

make_missing-covers :
    (fs : List ℕ) (c : List (ℕ × ℕ)) (n : ℕ) → All (λ f. cached (make_missing fs c n).0 f ≡ true) fs
unfolding make_missing
make_missing-covers [] c n = tt
make_missing-covers (g ∷ fs) c n = (
  make_missing-cached fs _ _ g (ground (arith, cached-append c ((g, n) ∷ []) g)),
  make_missing-covers fs _ _,
)

abbrev pub Among : List ℕ → List (ℕ × ℕ) → Type 0
Among files c = All (λ (e : ℕ × ℕ). includes_file files e.0 ≡ true) c

keep_current-Among : (files : List ℕ) (c : List (ℕ × ℕ)) → Among files (keep_current files c)
unfolding keep_current
keep_current-Among files [] = tt
keep_current-Among files ((f, u) ∷ c) = ground (arith, keep_current-Among files c)

Among-if :
    (files : List ℕ) (b : Bool) (c d : List (ℕ × ℕ))
    → Among files c
    → Among files d
    → Among files (if b then c else d)
Among-if files true c d h k = h
Among-if files false c d h k = k

make_missing-Among :
    (files fs : List ℕ) (c : List (ℕ × ℕ)) (n : ℕ)
    → All (λ f. includes_file files f ≡ true) fs
    → Among files c
    → Among files (make_missing fs c n).0
unfolding make_missing
make_missing-Among files [] c n h k = k
make_missing-Among files (g ∷ fs) c n h k =
    make_missing-Among files fs _ _ h.1
      (Among-if files (cached c g) c _ k (All-append _ c _ k (h.0, tt)))

includes_weaken :
    (g : ℕ) (files fs : List ℕ)
    → All (λ f. includes_file files f ≡ true) fs
    → All (λ f. includes_file (g ∷ files) f ≡ true) fs
includes_weaken g files [] h = tt
includes_weaken g files (f ∷ fs) h = (ground (arith, h.0), includes_weaken g files fs h.1)

includes_self : (files : List ℕ) → All (λ f. includes_file files f ≡ true) files
includes_self [] = tt
includes_self (f ∷ fs) = (ground arith, includes_weaken f fs fs (includes_self fs))

-- After the effect has run for a selection of files, every selected file has a preview and every
-- preview is of a selected file, whatever was cached before.
pub previews_match :
    (files : List ℕ) (p : Previews)
    → All (λ f. cached (sync_previews files p).cache f ≡ true) files
      × Among files (sync_previews files p).cache
unfolding sync_previews
previews_match files p = (
  make_missing-covers files _ _,
  make_missing-Among files files _ _ (includes_self files) (keep_current-Among files p.cache),
)

keep_revoke :
    (files : List ℕ) (c : List (ℕ × ℕ)) (r : List ℕ)
    → length (keep_current files c) + length (revoke_others files c r) ≡ length c + length r
unfolding keep_current revoke_others
keep_revoke files [] r = refl
keep_revoke files ((f, u) ∷ c) r =
    ground (arith, keep_revoke files c r, keep_revoke files c (u ∷ r))

make_missing_account :
    (fs : List ℕ) (c : List (ℕ × ℕ)) (n : ℕ)
    → (make_missing fs c n).1 + length c ≡ n + length (make_missing fs c n).0
unfolding make_missing
make_missing_account [] c n = refl
make_missing_account (g ∷ fs) c n = ground (
  arith,
  make_missing_account fs c n,
  make_missing_account fs (c ++ (g, n) ∷ []) (suc n),
  length-append c ((g, n) ∷ []),
)

-- Every URL ever made is in the cache or has been revoked.
abbrev IsAccounted : Previews → Type 0
IsAccounted p = p.next_url ≡ length p.cache + length p.revoked

sync_previews-IsAccounted :
    (files : List ℕ) (p : Previews) → IsAccounted p → IsAccounted (sync_previews files p)
unfolding sync_previews
sync_previews-IsAccounted files p h = omega (
  arith,
  keep_revoke files p.cache p.revoked,
  make_missing_account files (keep_current files p.cache) p.next_url,
)

sync_all-IsAccounted :
    (fss : List (List ℕ)) (p : Previews) → IsAccounted p → IsAccounted (sync_all fss p)
unfolding sync_all
sync_all-IsAccounted [] p h = h
sync_all-IsAccounted (fs ∷ fss) p h =
    sync_all-IsAccounted fss (sync_previews fs p) (sync_previews-IsAccounted fs p h)

length-revoke_all : (c : List (ℕ × ℕ)) (r : List ℕ) → length (revoke_all c r) ≡ length c + length r
length-revoke_all [] r = omega arith
length-revoke_all ((f, u) ∷ c) r = omega (arith, length-revoke_all c (u ∷ r))

-- Over any selections of files, once the field has unmounted as many URLs have been revoked as were
-- made.
pub no_leak :
    (fss : List (List ℕ))
    → let p = unmount (sync_all fss empty_previews) in length p.revoked ≡ p.next_url
unfolding unmount
no_leak fss = omega (
  arith,
  sync_all-IsAccounted fss empty_previews refl,
  length-revoke_all (sync_all fss empty_previews).cache (sync_all fss empty_previews).revoked,
)

-- A drop is refused when the listing is full, but one selection may pass the limit: while there is
-- room left, a drop of more files than there is room for is taken whole.
pub drop_may_overfill :
    (existing : ℕ) (files dropped chosen : List ℕ)
    → is_full existing files ≡ false
    → handle_drop existing files dropped ≡ some chosen
    → max_images_per_listing < existing + length files + length dropped
    → (chosen ≡ files ++ dropped) × (max_images_per_listing < existing + length chosen)
unfolding handle_drop
drop_may_overfill existing files [] chosen h e o = ground arith
drop_may_overfill existing files (f ∷ fs) chosen h e o =
    ground (arith, length-append files (f ∷ fs))
