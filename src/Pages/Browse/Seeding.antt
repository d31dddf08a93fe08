-- ===== src/Pages/Browse/Seeding.antt =====
-- How the URL seeds the browse page, and what it lets through.
use punah_pustak.Common.{
  ◌==◌, ◌≡◌, refl, inl, inr, String, true, none, some, List, [], ◌∷◌, Dict, lookup, includes,
  truthy, All, eq_iff, Bool-cases, subst,
}
use punah_pustak.Js.{Numbers}
use punah_pustak.Listings.{category_labels}
use punah_pustak.Pages.Browse.{
  category_from_params, prototype_keys, has_key, choice_from, mount, browse_query,
}

module _ (P : String → Type 0) where
  All-includes : (xs : List String) (k : String) → includes xs k ≡ true → All P xs → P k
  All-includes [] k h a = cc
  All-includes (x ∷ xs) k h a = elim (Bool-cases (x == k)) [
    | inl same ↦ subst P ((eq_iff x k).0 same) a.0
    | inr other ↦ All-includes xs k (rw other at h) a.1
  ]

choice_of :
    (labels : Dict String) (v : String)
    → truthy v ≡ true
    → has_key v labels ≡ true
    → choice_from labels (some v) ≡ v
choice_of labels v t h = rw (t, h) refl

-- What the inherited keys have in common.
abbrev IsUnlabelled : String → Type 0
IsUnlabelled k =
    (truthy k ≡ true) × (has_key k category_labels ≡ true) × (lookup k category_labels ≡ none)

all-IsUnlabelled : All IsUnlabelled prototype_keys
all-IsUnlabelled = (
  (refl, refl, refl),
  (
    (refl, refl, refl),
    (
      (refl, refl, refl),
      (
        (refl, refl, refl),
        (
          (refl, refl, refl),
          (
            (refl, refl, refl),
            (
              (refl, refl, refl),
              (
                (refl, refl, refl),
                (
                  (refl, refl, refl),
                  ((refl, refl, refl), ((refl, refl, refl), ((refl, refl, refl), tt))),
                ),
              ),
            ),
          ),
        ),
      ),
    ),
  ),
)

-- `in` also finds what objects inherit. The name of any member of `Object.prototype` in the URL is
-- seeded as the category and sent to the API, though it has no label.
pub inherited_category :
    (js : Numbers) (params : Dict String) (k : String)
    → lookup "category" params ≡ some k
    → includes prototype_keys k ≡ true
    → ((mount js params).category ≡ k)
      × (lookup k category_labels ≡ none)
      × ((browse_query js (mount js params)).category ≡ some k)
unfolding mount browse_query
inherited_category js params k e h =
    let (named, found, unlabelled) =
      All-includes IsUnlabelled prototype_keys k h all-IsUnlabelled in
    let chosen : category_from_params params ≡ k =
      unfold category_from_params in rw e (choice_of category_labels k named found) in
    (chosen, unlabelled, rw (chosen, named) refl)
