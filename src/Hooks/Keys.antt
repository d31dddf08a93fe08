-- ===== src/Hooks/Keys.antt =====
-- Which queries a key covers, and that queries do not share keys.
use punah_pustak.Common.{
  Option, some, none, if◌then◌else◌, ap, ◌∙◌, String, Bool, true, false, ◌&&◌, ◌==◌, ◌≡◌, refl,
  List, [], ◌∷◌, arith, All,
}
use punah_pustak.Hooks.{
  Segment, name, object, Query, browse, detail, mine, my_summary, admin_users, admin_listings,
  query_key, Mutation, create_listing, update_listing, delete_listing, mark_listing_sold,
  upload_listing_images, suspend_user, reinstate_user, reset_user_password, remove_listing,
  update_own_profile, invalidated, invalidates, any_covers, listing_lists,
}

module _ {A : Type 0} where
  abbrev same_name : Segment A → Segment A → Bool
  same_name (name a) (name b) = a == b
  same_name _ _ = false

  -- The key `k`, of names only, starts the key `key`.
  abbrev pub starts : List (Segment A) → List (Segment A) → Bool
  starts [] key = true
  starts (k ∷ ks) [] = false
  starts (k ∷ ks) (s ∷ ss) = same_name k s && starts ks ss

  abbrev pub IsName : Segment A → Type 0
  IsName (name _) = Unit
  IsName (object _) = ⊥

  -- The query that a key is of.
  abbrev of_names : String → String → Option (Query A)
  of_names a b = if a == "listings" && b == "mine" then some mine else none

  abbrev of_name : String → String → String → Option (Query A)
  of_name a b c =
      if b == "detail" then some (detail c) else if b == "mine" then some my_summary else none

  abbrev of_object : String → String → A → Option (Query A)
  of_object a b f =
      if a == "listings"
      then some (browse f)
      else if b == "users"
      then some (admin_users f)
      else some (admin_listings f)

  abbrev query_of_key : List (Segment A) → Option (Query A)
  query_of_key (name a ∷ name b ∷ []) = of_names a b
  query_of_key (name a ∷ name b ∷ name c ∷ []) = of_name a b c
  query_of_key (name a ∷ name b ∷ object f ∷ []) = of_object a b f
  query_of_key _ = none

  query_of_key-query_key : (q : Query A) → query_of_key (query_key q) ≡ some q
  unfolding query_key
  query_of_key-query_key (browse f) = refl
  query_of_key-query_key (detail id) = refl
  query_of_key-query_key mine = refl
  query_of_key-query_key my_summary = refl
  query_of_key-query_key (admin_users p) = refl
  query_of_key-query_key (admin_listings p) = refl

  -- Two queries have the same key exactly where they are the same query with the same parameters.
  pub query_key_injective : (q r : Query A) → query_key q ≡ query_key r → q ≡ r
  query_key_injective q r h =
      cc (query_of_key-query_key q, query_of_key-query_key r, ap query_of_key h)

  -- What a mutation invalidates, query by query.
  abbrev pub is_invalidated : Mutation → Query A → Bool
  is_invalidated (upload_listing_images id) (detail j) = id == j
  is_invalidated (update_listing id) (detail j) = id == j
  is_invalidated (delete_listing id) (detail j) = id == j
  is_invalidated (mark_listing_sold id) (detail j) = id == j
  is_invalidated create_listing (browse _) = true
  is_invalidated create_listing mine = true
  is_invalidated create_listing my_summary = true
  is_invalidated (update_listing _) (browse _) = true
  is_invalidated (update_listing _) mine = true
  is_invalidated (update_listing _) my_summary = true
  is_invalidated (delete_listing _) (browse _) = true
  is_invalidated (delete_listing _) mine = true
  is_invalidated (delete_listing _) my_summary = true
  is_invalidated (mark_listing_sold _) (browse _) = true
  is_invalidated (mark_listing_sold _) mine = true
  is_invalidated (mark_listing_sold _) my_summary = true
  is_invalidated suspend_user (admin_users _) = true
  is_invalidated reinstate_user (admin_users _) = true
  is_invalidated remove_listing (admin_listings _) = true
  is_invalidated _ _ = false

  by_starts :
      (m : Mutation) (q : Query A)
      → any_covers starts (invalidated m) (query_key q) ≡ is_invalidated m q
  unfolding invalidated query_key
  by_starts m q = ground arith

  module _ (covers : List (Segment A) → List (Segment A) → Bool)
      (documented : (k key : List (Segment A)) → All IsName k → covers k key ≡ starts k key) where
    any_covers-starts :
        (ks : List (List (Segment A))) (key : List (Segment A))
        → All (λ k. All IsName k) ks
        → any_covers covers ks key ≡ any_covers starts ks key
    any_covers-starts [] key h = refl
    any_covers-starts (k ∷ ks) key h = rw (documented k key h.0, any_covers-starts ks key h.1) refl

    lists_are_names : All (λ k. All IsName k) (listing_lists {A = A})
    lists_are_names = ((tt, (tt, tt)), ((tt, (tt, tt)), ((tt, (tt, (tt, tt))), tt)))

    invalidated_are_names : (m : Mutation) → All (λ k. All IsName k) (invalidated {A = A} m)
    unfolding invalidated
    invalidated_are_names create_listing = lists_are_names
    invalidated_are_names (update_listing id) = ((tt, (tt, (tt, tt))), lists_are_names)
    invalidated_are_names (delete_listing id) = ((tt, (tt, (tt, tt))), lists_are_names)
    invalidated_are_names (mark_listing_sold id) = ((tt, (tt, (tt, tt))), lists_are_names)
    invalidated_are_names (upload_listing_images id) = ((tt, (tt, (tt, tt))), tt)
    invalidated_are_names suspend_user = ((tt, (tt, tt)), tt)
    invalidated_are_names reinstate_user = ((tt, (tt, tt)), tt)
    invalidated_are_names reset_user_password = tt
    invalidated_are_names remove_listing = ((tt, (tt, tt)), tt)
    invalidated_are_names update_own_profile = tt

    -- Where the library matches a key of names with every key that it starts, each mutation invalidates exactly the
    -- queries of the table: the lists of listings for what changes the record of one, the page of the listing that it
    -- names, the users for a suspension or its end, the moderated listings for a removal, and nothing else.
    pub invalidates-is_invalidated :
        (m : Mutation) (q : Query A) → invalidates covers m q ≡ is_invalidated m q
    unfolding invalidates
    invalidates-is_invalidated m q =
        any_covers-starts (invalidated m) (query_key q) (invalidated_are_names m) ∙ by_starts m q
