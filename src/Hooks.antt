-- ===== src/Hooks.antt =====
-- frontend/src/hooks/useListings.ts and useAdmin.ts: the keys under which queries are cached, and what
-- each mutation invalidates. `A` is the type of the parameter objects, which a key holds as they are.
--
-- `invalidateQueries` is TanStack Query's; which cached keys a given key covers is the parameter
-- `covers` of `invalidates`.
pub mod Keys
pub mod Cache
mod Tests
use punah_pustak.Common.{String, Bool, true, false, ◌||◌, List, [], ◌∷◌, ◌++◌}

pub data Segment (A : Type 0) : Type 0 where
  name : String → Segment A
  object : A → Segment A

-- The `useQuery` hooks.
pub data Query (A : Type 0) : Type 0 where
  browse : A → Query A
  detail : String → Query A
  mine : Query A
  my_summary : Query A
  admin_users : A → Query A
  admin_listings : A → Query A

-- The `useMutation` hooks, with the arguments that their `onSuccess` reads.
pub data Mutation : Type 0 where
  create_listing : Mutation
  update_listing : String → Mutation
  delete_listing : String → Mutation
  mark_listing_sold : String → Mutation
  upload_listing_images : String → Mutation
  suspend_user reinstate_user reset_user_password remove_listing update_own_profile : Mutation

module _ {A : Type 0} where
  -- `adminKeys`
  abbrev users_key : A → List (Segment A)
  users_key params = name "admin" ∷ name "users" ∷ object params ∷ []

  abbrev moderated_key : A → List (Segment A)
  moderated_key params = name "admin" ∷ name "listings" ∷ object params ∷ []

  -- What the mutations of an administrator invalidate.
  abbrev user_lists : List (List (Segment A))
  user_lists = (name "admin" ∷ name "users" ∷ []) ∷ []

  abbrev moderated_lists : List (List (Segment A))
  moderated_lists = (name "admin" ∷ name "listings" ∷ []) ∷ []

  -- `listingKeys` and `adminKeys`
  unfoldable pub query_key : Query A → List (Segment A)
  query_key (browse filters) = name "listings" ∷ name "browse" ∷ object filters ∷ []
  query_key (detail id) = name "listings" ∷ name "detail" ∷ name id ∷ []
  query_key mine = name "listings" ∷ name "mine" ∷ []
  query_key my_summary = name "listings" ∷ name "mine" ∷ name "summary" ∷ []
  query_key (admin_users params) = users_key params
  query_key (admin_listings params) = moderated_key params

  -- `invalidateListingLists`
  abbrev pub listing_lists : List (List (Segment A))
  listing_lists =
      (name "listings" ∷ name "browse" ∷ [])
      ∷ (name "listings" ∷ name "mine" ∷ [])
      ∷ (name "listings" ∷ name "mine" ∷ name "summary" ∷ [])
      ∷ []

  abbrev detail_key : String → List (Segment A)
  detail_key id = name "listings" ∷ name "detail" ∷ name id ∷ []

  -- The keys that `onSuccess` of each mutation invalidates.
  unfoldable pub invalidated : Mutation → List (List (Segment A))
  invalidated create_listing = listing_lists
  invalidated (update_listing id) = detail_key id ∷ listing_lists
  invalidated (delete_listing id) = detail_key id ∷ listing_lists
  invalidated (mark_listing_sold id) = detail_key id ∷ listing_lists
  invalidated (upload_listing_images id) = detail_key id ∷ []
  invalidated suspend_user = user_lists
  invalidated reinstate_user = user_lists
  invalidated reset_user_password = []
  invalidated remove_listing = moderated_lists
  invalidated update_own_profile = []

  abbrev pub any_covers :
      (List (Segment A) → List (Segment A) → Bool)
      → List (List (Segment A))
      → List (Segment A)
      → Bool
  any_covers covers [] key = false
  any_covers covers (k ∷ ks) key = covers k key || any_covers covers ks key

  unfoldable pub invalidates :
      (List (Segment A) → List (Segment A) → Bool) → Mutation → Query A → Bool
  unfolding query_key invalidated
  invalidates covers m q = any_covers covers (invalidated m) (query_key q)
