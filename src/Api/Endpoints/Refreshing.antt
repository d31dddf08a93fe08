-- ===== src/Api/Endpoints/Refreshing.antt =====
-- Which endpoints' 401 answers lead to a refresh of the access token.
use text.Mathlib.Text.{starts_with}
use text.Mathlib.TextPositions.{starts_with-append}
use punah_pustak.Common.{
  ℕ, ◌===◌, String, Bool, true, false, not, ◌&&◌, ◌≡◌, ◌==◌, refl, includes, eq_iff, arith, All,
  List, [], ◌∷◌,
}
use punah_pustak.Js.{◌⧺◌}
use punah_pustak.Api.Client.{no_retry_paths, may_refresh}
use punah_pustak.Api.Endpoints.{
  Call, listings, users, auth, admin, request, browse_listings, get_listing, create_listing,
  update_listing, delete_listing, mark_listing_sold, upload_listing_images, get_my_listings,
  get_own_profile, update_own_profile, change_own_password, get_own_listings_summary, register,
  login, logout, list_users, suspend_user, reinstate_user, reset_user_password, list_admin_listings,
  remove_listing,
}

-- Logging in and registering, where a 401 speaks of the credentials sent.
abbrev pub sends_credentials : {N J F : Type 0} → Call N J F → Bool
sends_credentials (auth (register _)) = true
sends_credentials (auth (login _)) = true
sends_credentials _ = false

module _ {N J F : Type 0} where
  abbrev pub call_path : Call N J F → String
  call_path c = (request c).path

-- A path that starts otherwise than `q` is not `q`.
starts_otherwise : (p s q : String) → starts_with q p ≡ false → (q == p ⧺ s) ≡ false
starts_otherwise p s q h = grind (arith, eq_iff q (p ⧺ s), starts_with-append p s)

not_among :
    (p s : String) (qs : List String)
    → All (λ q. starts_with q p ≡ false) qs
    → includes qs (p ⧺ s) ≡ false
not_among p s [] h = refl
not_among p s (q ∷ qs) h = rw (starts_otherwise p s q h.0, not_among p s qs h.1) refl

retried_listing : (s : String) → includes no_retry_paths ("/api/v1/listings/" ⧺ s) ≡ false
retried_listing s = not_among "/api/v1/listings/" s no_retry_paths (refl, (refl, (refl, tt)))

retried_user : (s : String) → includes no_retry_paths ("/api/v1/admin/users/" ⧺ s) ≡ false
retried_user s = not_among "/api/v1/admin/users/" s no_retry_paths (refl, (refl, (refl, tt)))

retried_removal : (s : String) → includes no_retry_paths ("/api/v1/admin/listings/" ⧺ s) ≡ false
retried_removal s = not_among "/api/v1/admin/listings/" s no_retry_paths (refl, (refl, (refl, tt)))

module _ {N J F : Type 0} where
  among : (c : Call N J F) → includes no_retry_paths (call_path c) ≡ sends_credentials c
  unfolding request
  among (listings (browse_listings _)) = refl
  among (listings (get_listing id)) = retried_listing id
  among (listings (create_listing _)) = refl
  among (listings (update_listing id _)) = retried_listing id
  among (listings (delete_listing id)) = retried_listing id
  among (listings (mark_listing_sold id)) = retried_listing (id ⧺ "/sold")
  among (listings (upload_listing_images id _)) = retried_listing (id ⧺ "/images")
  among (listings get_my_listings) = refl
  among (users get_own_profile) = refl
  among (users (update_own_profile _)) = refl
  among (users (change_own_password _)) = refl
  among (users get_own_listings_summary) = refl
  among (auth (register _)) = refl
  among (auth (login _)) = refl
  among (auth logout) = refl
  among (admin (list_users _)) = refl
  among (admin (suspend_user id _)) = retried_user (id ⧺ "/suspend")
  among (admin (reinstate_user id)) = retried_user (id ⧺ "/reinstate")
  among (admin (reset_user_password id)) = retried_user (id ⧺ "/reset-password")
  among (admin (list_admin_listings _ _)) = refl
  among (admin (remove_listing id _)) = retried_removal id

  -- Whatever ids and arguments a call of an endpoint has, an answer to it leads to a refresh of the access token exactly
  -- where its status is 401, it has not been retried, and the call is neither a login nor a registration.
  pub may_refresh-call_path :
      (c : Call N J F) (code : ℕ) (retry : Bool)
      → may_refresh code retry (call_path c)
        ≡ ((code === 401) && (retry && not (sends_credentials c)))
  may_refresh-call_path c code retry = rw (among c) refl
