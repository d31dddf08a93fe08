-- ===== src/Hooks/Tests.antt =====
-- Runs and instances for the theorems about the hooks.
use punah_pustak.Common.{
  true, ℕ, suc, ◌+◌, ◌==◌, String, false, if◌then◌else◌, ◌≡◌, refl, List, [], ◌∷◌, map,
}
use punah_pustak.Hooks.{
  Query, browse, detail, Mutation, update_listing, delete_listing, mark_listing_sold, invalidates,
}
use punah_pustak.Hooks.Keys.{starts}
use punah_pustak.Hooks.Cache.{Event, fetch, done, World, run}

-- A server that counts the changes of each listing.
abbrev Counts : Type 0
Counts = String → ℕ

abbrev answer : Counts → Query ℕ → ℕ
answer s (detail j) = s j
answer s _ = s "7" + s "8"

abbrev bump : String → Counts → Counts
bump id s k = if id == k then suc (s k) else s k

abbrev apply : Mutation → Counts → Counts
apply (update_listing id) s = bump id s
apply (delete_listing id) s = bump id s
apply (mark_listing_sold id) s = bump id s
apply _ s = s

abbrev events : List (Event ℕ)
events =
    fetch (browse 1)
    ∷ fetch (detail "7")
    ∷ fetch (detail "8")
    ∷ done (update_listing "7")
    ∷ fetch (browse 1)
    ∷ []

abbrev start : World ℕ Counts ℕ
start = record { server = (λ _. 0); entries = [] }

stale_after_update :
    map (λ e. e.is_stale) (run starts answer apply events start).entries
    ≡ false ∷ false ∷ true ∷ true ∷ []
unfolding invalidates
stale_after_update = refl
