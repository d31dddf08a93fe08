-- ===== src/Pages/MyListings/Ledger.antt =====
-- The counts of the status tabs and the rows below them.
use punah_pustak.Common.{◌+◌, List, [], ◌∷◌, ◌≡◌, refl, length, select, arith}
use punah_pustak.Listings.{Listing, available, sold, deleted}
use punah_pustak.Pages.MyListings.{StatusFilter, all, only, has_status, count_of, visible}

statuses_split :
    (ls : List Listing)
    → length ls
      ≡ length (select (has_status available) ls)
        + length (select (has_status sold) ls)
        + length (select (has_status deleted) ls)
statuses_split [] = refl
statuses_split (l ∷ ls) = ground (arith, statuses_split ls)

-- The tab "All" counts as many listings as the tabs of the three statuses together, and below each tab stand as many
-- rows as it counts.
pub tabs_add_up :
    (ls : List Listing) (f : StatusFilter)
    → (count_of ls all
        ≡ count_of ls (only available) + count_of ls (only sold) + count_of ls (only deleted))
      × (length (visible ls f) ≡ count_of ls f)
unfolding count_of visible
tabs_add_up ls all = (statuses_split ls, refl)
tabs_add_up ls (only s) = (statuses_split ls, refl)
