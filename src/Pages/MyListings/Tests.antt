-- ===== src/Pages/MyListings/Tests.antt =====
-- A seller with two copies on sale, one sold and one removed.
use punah_pustak.Common.{List, [], ◌∷◌, ◌≡◌, refl}
use punah_pustak.Listings.{Listing, available, sold, deleted}
use punah_pustak.Listings.Samples.{book}
use punah_pustak.Pages.MyListings.{only, count_of}

abbrev four_books : List Listing
four_books = book available ∷ book sold ∷ book deleted ∷ book available ∷ []

two_on_sale : count_of four_books (only available) ≡ 2
unfolding count_of
two_on_sale = refl
