-- ===== src/Listings.antt =====
-- frontend/src/lib/listingLabels.ts and the listing types of frontend/src/api/schema.ts: what a
-- listing is, and the words and scores that the pages show for its enums.
pub mod Labels
pub mod Formats
pub mod Samples
mod Tests
use punah_pustak.Common.{ℕ, String, Option, Dict, List, [], ◌∷◌, Bool, true, false}

pub data Category : Type 0 where
  fiction non_fiction academic_textbook children comics_graphic_novels other : Category

-- Best first, which is also the order in which filters list them.
pub data Condition : Type 0 where
  new like_new good fair poor : Condition

pub data Status : Type 0 where
  available sold deleted : Status

pub record ListingImage : Type 0 where
  pub id : String
  pub url : String
  pub position : ℕ

-- `ListingPublic`, without `seller_other_listings` (a list of listings). Times are ISO texts.
pub record Listing : Type 0 where
  pub id : String
  pub owner_id : String
  pub title : String
  pub author : String
  pub description : String
  pub category : Category
  pub condition : Condition
  pub price : String
  pub status : Status
  pub images : List ListingImage
  pub seller_display_name : String
  pub seller_member_since : Option String
  pub seller_active_listings_count : Option ℕ
  pub created_at : String
  pub updated_at : String
  pub sold_at : Option String

abbrev pub is_available : Status → Bool
is_available available = true
is_available sold = false
is_available deleted = false

abbrev pub is_sold : Status → Bool
is_sold available = false
is_sold sold = true
is_sold deleted = false

abbrev pub is_deleted : Status → Bool
is_deleted available = false
is_deleted sold = false
is_deleted deleted = true

-- The labels are objects, keyed by the enums' values.
abbrev pub category_labels : Dict String
category_labels =
    ("fiction", "Fiction")
    ∷ ("non_fiction", "Non-fiction")
    ∷ ("academic_textbook", "Academic textbook")
    ∷ ("children", "Children's")
    ∷ ("comics_graphic_novels", "Comics & graphic novels")
    ∷ ("other", "Other")
    ∷ []

abbrev pub condition_labels : Dict String
condition_labels =
    ("new", "New")
    ∷ ("like_new", "Like new")
    ∷ ("good", "Good")
    ∷ ("fair", "Fair")
    ∷ ("poor", "Poor")
    ∷ []

-- The value of an enum, as it stands in JSON and in a URL.
abbrev pub category_value : Category → String
category_value fiction = "fiction"
category_value non_fiction = "non_fiction"
category_value academic_textbook = "academic_textbook"
category_value children = "children"
category_value comics_graphic_novels = "comics_graphic_novels"
category_value other = "other"

abbrev pub condition_value : Condition → String
condition_value new = "new"
condition_value like_new = "like_new"
condition_value good = "good"
condition_value fair = "fair"
condition_value poor = "poor"

abbrev pub condition_description : Condition → String
condition_description new = "Unread. No marks, wear, or damage."
condition_description like_new = "Read, but shows almost no wear."
condition_description good =
    "Normal signs of reading, like a creased spine or shelf wear. Complete and clean."
condition_description fair =
    "Heavily read: worn cover, markings, or yellowed pages. Complete and readable."
condition_description poor = "Significant wear or damage. Check the description before buying."

abbrev pub status_label : Status → String
status_label available = "Available"
status_label sold = "Sold"
status_label deleted = "Removed"

pub data BadgeTone : Type 0 where
  success neutral danger : BadgeTone

abbrev pub status_tone : Status → BadgeTone
status_tone available = success
status_tone sold = neutral
status_tone deleted = danger

abbrev pub condition_score : Condition → ℕ
condition_score new = 5
condition_score like_new = 4
condition_score good = 3
condition_score fair = 2
condition_score poor = 1

abbrev pub conditions_best_first : List Condition
conditions_best_first = new ∷ like_new ∷ good ∷ fair ∷ poor ∷ []
