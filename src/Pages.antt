-- ===== src/Pages.antt =====
-- frontend/src/pages.
pub mod Browse
pub mod CreateListing
pub mod EditListing
pub mod Account
pub mod Home
pub mod Profile
pub mod AdminUsers
pub mod AdminListings
pub mod ListingDetail
pub mod MyListings
