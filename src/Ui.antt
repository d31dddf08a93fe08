-- ===== src/Ui.antt =====
-- frontend/src/components and frontend/src/lib: the parts that the pages share.
pub mod Controls
pub mod View
pub mod Parts
mod Tests
pub mod FormErrors
pub mod Pagination
pub mod ListingForm
pub mod PasswordForm
pub mod PhotoFrame
pub mod ListingCard
pub mod ImageUpload
pub mod Debounce
pub mod MediaQuery
pub mod Modal
