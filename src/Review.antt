-- ===== src/Review.antt =====
-- The checks on the findings of a review: app/review/validator.py.
pub mod Finding
pub mod Evidence
pub mod Path
pub mod Anchor
pub mod Fingerprint
pub mod Validate
pub mod Catalog
pub mod Settings
pub mod Passes
