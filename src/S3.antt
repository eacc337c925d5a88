-- ===== src/S3.antt =====
-- backend/s3: the backend for object stores.
pub mod Client
pub mod Backend
pub mod Writer
pub mod Store
pub mod RoundTrip
pub mod Listing
pub mod Config
