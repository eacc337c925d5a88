-- ===== src/Memory.antt =====
-- backend/memory/backend.go, the backend that keeps its objects in a map.
pub mod State
pub mod Query
pub mod Listing
pub mod Stream
pub mod Directory
pub mod Transfer
pub mod Invariant
pub mod Calls
pub mod RoundTrip
pub mod Transfers
pub mod Directories
pub mod Faults
pub mod Spec
pub mod Refines
pub mod Queries
