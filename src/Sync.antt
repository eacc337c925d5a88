-- ===== src/Sync.antt =====
-- The package sync: options and comparison, filters, listings, the plan of a run and its
-- execution, checks and two-way synchronisation.
pub mod Options
pub mod Filter
pub mod FilterLaws
pub mod Compare
pub mod CompareLaws
pub mod Listing
pub mod Run
pub mod Workers
pub mod TransferLaws
pub mod RunLaws
pub mod Outcomes
pub mod Content
pub mod Check
pub mod CheckLaws
pub mod CheckVerdicts
pub mod CheckResults
pub mod ContentLaws
pub mod Conflict
pub mod Bisync
pub mod Move
pub mod Copies
pub mod CopiesLaws
pub mod TreeLaws
pub mod Verify
pub mod VerifyLaws
