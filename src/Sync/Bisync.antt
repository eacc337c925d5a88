-- ===== src/Sync/Bisync.antt =====
-- sync/bisync.go: two-way synchronisation. Its conflicts are in Sync/Conflict.
pub mod Options
pub mod Plan
pub mod PlanLaws
pub mod Run
pub mod Acts
pub mod Loop
pub mod Effects
pub mod Outcomes
