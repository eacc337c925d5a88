-- ===== src/Tests.antt =====
-- Runs of the modelled code, and the theorems at concrete inputs.
mod Paths
mod Memory
mod Drive
mod Sync
mod Multi
mod Conflict
mod Channel
mod Copies
mod File
mod Sftp
mod Connect
mod Reader
mod Ndjson
mod Bisync
mod S3
mod Workers
mod Compress
mod Filter
mod Registry
