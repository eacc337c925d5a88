-- ===== src/Paths.antt =====
-- Paths as byte strings: what the Go packages `strings` and `path` compute of them, and
-- `validatePath` and `normalizePath` of backend/memory/backend.go.
pub mod Text
pub mod Clean
pub mod Settled
pub mod Normal
pub mod Laws
pub mod Confined
