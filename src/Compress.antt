-- ===== src/Compress.antt =====
-- compress/gzip and compress/zstd: writers and readers that hold a codec and what it works on.
pub mod Wrapper
pub mod Gzip
pub mod Zstd
pub mod Closings
pub mod Once
