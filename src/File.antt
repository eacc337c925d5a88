-- ===== src/File.antt =====
-- backend/file: the backend over the file system of the operating system.
pub mod System
pub mod Place
pub mod Backend
pub mod Extended
pub mod Confined
pub mod Refused
pub mod SelfCopy
pub mod Faults
