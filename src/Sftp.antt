-- ===== src/Sftp.antt =====
-- backend/sftp: the backend over a client of github.com/pkg/sftp.
pub mod Client
pub mod Backend
pub mod Handles
pub mod Config
pub mod Connect
pub mod Reader
