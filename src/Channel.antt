-- ===== src/Channel.antt =====
-- backend/channel/backend.go, the backend that passes messages from writers to readers.
pub mod State
pub mod Pipe
pub mod Calls
pub mod Flow
pub mod Drain
pub mod Ends
