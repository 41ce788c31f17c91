-- ===== src/Sync.antt =====
-- The sync API's bookkeeping of how far a client has read (syncapi/types/types.go), and how it
-- wakes the requests that wait for news (syncapi/notifier).
pub mod Token
pub mod UserStream
pub mod Streams
pub mod Notifier
