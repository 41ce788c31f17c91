-- ===== src/Backfill.antt =====
-- What a server that asks for the history of a room gets to see: the rules of
-- roomserver/auth/auth.go, and the walk over the event graph in roomserver/internal/helpers.
mod Visibility
mod Filter
mod Scan
mod Weight
mod Ends
mod Holds
mod Shown
mod Tests
