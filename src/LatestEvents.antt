-- ===== src/LatestEvents.antt =====
-- The update of a room after an event has been stored (roomserver/internal/input/
-- input_latest_events.go): its latest events, its state, its memberships and the output log.
mod Memberships
mod State
mod Update
mod Once
mod Effect
mod Tests
