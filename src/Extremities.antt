-- ===== src/Extremities.antt =====
-- The forward extremities of a room: the table of previous events
-- (roomserver/storage/postgres/previous_events_table.go) and `calculateLatest`
-- (roomserver/internal/input/input_latest_events.go).
pub mod Latest
mod Valid
mod Forward
mod Tests
