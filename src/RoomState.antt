-- ===== src/RoomState.antt =====
-- Room state in the roomserver: state entries (roomserver/types/types.go) and the calculation of
-- the state at and after events (roomserver/state/state.go).
pub mod Entries
pub mod Dedupe
pub mod Difference
pub mod Lookup
pub mod Duplicates
pub mod Load
pub mod Combined
mod Tests
