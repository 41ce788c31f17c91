-- ===== src/Storage.antt =====
-- How the roomserver stores room state and works out the state after events: the tables of state
-- blocks and snapshots (roomserver/storage/postgres), `AddState`, `StateBlockNIDs` and
-- `StateEntries` (roomserver/storage/shared/storage.go), and the calculation on top of them
-- (roomserver/state/state.go).
pub mod Tables
pub mod Add
pub mod Calculate
pub mod Known
pub mod Emptied
pub mod Ascending
pub mod Sound
pub mod Kept
pub mod Preserved
pub mod Unchanged
pub mod Loaded
pub mod Snapshot
pub mod Delta
pub mod Overwrites
pub mod Conflicts
pub mod Changed
pub mod Sample
mod Tests
