-- ===== src/Membership.antt =====
-- How a change of room state moves users between leave, invite and join, with the invites that are
-- retired on the way (roomserver/internal/input/input_membership.go, roomserver/internal/helpers,
-- roomserver/storage/shared/membership_updater.go and the tables that these write).
pub mod Changes
pub mod Tables
pub mod Updater
pub mod Update
pub mod Consistent
pub mod Effect
pub mod Retire
mod Tests
