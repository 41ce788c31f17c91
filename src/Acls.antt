-- ===== src/Acls.antt =====
-- Server ACLs of rooms (roomserver/acls/acls.go).
mod Pattern
mod Banned
mod Glob
mod Decision
mod Host
mod Tests
