-- ===== src/Typing.antt =====
-- The cache of typing notifications (eduserver/cache/cache.go): its state and operations, what
-- they do to the users listed, the updates a client sees, and the timers.
mod Cache
mod Users
mod Updates
mod Stopping
mod Timers
mod Race
mod Tests
