-- ===== src/Federation.antt =====
-- Sending to other servers (federationsender): the statistics that back off from a server, the
-- tables of what is waiting, and the queue of a destination.
mod Statistics
mod Backoff
mod Stuck
mod Store
mod Queue
mod Stored
mod Delivery
mod Ahead
mod Memory
mod Starved
mod Tests
