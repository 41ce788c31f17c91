-- ===== src/Lib.antt =====
-- A verification library of Dendrite, a Matrix homeserver in Go.
--
-- The server is made of components that call each other and write to one database each. The
-- roomserver takes events into a room: it works out the state after them, the memberships that
-- change, and the forward extremities (the latest events that nothing references). It writes to
-- an output log that the other components read. The sync API tells clients what is new since a
-- token; the EDU server keeps who is typing; the federation sender queues events and ephemeral
-- messages (PDUs and EDUs) for every other server, and backs off from the ones that fail. What is
-- modelled here are those parts of the components that decide something without the network:
--
--   Base            Boolean tests, lists, maps, integers, stable sorting, binary search
--   RoomState       roomserver/types/types.go, roomserver/state/state.go: the orders on state
--                   entries, `DeduplicateStateEntries`, `findDuplicateStateKeys`, the lookups by
--                   binary search, how `LoadStateAtSnapshot` and `LoadCombinedStateAfterEvents`
--                   put blocks of entries together, and the loop of
--                   `DifferenceBetweeenStateSnapshots`
--   Storage         the tables of state blocks and snapshots (roomserver/storage/postgres),
--                   `AddState`, `StateBlockNIDs` and `StateEntries`
--                   (roomserver/storage/shared/storage.go), and on top of them the loads and
--                   `CalculateAndStoreStateAfterEvents` (roomserver/state/state.go)
--   Acls            roomserver/acls/acls.go: the patterns of server ACLs and whom they ban
--   Backfill        what a server that asks for history may see (roomserver/auth/auth.go) and
--                   `ScanEventTree` (roomserver/internal/helpers/helpers.go)
--   Auth            clientapi/auth/user_interactive.go
--   Membership      roomserver/internal/input/input_membership.go (`pairUpChanges`,
--                   `updateMembership`), roomserver/storage/shared/membership_updater.go
--                   (`SetToInvite`, `SetToJoin`, `SetToLeave`) and the two tables they write
--                   (roomserver/storage/postgres/membership_table.go and invite_table.go)
--   Extremities     `calculateLatest` of roomserver/internal/input/input_latest_events.go and the
--                   table of previous events
--   LatestEvents    `doUpdateLatestEvents` of roomserver/internal/input/input_latest_events.go, on top
--                   of RoomState, Storage, Extremities and Membership
--   Sync.Token      syncapi/types/types.go: tokens, their order, their updates and their text
--   Sync.UserStream syncapi/notifier/userstream.go: a stream, its channel and its listeners
--   Sync.Streams    all streams, with pointers to them, and the waking of several
--   Sync.Notifier   syncapi/notifier/notifier.go: whom each piece of news wakes
--   Typing          eduserver/cache/cache.go, with the timers of the Go runtime as state
--   Transactions    internal/transactions/transactions.go
--   Federation      federationsender/statistics/statistics.go,
--                   federationsender/queue/destinationqueue.go, and the tables of what waits
--                   (federationsender/storage/shared/storage_pdus.go and storage_edus.go)
--
-- State is a record, an operation a function on it, named as in the Go code in snake case. A Go
-- map is an association list, whose order is one of those in which a loop may visit it. SQL
-- statements are functions on lists of rows. What runs concurrently is cut where the code takes
-- and leaves a lock, and `Step` says which of the pieces may come next; a theorem about `Run` is
-- about every order of them. Numeric IDs are natural numbers: the database's sequences start at
-- 1 and do not reach 2^63. Fields that come from outside are integers (`int64`, `int32`), whose
-- conversions wrap around. Printing a number has its value as fuel, which is more than it has
-- digits; a binary search has the length of the list as fuel, since its interval shrinks in
-- each round. `util.Unique` and `util.SortAndUnique` (github.com/matrix-org/util) are arguments of
-- the functions that call them, and the hypotheses on them are what their documentation says. So
-- are, in Storage, the digests, the order in which PostgreSQL returns rows that no ORDER BY asks
-- for, and the resolution of conflicting state. `ScanEventTree` has fuel for its rounds: one for
-- each event ID that is not visited yet and two more are enough, since a round that goes on has
-- visited an ID. An attempt to update a room says how the write to the output log and the
-- transaction around it end; what is in the log stays there when the transaction is rolled back.
--
-- Not modelled: HTTP, JSON, signatures, the rules for authorising events and the resolution of
-- conflicting state (gomatrixserverlib), logs and metrics, the SQLite tables (the PostgreSQL ones
-- are followed), and errors of the database other than those named, which end the transaction.
pub mod Base
pub mod Sync
pub mod RoomState
pub mod Storage
pub mod Membership
pub mod Backfill
pub mod Extremities
pub mod LatestEvents
pub mod Acls
pub mod Typing
pub mod Auth
pub mod Transactions
pub mod Federation
