-- ===== src/Federation/Statistics.antt =====
-- `ServerStatistics` (federationsender/statistics/statistics.go). Times and durations are in
-- nanoseconds; a time is relative to an epoch that all of them share, and `time.Time{}` lies
-- before every other. The blacklist in the database is kept beside the flags.
use dendrite.Base.{
  ℕ, suc, ◌*◌, ◌^◌, ◌%◌, ◌-◌, Bool, true, false, not, Option, none, some, ltb, leb, if◌then◌else◌,
}
use dendrite.Base.Int.{ℤ, pos, negsuc, ◌+ℤ◌, ltb_ℤ}

-- A `time.Time`
pub data Time : Type 0 where
  never : Time
  at : ℤ → Time

-- t.After(u)
abbrev pub is_later : Time → Time → Bool
is_later never u = false
is_later (at t) never = true
is_later (at t) (at u) = ltb_ℤ u t

pub record ServerStatistics : Type 0 where
  pub blacklisted : Bool
  pub backoff_started : Bool
  pub backoff_until : Option Time
  pub backoff_count : ℕ
  pub success_counter : ℕ
  -- whether the goroutine that waits out a backoff is running
  pub waiting : Bool
  -- the row of federationsender_blacklist
  pub stored_blacklisted : Bool

-- `ForServer` on a server that is not in the map yet.
unfoldable pub for_server : Bool → ServerStatistics
for_server stored = record {
  blacklisted = stored;
  backoff_started = false;
  backoff_until = none;
  backoff_count = 0;
  success_counter = 0;
  waiting = false;
  stored_blacklisted = stored;
}

-- An `int64` of so many nanoseconds, which wraps around.
abbrev pub wrap : ℕ → ℤ
wrap n = let m = n % 2 ^ 64 in if ltb m (2 ^ 63) then pos m else negsuc (2 ^ 64 - 1 - m)

-- 2^count seconds
unfoldable pub duration : ℕ → ℤ
duration count = wrap (1000000000 * 2 ^ count)

-- The flags; the interrupt ends the wait, so that `backoff_started` is unset by `finish_wait`.
abbrev pub cancel : ServerStatistics → ServerStatistics
cancel s = record s { blacklisted = false; backoff_until = some never }

unfoldable pub success : ServerStatistics → ServerStatistics
success s = record (cancel s) {
  success_counter = suc s.success_counter % 2 ^ 32;
  backoff_count = 0;
  stored_blacklisted = false;
}

-- The end of the goroutine that waits out a backoff, if it is running.
abbrev pub finish_wait : ServerStatistics → ServerStatistics
finish_wait s = if s.waiting then record s { backoff_started = false; waiting = false } else s

abbrev pub is_waiting : Option Time → Time → Bool
is_waiting none now = false
is_waiting (some until) now = not (is_later now until)

abbrev until_or_never : Option Time → Time
until_or_never none = never
until_or_never (some until) = until

-- What `Failure` does after the part that starts a backoff.
unfoldable pub back_off : ℤ → ServerStatistics → (Time × Bool) × ServerStatistics
back_off now s =
    if s.blacklisted
    then ((at now, true), s)
    else if is_waiting s.backoff_until (at now)
    then ((until_or_never s.backoff_until, false), s)
    else let until = at (now +ℤ duration s.backoff_count) in
      ((until, false), record s { backoff_until = some until })

abbrev pub counted : ServerStatistics → ServerStatistics
counted s = record s { backoff_started = true; backoff_count = suc s.backoff_count % 2 ^ 32 }

abbrev pub started : ℕ → ℤ → ServerStatistics → (Time × Bool) × ServerStatistics
started failures_until_blacklist now s =
    if leb failures_until_blacklist s.backoff_count
    then ((never, true), record s { blacklisted = true; stored_blacklisted = true })
    else back_off now (record s { waiting = true })

-- The time that the backoff lasts until, whether the server is blacklisted, and the new state.
unfoldable pub failure : ℕ → ℤ → ServerStatistics → (Time × Bool) × ServerStatistics
failure failures_until_blacklist now s =
    if s.backoff_started then back_off now s else started failures_until_blacklist now (counted s)

unfoldable pub backoff_info : ServerStatistics → Option Time × Bool
backoff_info s = (s.backoff_until, s.blacklisted)
