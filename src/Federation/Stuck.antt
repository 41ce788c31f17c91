-- ===== src/Federation/Stuck.antt =====
-- What a sequence of failures and successes does to the statistics of a server
-- (federationsender/statistics/statistics.go).
use dendrite.Base.{ℕ, suc, ◌^◌, ◌%◌, ◌≡◌, refl, true, false, arith, leb, List, [], ◌∷◌}
use dendrite.Base.Int.{ℤ}
use dendrite.Federation.Statistics.{never, ServerStatistics, failure, success, finish_wait, counted}
use dendrite.Federation.Backoff.{back_off-same}

-- What may happen to the statistics.
pub data Event : Type 0 where
  fails : ℤ → Event
  succeeds : Event
  wait_ends : Event

abbrev pub happen : ℕ → Event → ServerStatistics → ServerStatistics
happen limit (fails now) s = (failure limit now s).1
happen limit succeeds s = success s
happen limit wait_ends s = finish_wait s

abbrev pub happens : ℕ → List Event → ServerStatistics → ServerStatistics
happens limit [] s = s
happens limit (e ∷ es) s = happens limit es (happen limit e s)

-- The flag of a backoff is set and nothing is left that would unset it.
abbrev IsStuck : ServerStatistics → Type 0
IsStuck s =
    (s.backoff_started ≡ true)
    × (s.waiting ≡ false)
    × (s.blacklisted ≡ false)
    × (s.backoff_count ≡ 0)

happen-IsStuck :
    (limit : ℕ) (e : Event) (s : ServerStatistics) → IsStuck s → IsStuck (happen limit e s)
unfolding failure success
happen-IsStuck limit (fails now) s h = ground (arith, h.0, h.1, h.2, h.3, back_off-same now s)
happen-IsStuck limit succeeds s h = (h.0, h.1, refl, refl)
happen-IsStuck limit wait_ends s h = ground (arith, h.0, h.1, h.2, h.3)

happens-IsStuck :
    (limit : ℕ) (es : List Event) (s : ServerStatistics) → IsStuck s → IsStuck (happens limit es s)
happens-IsStuck limit [] s h = h
happens-IsStuck limit (e ∷ es) s h =
    happens-IsStuck limit es (happen limit e s) (happen-IsStuck limit e s h)

blacklisting :
    (limit : ℕ) (now : ℤ) (s : ServerStatistics)
    → s.backoff_started ≡ false
    → leb limit (suc s.backoff_count % 2 ^ 32) ≡ true
    → failure limit now s
      ≡ ((never, true), record (counted s) { blacklisted = true; stored_blacklisted = true })
unfolding failure
blacklisting limit now s h l = rw (h, l)

-- Once a failure has blacklisted a server, a success takes it off the blacklist, and nothing that
-- happens afterwards puts it there again: no failure is counted any more.
pub success-after_blacklist :
    (limit : ℕ) (now : ℤ) (es : List Event) (s : ServerStatistics)
    → s.backoff_started ≡ false
    → s.waiting ≡ false
    → leb limit (suc s.backoff_count % 2 ^ 32) ≡ true
    → let t = happens limit es (success (failure limit now s).1) in
      (t.blacklisted ≡ false) × (t.backoff_count ≡ 0)
success-after_blacklist limit now es s h w l = rw (blacklisting limit now s h l) (
    let blacklisted : ServerStatistics = record (counted s) {
      blacklisted = true;
      stored_blacklisted = true;
    } in
    let first : IsStuck (success blacklisted) = unfold success in (refl, w, refl, refl) in
    let stuck = happens-IsStuck limit es (success blacklisted) first in (stuck.2, stuck.3))
