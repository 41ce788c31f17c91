-- ===== src/Federation/Backoff.antt =====
-- How failures and successes move the backoff (federationsender/statistics/statistics.go).
use dendrite.Base.{
  ℕ, zero, suc, ◌+◌, ◌*◌, ◌^◌, ◌%◌, ◌≤◌, ◌<◌, ◌≡◌, refl, ap, ◌∙◌, true, false, not, Option, none,
  some, arith, subst, leb, ◌-◌, ◌||◌,
}
use dendrite.Base.Int.{ℤ, pos, ◌+ℤ◌}
use dendrite.Federation.Statistics.{
  Time, at, ServerStatistics, failure, success, back_off, duration, finish_wait, is_later, started,
  counted, is_waiting,
}

-- Failures with each backoff waited out between them, at times after the ends of the intervals.
abbrev pub fail_times : ℕ → (ℕ → ℤ) → ℕ → ServerStatistics → ServerStatistics
fail_times limit clock zero s = s
fail_times limit clock (suc n) s =
    finish_wait (failure limit (clock n) (fail_times limit clock n s)).1

pub back_off-same :
    (now : ℤ) (s : ServerStatistics)
    → ((back_off now s).1.backoff_count ≡ s.backoff_count)
      × ((back_off now s).1.blacklisted ≡ s.blacklisted)
      × ((back_off now s).1.waiting ≡ s.waiting)
      × ((back_off now s).1.backoff_started ≡ s.backoff_started)
unfolding back_off
back_off-same now s = ground arith

below : (c : ℕ) → suc c < 2 ^ 32 → suc c % 2 ^ 32 ≡ suc c
below c h = omega (arith, h)

failure-first :
    (limit : ℕ) (now : ℤ) (s : ServerStatistics)
    → s.backoff_started ≡ false
    → failure limit now s ≡ started limit now (counted s)
unfolding failure
failure-first limit now s h = rw h

started-count :
    (limit : ℕ) (now : ℤ) (s : ServerStatistics)
    → ((started limit now s).1.backoff_count ≡ s.backoff_count)
      × ((started limit now s).1.blacklisted ≡ leb limit s.backoff_count || s.blacklisted)
      × (leb limit s.backoff_count ≡ false → (started limit now s).1.waiting ≡ true)
started-count limit now s = ground (arith, back_off-same now (record s { waiting = true }))

failure-count :
    (limit : ℕ) (now : ℤ) (s : ServerStatistics) (n : ℕ)
    → s.backoff_started ≡ false
    → s.backoff_count ≡ n
    → suc n < 2 ^ 32
    → ((failure limit now s).1.backoff_count ≡ suc n)
      × ((failure limit now s).1.blacklisted ≡ leb limit (suc n) || s.blacklisted)
      × (leb limit (suc n) ≡ false → (failure limit now s).1.waiting ≡ true)
failure-count limit now s n h e b =
    let c = started-count limit now (counted s) in
    let count : suc s.backoff_count % 2 ^ 32 ≡ suc n = ap (λ n. suc n % 2 ^ 32) e ∙ below n b in
    rw (failure-first limit now s h) (
      c.0 ∙ count,
      c.1 ∙ ap (λ m. leb limit m || s.blacklisted) count,
      λ h. c.2 (ap (leb limit) count ∙ h),
    )

finish_wait-waiting :
    (s : ServerStatistics)
    → ((finish_wait s).backoff_count ≡ s.backoff_count)
      × ((finish_wait s).blacklisted ≡ s.blacklisted)
      × (s.waiting ≡ true → (finish_wait s).backoff_started ≡ false)
finish_wait-waiting s = ground arith

fail_times-below :
    (limit : ℕ) (clock : ℕ → ℤ) (n : ℕ) (s : ServerStatistics)
    → n ≤ limit
    → 1 ≤ limit
    → limit < 2 ^ 32
    → s.backoff_started ≡ false
    → let f = fail_times limit clock n (success s) in
      (f.backoff_count ≡ n)
      × (f.blacklisted ≡ leb limit n)
      × (leb limit n ≡ false → f.backoff_started ≡ false)
unfolding success
fail_times-below limit clock zero s l o b h = (refl, ground (arith, o), λ k. h)
fail_times-below limit clock (suc n) s l o b h =
    let f : ServerStatistics = fail_times limit clock n (success s) in
    let below_limit : leb limit n ≡ false = ground (arith, l) in
    let ih = fail_times-below limit clock n s (omega (arith, l)) o b h in
    let step = failure-count limit (clock n) f n (ih.2 below_limit) ih.0 (omega (arith, l, b)) in
    let w = finish_wait-waiting (failure limit (clock n) f).1 in
    (w.0 ∙ step.0, w.1 ∙ step.1 ∙ ground (arith, ih.1, below_limit), λ k. w.2 (step.2 k))

-- However the times lie, after a success on a server that is not backing off, it is blacklisted by
-- as many failures as the limit says, and not by fewer, when each backoff is waited out before the
-- next failure. The limit is at least 1 and fits 32 bits.
pub fail_times-blacklisted :
    (limit : ℕ) (clock : ℕ → ℤ) (n : ℕ) (s : ServerStatistics)
    → n ≤ limit
    → 1 ≤ limit
    → limit < 2 ^ 32
    → s.backoff_started ≡ false
    → let f = fail_times limit clock n (success s) in
      (f.backoff_count ≡ n) × (f.blacklisted ≡ leb limit n)
fail_times-blacklisted limit clock n s l o b h =
    let all = fail_times-below limit clock n s l o b h in (all.0, all.1)

pow_le : (k d : ℕ) → 2 ^ k ≤ 2 ^ (k + d)
pow_le k zero = subst (λ m. 2 ^ k ≤ 2 ^ m) {x = k} {y = k + 0} (omega arith) (omega arith)
pow_le k (suc d) =
    subst (λ m. 2 ^ k ≤ 2 ^ m) {x = suc (k + d)} {y = k + suc d} (omega arith)
      (omega (arith, pow_le k d))

duration_small : (k : ℕ) → k ≤ 32 → duration k ≡ pos (1000000000 * 2 ^ k)
unfolding duration
duration_small k h =
    let low : 2 ^ k ≤ 2 ^ 32 =
      subst (λ m. 2 ^ k ≤ 2 ^ m) {x = k + (32 - k)} {y = 32} (omega (arith, h))
        (pow_le k (32 - k)) in
    ground (arith, low)

back_off-new :
    (now : ℤ) (s : ServerStatistics)
    → s.blacklisted ≡ false
    → is_waiting s.backoff_until (at now) ≡ false
    → (back_off now s).0 ≡ (at (now +ℤ duration s.backoff_count), false)
unfolding back_off
back_off-new now s h k = rw (h, k)

started-back_off :
    (limit : ℕ) (now : ℤ) (s : ServerStatistics)
    → leb limit s.backoff_count ≡ false
    → started limit now s ≡ back_off now (record s { waiting = true })
started-back_off limit now s h = rw h

over :
    (o : Option Time) (now : Time)
    → ((until : Time) → o ≡ some until → is_later now until ≡ true)
    → is_waiting o now ≡ false
over none now h = refl
over (some until) now h = ap not (h until refl)

-- A failure outside a backoff on a server that is not blacklisted, below the limit and after
-- the interval before is over, waits 2 ^ n seconds from now if it is the n-th since a success.
-- The limit is at most 33, which keeps the wait within an `int64`.
pub failure-doubles :
    (limit : ℕ) (now : ℤ) (n : ℕ) (s : ServerStatistics)
    → limit ≤ 33
    → suc n < limit
    → s.backoff_started ≡ false
    → s.blacklisted ≡ false
    → s.backoff_count ≡ n
    → ((until : Time) → s.backoff_until ≡ some until → is_later (at now) until ≡ true)
    → (failure limit now s).0 ≡ (at (now +ℤ pos (1000000000 * 2 ^ suc n)), false)
failure-doubles limit now n s m l h k e p =
    let count : suc s.backoff_count % 2 ^ 32 ≡ suc n =
      ap (λ n. suc n % 2 ^ 32) e ∙ below n (omega (arith, l, m)) in
    ap (λ r. r.0)
      (failure-first limit now s h
        ∙ started-back_off limit now (counted s) (ap (leb limit) count ∙ ground (arith, l)))
    ∙ back_off-new now (record (counted s) { waiting = true }) k (over s.backoff_until (at now) p)
    ∙ ap (λ d. (at (now +ℤ d), false))
        (ap duration count ∙ duration_small (suc n) (omega (arith, l, m)))
