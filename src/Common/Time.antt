-- ===== src/Common/Time.antt =====
-- common/time_utils.cpp, `setIntervalTimer`. The clock and `timerfd_settime` are parameters.
use sik_screenworms.Base.{
  ℕ, ◌+◌, ◌-◌, ◌*◌, ◌≤◌, ◌<◌, ◌≡◌, refl, ◌∙◌, arith, Bool, not, ◌&&◌, ltb, ◌==◌, if◌then◌else◌,
  Option, none, some, Outcome, ok, fail, exit_failure,
}

pub record TimeSpec : Type 0 where
  pub tv_sec : ℕ
  pub tv_nsec : ℕ

abbrev pub ns_in_second : ℕ
ns_in_second = 1000000000

-- The first time on the clock at which the timer is set to expire.
unfoldable pub first_expiration : TimeSpec → ℕ → TimeSpec
first_expiration now interval_nsec =
    let nsec = now.tv_nsec + interval_nsec in
    if ltb ns_in_second nsec
    then record { tv_sec = now.tv_sec + 1; tv_nsec = nsec - ns_in_second }
    else record { tv_sec = now.tv_sec; tv_nsec = nsec }

-- `setIntervalTimer`: the interval and the first time that the timer was set to. `settime` says
-- whether `timerfd_settime` takes them; `none` is a clock that cannot be read.
unfoldable pub set_interval_timer :
    (TimeSpec → TimeSpec → Bool) → Option TimeSpec → ℕ → Outcome (TimeSpec × TimeSpec)
unfolding first_expiration
set_interval_timer settime none interval_nsec = fail exit_failure
set_interval_timer settime (some now) interval_nsec =
    let interval : TimeSpec = record { tv_sec = 0; tv_nsec = interval_nsec } in
    let first = first_expiration now interval_nsec in
    if settime interval first then ok (interval, first) else fail exit_failure

-- What the manual says of `timerfd_settime` on a timer's descriptor: EINVAL where `tv_nsec` is not
-- in the range from 0 to 999999999.
unfoldable pub IsDocumented : (TimeSpec → TimeSpec → Bool) → Type 0
IsDocumented settime =
    (interval first : TimeSpec)
    → settime interval first ≡ (ltb interval.tv_nsec ns_in_second && ltb first.tv_nsec ns_in_second)

pub nanoseconds : TimeSpec → ℕ
nanoseconds t = t.tv_sec * ns_in_second + t.tv_nsec

first_expiration_later :
    (now : TimeSpec) (interval_nsec : ℕ)
    → nanoseconds (first_expiration now interval_nsec) ≡ nanoseconds now + interval_nsec
unfolding first_expiration nanoseconds
first_expiration_later now interval_nsec = ground arith

first_expiration_valid :
    (now : TimeSpec) (interval_nsec : ℕ)
    → now.tv_nsec < ns_in_second
    → interval_nsec ≤ ns_in_second
    → (ltb interval_nsec ns_in_second
        && ltb (first_expiration now interval_nsec).tv_nsec ns_in_second)
      ≡ (ltb interval_nsec ns_in_second && not (now.tv_nsec + interval_nsec == ns_in_second))
unfolding first_expiration
first_expiration_valid now interval_nsec clock le = ground arith

-- At a time of the clock, for an interval of at most a second: the timer is set where the interval
-- is less than a second and does not fill up the current second exactly, and then it expires for
-- the first time exactly one interval later; else the program ends with a failure.
pub set_interval_timer-first_expiration :
    (settime : TimeSpec → TimeSpec → Bool) (now : TimeSpec) (interval_nsec : ℕ)
    → IsDocumented settime
    → now.tv_nsec < ns_in_second
    → interval_nsec ≤ ns_in_second
    → (set_interval_timer settime (some now) interval_nsec ≡ (
        if ltb interval_nsec ns_in_second && not (now.tv_nsec + interval_nsec == ns_in_second)
        then ok (record { tv_sec = 0; tv_nsec = interval_nsec }, first_expiration now interval_nsec)
        else fail exit_failure))
      × (nanoseconds (first_expiration now interval_nsec) ≡ nanoseconds now + interval_nsec)
unfolding set_interval_timer IsDocumented
set_interval_timer-first_expiration settime now interval_nsec documented clock le =
    let taken =
      documented (record { tv_sec = 0; tv_nsec = interval_nsec })
        (first_expiration now interval_nsec)
      ∙ first_expiration_valid now interval_nsec clock le in
    (rw taken refl, first_expiration_later now interval_nsec)
