-- ===== src/Cron/Next/Tests.antt =====
-- pkg/cron/cron.go: runs of `NextAfter` in a zone without changes of the clock, to the minute.
use whiteagent.Common.{
  ℕ, ◌+◌, ◌≡◌, refl, none, some, ok, [], ◌∷◌, codes, trim_space, fields, ltb, if◌then◌else◌, true,
  false, arith, here, ◌≤◌, ◌<◌,
}
use whiteagent.Cron.{Cron, parse, is_wild}
use whiteagent.Cron.Days.{IsSound, max_days, day_matches}
use whiteagent.Cron.Tests.{test_run}
use whiteagent.Cron.Next.{
  Civil, Zone, kept, find_year, find_month, find_day, find_hour, find_minute, next_after,
}
use whiteagent.Cron.Next.First.{key}
use whiteagent.Cron.Next.Earliest.{Fires, next_after_earliest, next_after-none}

-- The minute after a civil time.
abbrev next_civil_minute : Civil → Civil
next_civil_minute x =
    if ltb x.minute 59
    then record x { minute = x.minute + 1 }
    else if ltb x.hour 23
    then record x { minute = 0; hour = x.hour + 1 }
    else if ltb x.day (max_days x.year x.month)
    then record x { minute = 0; hour = 0; day = x.day + 1 }
    else if ltb x.month 12
    then record x { minute = 0; hour = 0; day = 1; month = x.month + 1 }
    else record { minute = 0; hour = 0; day = 1; month = 1; year = x.year + 1 }

abbrev pub utc : Zone
utc = record { Instant = Civil; civil = λ x. x; date = λ x. x; next_minute = next_civil_minute }

abbrev at : ℕ → ℕ → ℕ → ℕ → ℕ → Civil
at y m d h n = record { year = y; month = m; day = d; hour = h; minute = n }

-- "0 0 29 2 *", as `Parse` returns it.
abbrev pub leap_days : Cron
leap_days = record {
  minute = 0 ∷ [];
  hour = 0 ∷ [];
  dom = 29 ∷ [];
  month = 2 ∷ [];
  dow = 0 ∷ 1 ∷ 2 ∷ 3 ∷ 4 ∷ 5 ∷ 6 ∷ [];
  dom_wild = false;
  dow_wild = true;
}

pub parse-leap_days : parse (codes "0 0 29 2 *") ≡ ok leap_days
unfolding parse is_wild test_run trim_space fields
parse-leap_days = refl

leap_days-IsSound : IsSound leap_days
leap_days-IsSound = record {
  minute_in = omega arith;
  hour_in = omega arith;
  dom_in = omega arith;
  month_in = omega arith;
  dow_in = omega arith;
  dom_full = λ e. cc;
  dow_full = λ e. omega arith;
}

-- What a run of `NextAfter` computes with.
unfoldable pub test_next : Unit {0}
unfolding next_after max_days day_matches kept find_year find_month find_day find_hour find_minute
test_next = tt

next_leap_day : next_after utc leap_days (at 2025 3 1 0 0) ≡ some (at 2028 2 29 0 0)
unfolding test_next
next_leap_day = refl

no_leap_day : next_after utc leap_days (at 2096 2 29 0 0) ≡ none
unfolding test_next
no_leap_day = refl

next_after_earliest_example :
    (x : Civil) × (at 2028 2 29 0 0 ≡ x)
    × Fires utc leap_days x
    × (key (at 2025 3 1 0 1) ≤ key x)
    × ((y : Civil) → Fires utc leap_days y → key (at 2025 3 1 0 1) ≤ key y → key x ≤ key y)
next_after_earliest_example =
    next_after_earliest utc leap_days (at 2025 3 1 0 0) (at 2028 2 29 0 0) leap_days-IsSound
      (omega arith) next_leap_day

leap_2104 : Fires utc leap_days (at 2104 2 29 0 0)
unfolding test_next
leap_2104 = record {
  month_in = here refl;
  day_pos = omega arith;
  day_le = omega arith;
  day_in = refl;
  hour_in = here refl;
  minute_in = here refl;
  exists = refl;
}

next_after-none_example : 2100 < 2104
next_after-none_example =
    next_after-none utc leap_days (at 2096 2 29 0 0) leap_days-IsSound (omega arith) no_leap_day
      (at 2104 2 29 0 0) leap_2104 (omega arith)
