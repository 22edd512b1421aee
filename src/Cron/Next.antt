-- ===== src/Cron/Next.antt =====
-- pkg/cron/cron.go: `NextAfter`, a search through the civil times of five years.
-- A month is a number from 1 to 12, as the values of a parsed expression are. The loops return the
-- civil time of the candidate; none is the zero time.
pub mod First
pub mod Least
pub mod Earliest
pub mod Tests
use whiteagent.Common.{
  ℕ, zero, suc, ◌+◌, ◌*◌, ◌≤◌, ◌≡◌, Bool, true, false, ◌&&◌, Option, none, some, List, [], ◌∷◌, ltb,
  ◌==◌, if◌then◌else◌,
}
use whiteagent.Cron.{Cron, slt}
use whiteagent.Cron.Days.{max_days, day_matches}

pub record Civil : Type 0 where
  pub year : ℕ
  pub month : ℕ
  pub day : ℕ
  pub hour : ℕ
  pub minute : ℕ

-- What the program takes of a time zone: the civil time of an instant, the instant of a civil time
-- (which may be moved, where the civil time does not exist), and the start of the next minute.
pub record Zone : Type 1 where
  pub Instant : Type 0
  pub civil : Instant → Civil
  pub date : Civil → Instant
  pub next_minute : Instant → Instant

-- A loop body that returns what it found, or goes on.
abbrev pub or_else {ℓ} : {A : Type ℓ} → Option A → Option A → Option A
or_else none rest = rest
or_else (some x) rest = some x

-- `candidate.Month() != m || candidate.Day() != day`, negated.
unfoldable pub kept : Zone → Civil → Bool
kept z x = (z.civil (z.date x)).month == x.month && (z.civil (z.date x)).day == x.day

module _ (z : Zone) (c : Cron) (cur : Civil) where
  same_year : ℕ → Bool
  same_year year = year == cur.year

  same_month : ℕ → ℕ → Bool
  unfolding same_year
  same_month year mon = same_year year && mon == cur.month

  same_day : ℕ → ℕ → ℕ → Bool
  unfolding same_month
  same_day year mon day = same_month year mon && day == cur.day

  same_hour : ℕ → ℕ → ℕ → ℕ → Bool
  unfolding same_day
  same_hour year mon day hr = same_day year mon day && hr == cur.hour

  pub find_minute : ℕ → ℕ → ℕ → ℕ → List ℕ → Option Civil
  unfolding same_hour
  find_minute year mon day hr [] = none
  find_minute year mon day hr (min ∷ mins) =
      let rest = find_minute year mon day hr mins in
      let candidate : Civil = record {
        year = year;
        month = mon;
        day = day;
        hour = hr;
        minute = min;
      } in
      if same_hour year mon day hr && slt min cur.minute
      then rest
      else if kept z candidate
      then some candidate
      else rest

  pub find_hour : ℕ → ℕ → ℕ → List ℕ → Option Civil
  unfolding same_day
  find_hour year mon day [] = none
  find_hour year mon day (hr ∷ hrs) =
      let rest = find_hour year mon day hrs in
      if same_day year mon day && slt hr cur.hour
      then rest
      else or_else (find_minute year mon day hr c.minute) rest

  -- The days from `day` on, `n` of them.
  pub find_day : ℕ → ℕ → ℕ → ℕ → Option Civil
  unfolding same_month
  find_day year mon zero day = none
  find_day year mon (suc n) day =
      let rest = find_day year mon n (suc day) in
      if same_month year mon && ltb day cur.day
      then rest
      else if day_matches c day year mon
      then or_else (find_hour year mon day c.hour) rest
      else rest

  pub find_month : ℕ → List ℕ → Option Civil
  unfolding same_year
  find_month year [] = none
  find_month year (mon ∷ mons) =
      let rest = find_month year mons in
      if same_year year && slt mon cur.month
      then rest
      else or_else (find_day year mon (max_days year mon) 1) rest

  -- The years from `year` on, `n` of them.
  pub find_year : ℕ → ℕ → Option Civil
  find_year zero year = none
  find_year (suc n) year =
      let rest = find_year n (suc year) in or_else (find_month year c.month) rest

-- `limit` is the current year and four.
pub next_civil : Zone → Cron → Civil → Option Civil
next_civil z c cur = find_year z c cur 5 cur.year

unfoldable pub next_after : (z : Zone) → Cron → z.Instant → Option z.Instant
unfolding next_civil
next_after z c t = elim (next_civil z c (z.civil (z.next_minute t))) [
  | none ↦ none
  | some x ↦ some (z.date x)
]
