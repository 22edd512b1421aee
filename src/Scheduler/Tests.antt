-- ===== src/Scheduler/Tests.antt =====
-- internal/domain/service/scheduler/scheduler.go on entries that are fired on one day, 29 February 2096.
use whiteagent.Common.{
  ℕ, ◌+◌, ◌*◌, ◌/◌, ◌%◌, ◌≤◌, true, false, none, some, [], ◌∷◌, Text, codes, text_eq, ◌≡◌, refl,
  arith,
}
use whiteagent.Store.{find_row}
use whiteagent.Cron.Next.{next_after}
use whiteagent.Cron.Next.Tests.{leap_days, parse-leap_days, test_next}
use whiteagent.Scheduler.{
  EntryType, once, recurring, active, CronEntry, World, Env, entry_fits, fire_entry, is_due, run,
  zone,
}
use whiteagent.Scheduler.Runs.{runs_of, live, all_once}
use whiteagent.Scheduler.Once.{run_once}
use whiteagent.Scheduler.Zero.{fire_recurring_zero}

abbrev leap_day : Env
leap_day = record {
  new_name = λ n. (48 + n) ∷ [];
  civil = λ t. record { year = 2096; month = 2; day = 29; hour = t / 3600; minute = (t / 60) % 60 };
  date = λ x. x.hour * 3600 + x.minute * 60;
  format = λ t. [];
  publish_error = codes "stopped";
  has_fs = false;
  ensure_dir = λ id. none;
  join = λ dir file. dir;
}

abbrev entry : EntryType → Text → CronEntry
entry kind expr = record {
  id = codes "e1";
  tenant = codes "acme";
  agent = codes "bot";
  user = codes "ann";
  chat = codes "chat";
  is_group = false;
  name = codes "reminder";
  instructions = codes "say hello";
  kind = kind;
  cron_expr = expr;
  next_run = some 60;
  status = active;
  created = 0;
  metadata = [];
  conversation = codes "c1";
  message = [];
}

abbrev world : CronEntry → World
world e = record {
  entries = e ∷ [];
  runs = [];
  messages = [];
  published = [];
  copies = [];
  faults = [];
  serial = 0;
}

abbrev reminder : CronEntry
reminder = entry once []

all_once-reminder : all_once (codes "acme") (codes "e1") (reminder ∷ []) ≡ true
unfolding all_once text_eq
all_once-reminder = refl

live-reminder : live (codes "acme") (codes "e1") (reminder ∷ []) ≡ 1
unfolding live text_eq
live-reminder = refl

run_once_example :
    runs_of (codes "acme") (codes "e1") (run leap_day (60 ∷ 120 ∷ 180 ∷ []) (world reminder)).runs
    ≤ 1
run_once_example =
    run_once leap_day (codes "acme") (codes "e1") (60 ∷ 120 ∷ 180 ∷ []) (world reminder)
      all_once-reminder (omega (arith, live-reminder)) (unfold runs_of in refl)

-- "0 0 29 2 *"
abbrev yearly : CronEntry
yearly = entry recurring (codes "0 0 29 2 *")

found : find_row (entry_fits (codes "acme") (codes "e1")) (yearly ∷ []) ≡ some yearly
unfolding find_row text_eq
found = refl

never : next_after (zone leap_day) leap_days 60 ≡ none
unfolding test_next
never = refl

fire_recurring_zero_example :
    (r : CronEntry) × (find_row
        (entry_fits (codes "acme") (codes "e1"))
        (fire_entry leap_day yearly 60 (world yearly)).entries
      ≡ some r)
    × (r.status ≡ active)
    × ((later : ℕ) → is_due later r ≡ true)
fire_recurring_zero_example =
    fire_recurring_zero leap_day yearly leap_days 60 (world yearly) yearly refl parse-leap_days
      never refl found
