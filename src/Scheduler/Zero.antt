-- ===== src/Scheduler/Zero.antt =====
-- internal/domain/service/scheduler/scheduler.go: the next time of a recurring entry that was fired.
use whiteagent.Common.{
  ℕ, true, false, Bool-cases, inl, inr, Option, none, some, List, [], ◌∷◌, Text, ◌≡◌, refl, sym,
  ◌∙◌, ap, subst, arith, leb, ok,
}
use whiteagent.Store.{find_row, update_rows}
use whiteagent.Cron.{Cron, parse}
use whiteagent.Cron.Next.{next_after}
use whiteagent.Scheduler.{
  recurring, CronEntry, World, Env, resume, called, call, entry_fits, update_cron_next_run,
  next_run_after, is_due, advance, record_run, fire_entry, by_expr, zone, time_or_zero,
}
use whiteagent.Scheduler.Runs.{record_run-Added}

abbrev with_next : Option ℕ → Option CronEntry → Option CronEntry
with_next next none = none
with_next next (some x) = some (record x { next_run = next })

-- An update that changes neither key nor order is seen by a lookup of the key.
find-update :
    (tenant id : Text) (next : Option ℕ) (es : List CronEntry) (r : CronEntry)
    → find_row (entry_fits tenant id) es ≡ some r
    → find_row
        (entry_fits tenant id)
        (update_rows (entry_fits tenant id) (λ e. record e { next_run = next }) es)
      ≡ some (record r { next_run = next })
unfolding find_row update_rows
find-update tenant id next [] r h = cc
find-update tenant id next (e ∷ es) r h = elim (Bool-cases (entry_fits tenant id e)) [
  | inl hit ↦
      let same : some e ≡ some r = ground (arith, h, hit) in
      ground (arith, hit, ap (with_next next) same)
  | inr miss ↦
      let below : find_row (entry_fits tenant id) es ≡ some r = ground (arith, h, miss) in
      ground (arith, miss, find-update tenant id next es r below)
]

abbrev moved_on : CronEntry → ℕ → World → World
moved_on e next w = record w {
  entries =
      update_rows (entry_fits e.tenant e.id) (λ x. record x { next_run = some next }) w.entries;
}

advance_recurring :
    (env : Env) (e : CronEntry) (c : Cron) (now : ℕ) (w : World)
    → parse e.cron_expr ≡ ok c
    → w.faults ≡ []
    → advance env recurring e now w ≡ (true, moved_on e (next_run_after env c now) w)
unfolding advance by_expr update_cron_next_run call called
advance_recurring env e c now w parsed fine =
    ap (λ p. by_expr env e now p w) parsed
    ∙ ap (λ fs. called fs (moved_on e (next_run_after env c now)) w) fine

-- Where no call fails, firing a recurring entry whose expression parses leaves its row as it was, but
-- for the next time, which is the one that follows the tick.
pub fire_recurring :
    (env : Env) (e : CronEntry) (c : Cron) (now : ℕ) (w : World) (r : CronEntry)
    → e.kind ≡ recurring
    → parse e.cron_expr ≡ ok c
    → w.faults ≡ []
    → find_row (entry_fits e.tenant e.id) w.entries ≡ some r
    → find_row (entry_fits e.tenant e.id) (fire_entry env e now w).entries
      ≡ some (record r { next_run = some (next_run_after env c now) })
unfolding fire_entry
fire_recurring env e c now w r kind parsed fine found =
    let v = moved_on e (next_run_after env c now) w in
    let advanced : advance env e.kind e now w ≡ (true, v) =
      ap (λ k. advance env k e now w) kind ∙ advance_recurring env e c now w parsed fine in
    ap
      (λ p.
        find_row (entry_fits e.tenant e.id)
          (resume false p (λ u. (true, record_run env e now u))).1.entries)
      advanced
    ∙ ap (λ es. find_row (entry_fits e.tenant e.id) es)
        (record_run-Added env e.tenant e.id e now v).0
    ∙ find-update e.tenant e.id (some (next_run_after env c now)) w.entries r found

-- If the expression has no time within the years that are searched, and no call fails, then firing the
-- entry stores the zero time as the next one: the entry's row keeps its status and is due whatever the
-- time of the next tick is. The table has a row of the entry, which is a recurring one.
pub fire_recurring_zero :
    (env : Env) (e : CronEntry) (c : Cron) (now : ℕ) (w : World) (r : CronEntry)
    → e.kind ≡ recurring
    → parse e.cron_expr ≡ ok c
    → next_after (zone env) c now ≡ none
    → w.faults ≡ []
    → find_row (entry_fits e.tenant e.id) w.entries ≡ some r
    → (r' : CronEntry) × (find_row (entry_fits e.tenant e.id) (fire_entry env e now w).entries
        ≡ some r')
      × (r'.status ≡ r.status)
      × ((later : ℕ) → is_due later r' ≡ true)
unfolding next_run_after
fire_recurring_zero env e c now w r kind parsed never fine found = (
  record r { next_run = some (next_run_after env c now) },
  fire_recurring env e c now w r kind parsed fine found,
  refl,
  λ later. subst (λ n. leb n later ≡ true) (sym (ap time_or_zero never)) (ground arith),
)
