-- ===== src/Scheduler/Advance.antt =====
-- internal/domain/service/scheduler/scheduler.go: the change of an entry's state before it is run, and the
-- active rows.
use whiteagent.Common.{
  ℕ, ◌≤◌, Bool, true, false, Option, none, List, [], ◌∷◌, Text, ◌≡◌, refl, ◌∙◌, arith, Result, ok,
  err,
}
use whiteagent.Store.{update_rows}
use whiteagent.Cron.{Cron, CronError, parse}
use whiteagent.Scheduler.{
  EntryType, once, recurring, other_type, completed, CronEntry, World, Env, resume, called, call,
  entry_fits, update_cron_status, update_cron_next_run, advance, by_expr,
}
use whiteagent.Scheduler.Runs.{
  live, all_once, call-holds, live-update, live_complete, complete_none,
}

module _ (env : Env) (tenant id : Text) where
  -- No run is recorded, and no row of the entry becomes active or changes its type.
  abbrev pub Advanced : World → World → Type 0
  Advanced w v =
      (v.runs ≡ w.runs)
      × (live tenant id v.entries ≤ live tenant id w.entries)
      × (all_once tenant id v.entries ≡ all_once tenant id w.entries)

  Advanced-trans : (u v w : World) → Advanced u v → Advanced v w → Advanced u w
  Advanced-trans u v w p q = (q.0 ∙ p.0, omega (arith, p.1, q.1), q.2 ∙ p.2)

  next_run-Advanced :
      (t i : Text) (next : Option ℕ) (w : World) → Advanced w (update_cron_next_run t i next w).1
  unfolding update_cron_next_run
  next_run-Advanced t i next w =
      call-holds (Advanced w) _ w (λ fs. (refl, omega arith, refl))
        (λ fs.
          let same = live-update env tenant id (entry_fits t i) next w.entries in
          (refl, omega (arith, same.0), same.1))

  status-Advanced : (t i : Text) (w : World) → Advanced w (update_cron_status t i completed w).1
  unfolding update_cron_status
  status-Advanced t i w =
      call-holds (Advanced w) _ w (λ fs. (refl, omega arith, refl))
        (λ fs.
          let less = live_complete env tenant id (entry_fits t i) w.entries in
          (refl, less.0, less.1))

  after_status :
      (t i : Text) (w : World) (done : Bool × World)
      → Advanced w done.1
      → Advanced w (resume false done (update_cron_next_run t i none)).1
  after_status t i w (false, v) p = p
  after_status t i w (true, v) p =
      Advanced-trans w v (update_cron_next_run t i none v).1 p (next_run-Advanced t i none v)

  expr-Advanced :
      (e : CronEntry) (now : ℕ) (parsed : Result CronError Cron) (w : World)
      → Advanced w (by_expr env e now parsed w).1
  unfolding by_expr
  expr-Advanced e now (err x) w = (refl, omega arith, refl)
  expr-Advanced e now (ok c) w = next_run-Advanced e.tenant e.id _ w

  pub advance-Advanced :
      (kind : EntryType) (e : CronEntry) (now : ℕ) (w : World)
      → Advanced w (advance env kind e now w).1
  unfolding advance
  advance-Advanced once e now w =
      after_status e.tenant e.id w (update_cron_status e.tenant e.id completed w)
        (status-Advanced e.tenant e.id w)
  advance-Advanced recurring e now w = expr-Advanced e now (parse e.cron_expr) w
  advance-Advanced (other_type t) e now w = (refl, omega arith, refl)

  called_complete :
      (fs : List Bool) (w : World)
      → let (fine, v) =
          called fs
            (λ u. record u {
              entries =
                  update_rows
                    (entry_fits tenant id)
                    (λ r. record r { status = completed })
                    u.entries;
            })
            w in
        fine ≡ true → live tenant id v.entries ≡ 0
  unfolding called
  called_complete [] w fine = complete_none env tenant id w.entries
  called_complete (true ∷ fs) w fine = cc
  called_complete (false ∷ fs) w fine = complete_none env tenant id w.entries

  after_complete :
      (done : Bool × World)
      → (done.0 ≡ true → live tenant id done.1.entries ≡ 0)
      → let (fine, v) = resume false done (update_cron_next_run tenant id none) in
        fine ≡ true → live tenant id v.entries ≡ 0
  after_complete (false, v) gone fine = cc
  after_complete (true, v) gone fine =
      omega (arith, gone refl, (next_run-Advanced tenant id none v).1)

  -- A one-shot entry that goes on to be run has no active row any more.
  pub advance-none :
      (now : ℕ) (e : CronEntry) (w : World)
      → e.tenant ≡ tenant
      → e.id ≡ id
      → (advance env once e now w).0 ≡ true
      → live tenant id (advance env once e now w).1.entries ≡ 0
  unfolding advance update_cron_status call
  advance-none now e w p q =
      rw (p, q)
        (after_complete (update_cron_status tenant id completed w) (called_complete w.faults w))
