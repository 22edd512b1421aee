-- ===== src/Scheduler/Once.antt =====
-- internal/domain/service/scheduler/scheduler.go: one-shot entries over a sequence of ticks.
use whiteagent.Common.{
  ℕ, ◌+◌, ◌≤◌, Bool, true, false, Bool-cases, inl, inr, List, [], ◌∷◌, Text, text_eq_sound, ◌≡◌,
  refl, ◌∙◌, ap, arith, if◌then◌else◌,
}
use whiteagent.Scheduler.{
  EntryType, once, recurring, other_type, CronEntry, World, Env, resume, call, entry_fits,
  is_active, before, insert_due, active_entries, is_due, advance, record_run, fire_entry, fire_due,
  tick, run,
}
use whiteagent.Scheduler.Runs.{runs_of, live, all_once, is_once, call-holds, record_run-Added}
use whiteagent.Scheduler.Advance.{Advanced, advance-Advanced, advance-none}

module _ (env : Env) (tenant id : Text) where
  -- At most one run is recorded or can still be.
  abbrev Safe : World → Type 0
  Safe w = runs_of tenant id w.runs + live tenant id w.entries ≤ 1

  abbrev weight : CronEntry → ℕ
  weight e = if entry_fits tenant id e then 1 else 0

  -- How many of some entries have the key.
  pending : List CronEntry → ℕ
  pending [] = 0
  pending (e ∷ es) = weight e + pending es

  abbrev Fired : CronEntry → World → World → Type 0
  Fired e w v =
      Safe v
      × (runs_of tenant id v.runs ≤ weight e + runs_of tenant id w.runs)
      × (all_once tenant id v.entries ≡ all_once tenant id w.entries)

  Advanced-Fired : (e : CronEntry) (w v : World) → Safe w → Advanced env tenant id w v → Fired e w v
  Advanced-Fired e w v safe p =
      let same : runs_of tenant id v.runs ≡ runs_of tenant id w.runs =
        ap (λ rs. runs_of tenant id rs) p.0 in
      (omega (arith, safe, same, p.1), omega (arith, same), p.2)

  after_advance :
      (e : CronEntry) (now : ℕ) (w : World) (done : Bool × World)
      → Safe w
      → runs_of tenant id w.runs + weight e ≤ 1
      → Advanced env tenant id w done.1
      → (entry_fits tenant id e ≡ true → done.0 ≡ true → live tenant id done.1.entries ≡ 0)
      → Fired e w (resume false done (λ v. (true, record_run env e now v))).1
  after_advance e now w (false, v) safe room p gone = Advanced-Fired e w v safe p
  after_advance e now w (true, v) safe room p gone =
      let added = record_run-Added env tenant id e now v in
      let same : runs_of tenant id v.runs ≡ runs_of tenant id w.runs =
        ap (λ rs. runs_of tenant id rs) p.0 in
      let kept : live tenant id (record_run env e now v).entries ≡ live tenant id v.entries =
        ap (λ es. live tenant id es) added.0 in
      (
        elim (Bool-cases (entry_fits tenant id e)) [
          | inl hit ↦ ground (arith, added.1, same, kept, gone hit refl, room)
          | inr miss ↦ ground (arith, added.1, same, kept, p.1, safe, miss)
        ],
        omega (arith, added.1, same),
        ap (λ es. all_once tenant id es) added.0 ∙ p.2,
      )

  fits_key : (e : CronEntry) → entry_fits tenant id e ≡ true → (e.tenant ≡ tenant) × (e.id ≡ id)
  fits_key e h =
      (text_eq_sound e.tenant tenant (ground (arith, h)), text_eq_sound e.id id (ground (arith, h)))

  advance_gone :
      (kind : EntryType) (e : CronEntry) (now : ℕ) (w : World)
      → (if entry_fits tenant id e then is_once kind else true) ≡ true
      → entry_fits tenant id e ≡ true
      → (advance env kind e now w).0 ≡ true
      → live tenant id (advance env kind e now w).1.entries ≡ 0
  advance_gone once e now w type hit fine =
      let key = fits_key e hit in advance-none env tenant id now e w key.0 key.1 fine
  advance_gone recurring e now w type hit fine = absurd (ground (arith, hit, type))
  advance_gone (other_type t) e now w type hit fine = absurd (ground (arith, hit, type))

  fire_entry-Fired :
      (e : CronEntry) (now : ℕ) (w : World)
      → (if entry_fits tenant id e then is_once e.kind else true) ≡ true
      → Safe w
      → runs_of tenant id w.runs + weight e ≤ 1
      → Fired e w (fire_entry env e now w)
  unfolding fire_entry
  fire_entry-Fired e now w type safe room =
      after_advance e now w (advance env e.kind e now w) safe room
        (advance-Advanced env tenant id e.kind e now w) (advance_gone e.kind e now w type)

  either : (b : Bool) (P : World → Type 0) (v w : World) → P v → P w → P (if b then v else w)
  either true P v w p q = p
  either false P v w p q = q

  -- What the loop needs to go on with the entries that are left.
  Ready : CronEntry → List CronEntry → World → World → Type 0
  Ready e es w u =
      Safe u
      × (runs_of tenant id u.runs + pending es ≤ 1)
      × (all_once tenant id u.entries ≡ all_once tenant id w.entries)

  fire_due-Safe :
      (now : ℕ) (es : List CronEntry) (w : World)
      → all_once tenant id es ≡ true
      → Safe w
      → runs_of tenant id w.runs + pending es ≤ 1
      → Safe (fire_due env now es w)
        × (all_once tenant id (fire_due env now es w).entries ≡ all_once tenant id w.entries)
  unfolding fire_due all_once pending Ready
  fire_due-Safe now [] w types safe room = (safe, refl)
  fire_due-Safe now (e ∷ es) w types safe room =
      let fired = fire_entry-Fired e now w (ground (arith, types)) safe (omega (arith, room)) in
      let u = if is_due now e then fire_entry env e now w else w in
      let ready : Ready e es w u =
        either (is_due now e) (Ready e es w) (fire_entry env e now w) w
          (fired.0, omega (arith, room, fired.1), fired.2) (safe, omega (arith, room), refl) in
      let rest = fire_due-Safe now es u (ground (arith, types)) ready.0 ready.1 in
      (rest.0, rest.1 ∙ ready.2)

  insert_due-pending :
      (e : CronEntry) (es : List CronEntry)
      → (pending (insert_due e es) ≡ weight e + pending es)
        × (all_once tenant id (insert_due e es) ≡ all_once tenant id (e ∷ es))
  unfolding insert_due pending all_once
  insert_due-pending e [] = (refl, refl)
  insert_due-pending e (d ∷ ds) = elim (Bool-cases (before e.next_run d.next_run)) [
    | inl first ↦ rw first (refl, refl)
    | inr later ↦
        let rest = insert_due-pending e ds in
        rw later (omega (arith, rest.0), ground (arith, rest.1))
  ]

  active-pending :
      (es : List CronEntry)
      → all_once tenant id es ≡ true
      → (pending (active_entries es) ≡ live tenant id es)
        × (all_once tenant id (active_entries es) ≡ true)
  unfolding active_entries pending all_once live
  active-pending [] types = (refl, refl)
  active-pending (e ∷ es) types =
      let rest = active-pending es (ground (arith, types)) in
      let added = insert_due-pending e (active_entries es) in
      elim (Bool-cases (is_active e)) [
        | inl on ↦ rw on (ground (arith, rest.0, added.0), ground (arith, rest.1, added.1, types))
        | inr off ↦ rw off (ground (arith, rest.0), rest.1)
      ]

  after_list :
      (now : ℕ) (w : World) (listed : Bool × World)
      → all_once tenant id w.entries ≡ true
      → Safe w
      → (listed.1.entries ≡ w.entries) × (listed.1.runs ≡ w.runs)
      → let v =
          (resume false listed (λ v. (true, fire_due env now (active_entries v.entries) v))).1 in
        Safe v × (all_once tenant id v.entries ≡ true)
  after_list now w (false, v) types safe kept =
      (subst2_Safe w v safe kept, ap (λ es. all_once tenant id es) kept.0 ∙ types)
    where
      subst2_Safe : (w v : World) → Safe w → (v.entries ≡ w.entries) × (v.runs ≡ w.runs) → Safe v
      subst2_Safe w v safe kept =
          let runs = ap (λ rs. runs_of tenant id rs) kept.1 in
          let rows = ap (λ es. live tenant id es) kept.0 in omega (arith, safe, runs, rows)
  after_list now w (true, v) types safe kept =
      let runs = ap (λ rs. runs_of tenant id rs) kept.1 in
      let rows = ap (λ es. live tenant id es) kept.0 in
      let types' = ap (λ es. all_once tenant id es) kept.0 ∙ types in
      let listed = active-pending v.entries types' in
      let done =
        fire_due-Safe now (active_entries v.entries) v listed.1 (omega (arith, safe, runs, rows))
          (omega (arith, safe, runs, rows, listed.0)) in
      (done.0, done.1 ∙ types')

  run-Safe :
      (times : List ℕ) (w : World)
      → all_once tenant id w.entries ≡ true
      → Safe w
      → Safe (run env times w)
  unfolding run tick
  run-Safe [] w types safe = safe
  run-Safe (now ∷ times) w types safe =
      let listed = call (λ v. v) w in
      let kept : (listed.1.entries ≡ w.entries) × (listed.1.runs ≡ w.runs) =
        call-holds (λ v. (v.entries ≡ w.entries) × (v.runs ≡ w.runs)) (λ v. v) w
          (λ fs. (refl, refl)) (λ fs. (refl, refl)) in
      let done = after_list now w listed types safe kept in
      run-Safe times (tick env now w) done.1 done.0

-- A one-shot entry that has not been run is run at most once: whatever the times of the ticks, their
-- order and the calls that fail, at most one run of it is recorded. The entry has at most one active
-- row, and its rows are one-shot.
pub run_once :
    (env : Env) (tenant id : Text) (times : List ℕ) (w : World)
    → all_once tenant id w.entries ≡ true
    → live tenant id w.entries ≤ 1
    → runs_of tenant id w.runs ≡ 0
    → runs_of tenant id (run env times w).runs ≤ 1
run_once env tenant id times w types one none_yet =
    omega (arith, run-Safe env tenant id times w types (omega (arith, one, none_yet)))
