-- ===== src/Scheduler/Runs.antt =====
-- internal/domain/service/scheduler/scheduler.go: what `fireEntry` does to the entries and to the runs that
-- are recorded.
use whiteagent.Common.{
  ℕ, ◌+◌, ◌≤◌, Bool, true, false, Bool-cases, inl, inr, not, ◌&&◌, Option, none, some, List, [],
  ◌∷◌, Text, text_eq, ◌≡◌, refl, sym, ◌∙◌, ap, subst, arith, if◌then◌else◌, is_empty,
}
use whiteagent.Store.{find_row, update_rows}
use whiteagent.Scheduler.{
  EntryType, once, recurring, other_type, completed, success, failure, CronEntry, CronRun,
  RunStatus, Attachment, Message, World, Env, resume, called, call, entry_fits, inserted,
  insert_cron_run, update_cron_run, is_active, copy_files, copy_into, copy_found,
  copy_attachment_files, attach, conversation_of, publish, finish, deliver, cron_message,
  record_run, new_id, new_run,
}

abbrev pub run_fits : Text → Text → CronRun → Bool
run_fits tenant id r = text_eq r.entry id && text_eq r.tenant tenant

-- How many runs of an entry are recorded.
unfoldable pub runs_of : Text → Text → List CronRun → ℕ
runs_of tenant id [] = 0
runs_of tenant id (r ∷ rs) = (if run_fits tenant id r then 1 else 0) + runs_of tenant id rs

-- How many rows with the entry's key are active.
unfoldable pub live : Text → Text → List CronEntry → ℕ
live tenant id [] = 0
live tenant id (e ∷ es) =
    (if entry_fits tenant id e && is_active e then 1 else 0) + live tenant id es

abbrev pub is_once : EntryType → Bool
is_once kind = elim kind [ once ↦ true | recurring ↦ false | other_type t ↦ false ]

-- Every row with the entry's key is one-shot.
unfoldable pub all_once : Text → Text → List CronEntry → Bool
all_once tenant id [] = true
all_once tenant id (e ∷ es) =
    (if entry_fits tenant id e then is_once e.kind else true) && all_once tenant id es

called-holds :
    (P : World → Type 0) (f : World → World) (w : World) (fs : List Bool)
    → ((fs : List Bool) → P (record w { faults = fs }))
    → ((fs : List Bool) → P (f (record w { faults = fs })))
    → P (f w)
    → P (called fs f w).1
unfolding called
called-holds P f w [] without with_it now = now
called-holds P f w (true ∷ fs) without with_it now = without fs
called-holds P f w (false ∷ fs) without with_it now = with_it fs

-- What holds of what a call leaves, if it holds with the effect and without.
pub call-holds :
    (P : World → Type 0) (f : World → World) (w : World)
    → ((fs : List Bool) → P (record w { faults = fs }))
    → ((fs : List Bool) → P (f (record w { faults = fs })))
    → P (call f w).1
unfolding call
call-holds P f w without with_it = called-holds P f w w.faults without with_it (with_it w.faults)

-- The entries and the runs are the same.
abbrev Frame : World → World → Type 0
Frame w v = (v.entries ≡ w.entries) × (v.runs ≡ w.runs)

Frame-trans : (u v w : World) → Frame u v → Frame v w → Frame u w
Frame-trans u v w p q = (q.0 ∙ p.0, q.1 ∙ p.1)

module _ (env : Env) where
  copy_files-Frame :
      (dir : Text) (list : List Attachment) (w : World) → Frame w (copy_files env dir list w).1
  unfolding copy_files
  copy_files-Frame dir [] w = (refl, refl)
  copy_files-Frame dir (a ∷ rest) w =
      let f : World → World =
        λ v. record v { copies = (a.path, env.join dir a.filename) ∷ v.copies } in
      let v = (call f w).1 in
      Frame-trans w v (copy_files env dir rest v).1
        (call-holds (Frame w) f w (λ fs. (refl, refl)) (λ fs. (refl, refl)))
        (copy_files-Frame dir rest v)

  copy_into-Frame :
      (dir : Option Text) (list : List Attachment) (w : World)
      → Frame w (copy_into env dir list w).1
  unfolding copy_into
  copy_into-Frame none list w = (refl, refl)
  copy_into-Frame (some dir) list w = copy_files-Frame dir list w

  copy_found-Frame :
      (id : Text) (o : Option Message) (w : World) → Frame w (copy_found env id o w).1
  unfolding copy_found copy_attachment_files
  copy_found-Frame id none w = (refl, refl)
  copy_found-Frame id (some m) w = by_list m.attachments
    where
      by_list : (list : List Attachment) → Frame w (copy_attachment_files env id list w).1
      by_list [] = (refl, refl)
      by_list (a ∷ rest) = copy_into-Frame (env.ensure_dir id) (a ∷ rest) w

  found_or_not :
      (id : Text) (find : World → Option Message) (w : World) (asked : Bool × World)
      → Frame w asked.1
      → Frame w (resume [] asked (λ v. copy_found env id (find v) v)).1
  found_or_not id find w (false, v) kept = kept
  found_or_not id find w (true, v) kept =
      Frame-trans w v (copy_found env id (find v) v).1 kept (copy_found-Frame id (find v) v)

  attach-Frame : (e : CronEntry) (id : Text) (w : World) → Frame w (attach env e id w).1
  unfolding attach
  attach-Frame e id w = elim (Bool-cases (not (is_empty e.message) && env.has_fs)) [
    | inr bare ↦ rw bare (refl, refl)
    | inl set ↦ rw set (
        found_or_not id
          (λ v. find_row (λ m. text_eq m.tenant e.tenant && text_eq m.id e.message) v.messages) w
          (call (λ v. v) w)
          (call-holds (Frame w) (λ v. v) w (λ fs. (refl, refl)) (λ fs. (refl, refl))))
  ]

  conversation-Frame :
      (kind : EntryType) (e : CronEntry) (w : World) → Frame w (conversation_of env kind e w).1
  unfolding conversation_of new_id
  conversation-Frame once e w = (refl, refl)
  conversation-Frame recurring e w = (refl, refl)
  conversation-Frame (other_type t) e w = (refl, refl)

  publish-Frame : (msg : Message) (w : World) → Frame w (publish env msg w).1
  unfolding publish
  publish-Frame msg w = call-holds (Frame w) _ w (λ fs. (refl, refl)) (λ fs. (refl, refl))

  -- The status of a run is all that changes, after it was recorded.
  runs_of-update :
      (tenant id : Text) (p : CronRun → Bool) (s : RunStatus) (text : Text) (at : Option ℕ)
      (rs : List CronRun)
      → runs_of tenant id
          (update_rows p (λ r. record r { status = s; error = text; finished = at }) rs)
        ≡ runs_of tenant id rs
  unfolding runs_of update_rows
  runs_of-update tenant id p s text at [] = refl
  runs_of-update tenant id p s text at (r ∷ rs) =
      ground (arith, runs_of-update tenant id p s text at rs)

  module _ (tenant id : Text) where
    -- The entries are the same, and as many runs of the entry are recorded.
    abbrev Kept : World → World → Type 0
    Kept w v = (v.entries ≡ w.entries) × (runs_of tenant id v.runs ≡ runs_of tenant id w.runs)

    Frame-Kept : (u v w : World) → Frame u v → Kept v w → Kept u w
    Frame-Kept u v w p q = (q.0 ∙ p.0, q.1 ∙ ap (λ rs. runs_of tenant id rs) p.1)

    finish-Kept :
        (e : CronEntry) (run_id : Text) (now : ℕ) (sent : Bool × World)
        → Kept sent.1 (finish env e run_id now sent)
    unfolding finish update_cron_run
    finish-Kept e run_id now (true, w) =
        call-holds (Kept w) _ w (λ fs. (refl, refl))
          (λ fs. (refl, runs_of-update tenant id _ success [] (some now) w.runs))
    finish-Kept e run_id now (false, w) =
        call-holds (Kept w) _ w (λ fs. (refl, refl))
          (λ fs. (refl, runs_of-update tenant id _ failure env.publish_error (some now) w.runs))

    deliver-Kept :
        (e : CronEntry) (run_id : Text) (now : ℕ) (w : World) → Kept w (deliver env e run_id now w)
    unfolding deliver new_id
    deliver-Kept e run_id now w =
        let w1 = (conversation_of env e.kind e w).1 in
        let text = (conversation_of env e.kind e w).0 in
        let w2 = (new_id env w1).1 in
        let name = (new_id env w1).0 in
        let w3 = (attach env e name w2).1 in
        let sent = publish env (cron_message env e now name text (attach env e name w2).0) w3 in
        Frame-Kept w w3 (finish env e run_id now sent)
          (Frame-trans w w1 w3 (conversation-Frame e.kind e w) (attach-Frame e name w2))
          (Frame-Kept w3 sent.1 (finish env e run_id now sent) (publish-Frame _ w3)
            (finish-Kept e run_id now sent))

    -- The rows of an update that is not of their status are as active and as one-shot as before.
    pub live-update :
        (p : CronEntry → Bool) (next : Option ℕ) (es : List CronEntry)
        → (live tenant id (update_rows p (λ e. record e { next_run = next }) es)
            ≡ live tenant id es)
          × (all_once tenant id (update_rows p (λ e. record e { next_run = next }) es)
              ≡ all_once tenant id es)
    unfolding live all_once update_rows
    live-update p next [] = (refl, refl)
    live-update p next (e ∷ es) =
        (ground (arith, live-update p next es), ground (arith, live-update p next es))

    pub live_complete :
        (p : CronEntry → Bool) (es : List CronEntry)
        → (live tenant id (update_rows p (λ e. record e { status = completed }) es)
            ≤ live tenant id es)
          × (all_once tenant id (update_rows p (λ e. record e { status = completed }) es)
              ≡ all_once tenant id es)
    unfolding live all_once update_rows
    live_complete p [] = (ground arith, refl)
    live_complete p (e ∷ es) =
        (ground (arith, live_complete p es), ground (arith, live_complete p es))

    pub complete_none :
        (es : List CronEntry)
        → live tenant id
            (update_rows (entry_fits tenant id) (λ e. record e { status = completed }) es)
          ≡ 0
    unfolding live update_rows
    complete_none [] = refl
    complete_none (e ∷ es) = ground (arith, complete_none es)

    -- The entries are the same, and one run is recorded, of this entry or of another, or none.
    abbrev pub Added : CronEntry → World → World → Type 0
    Added e w v =
        (v.entries ≡ w.entries)
        × (runs_of tenant id v.runs
            ≤ (if entry_fits tenant id e then 1 else 0) + runs_of tenant id w.runs)

    Frame-Added : (e : CronEntry) (w v : World) → Frame w v → Added e w v
    Frame-Added e w v p = (
      p.0,
      subst (λ n. n ≤ (if entry_fits tenant id e then 1 else 0) + runs_of tenant id w.runs)
          (sym (ap (λ rs. runs_of tenant id rs) p.1)) (omega arith),
    )

    after_insert :
        (e : CronEntry) (now : ℕ) (run_id : Text) (w v : World) (o : Option CronRun)
        → Frame w v
        → Added e w
            (resume false
              (inserted (new_run env e now run_id) v o)
              (λ u. (true, deliver env e run_id now u))).1
    unfolding inserted new_run runs_of
    after_insert e now run_id w v (some r) kept = Frame-Added e w v kept
    after_insert e now run_id w v none kept =
        let u : World = record v { runs = new_run env e now run_id ∷ v.runs } in
        let done = deliver-Kept e run_id now u in
        let same : runs_of tenant id v.runs ≡ runs_of tenant id w.runs =
          ap (λ rs. runs_of tenant id rs) kept.1 in
        (done.0 ∙ kept.0, ground (arith, done.1, same))

    after_call :
        (e : CronEntry) (now : ℕ) (run_id : Text) (w : World) (asked : Bool × World)
        → Frame w asked.1
        → Added e w
            (resume false
              (resume false asked (λ v.
                inserted (new_run env e now run_id) v (find_row (λ r. text_eq r.id run_id) v.runs)))
              (λ u. (true, deliver env e run_id now u))).1
    after_call e now run_id w (false, v) kept = Frame-Added e w v kept
    after_call e now run_id w (true, v) kept = after_insert e now run_id w v _ kept

    pub record_run-Added :
        (e : CronEntry) (now : ℕ) (w : World) → Added e w (record_run env e now w)
    unfolding record_run insert_cron_run new_id new_run
    record_run-Added e now w =
        let w1 = (new_id env w).1 in
        after_call e now (new_id env w).0 w (call (λ v. v) w1)
          (call-holds (Frame w) (λ v. v) w1 (λ fs. (refl, refl)) (λ fs. (refl, refl)))
