-- ===== src/Scheduler.antt =====
-- internal/domain/service/scheduler/scheduler.go: a tick of the scheduler, and the firing of an entry.
mod Tables
pub mod Runs
pub mod Advance
pub mod Once
pub mod Zero
pub mod Tests
unfoldable pub use Tables.*
use whiteagent.Common.{
  ℕ, zero, suc, ◌+◌, ◌*◌, ◌/◌, Bool, true, false, not, ◌&&◌, Option, none, some, List, [], ◌∷◌,
  Text, codes, text_eq, ltb, leb, if◌then◌else◌, is_empty, Result, ok, err,
}
use whiteagent.Store.{find_row, update_rows}
use whiteagent.Cron.{Cron, CronError, parse}
use whiteagent.Cron.Next.{Civil, Zone, next_after}

-- What is not the scheduler's: identifiers, the configured zone, texts of times and errors, and the
-- scoped file system.
pub record Env : Type 0 where
  pub new_name : ℕ → Text
  pub civil : ℕ → Civil
  pub date : Civil → ℕ
  pub format : ℕ → Text
  pub publish_error : Text
  pub has_fs : Bool
  pub ensure_dir : Text → Option Text
  pub join : Text → Text → Text

-- `entry.NextRunAt == nil || entry.NextRunAt.After(now)`, negated.
abbrev pub is_due : ℕ → CronEntry → Bool
is_due now e = elim e.next_run [ none ↦ false | some t ↦ leb t now ]

abbrev pub zone : Env → Zone
zone env = record {
  Instant = ℕ;
  civil = env.civil;
  date = env.date;
  next_minute = λ t. (t / 60) * 60 + 60;
}

abbrev pub time_or_zero : Option ℕ → ℕ
time_or_zero none = 0
time_or_zero (some t) = t

-- `NextAfter`, whose zero time is 0.
pub next_run_after : Env → Cron → ℕ → ℕ
next_run_after env c now = time_or_zero (next_after (zone env) c now)

put : Text → Text → List (Text × Text) → List (Text × Text)
put k v [] = (k, v) ∷ []
put k v ((k', v') ∷ m) = if text_eq k k' then (k, v) ∷ m else (k', v') ∷ put k v m

abbrev type_text : EntryType → Text
type_text once = codes "once"
type_text recurring = codes "recurring"
type_text (other_type t) = t

message_metadata : Env → CronEntry → List (Text × Text)
unfolding put
message_metadata env e =
    put (codes "cron_created_at") (env.format e.created)
      (put (codes "cron_type") (type_text e.kind) (put (codes "cron_name") e.name e.metadata))

new_id : Env → World → Text × World
new_id env w = (env.new_name w.serial, record w { serial = suc w.serial })

module _ (env : Env) where
  -- The entry's state is changed before anything is published.
  by_expr : CronEntry → ℕ → Result CronError Cron → Step
  by_expr e now (err x) w = (false, w)
  by_expr e now (ok c) w = update_cron_next_run e.tenant e.id (some (next_run_after env c now)) w

  pub advance : EntryType → CronEntry → ℕ → Step
  unfolding by_expr
  advance once e now =
      update_cron_status e.tenant e.id completed then update_cron_next_run e.tenant e.id none
  advance recurring e now = by_expr e now (parse e.cron_expr)
  advance (other_type t) e now = λ w. (true, w)

  -- The files that can be copied; the others are left out.
  copy_files : Text → List Attachment → World → List Attachment × World
  copy_files dir [] w = ([], w)
  copy_files dir (a ∷ rest) w =
      let dst = env.join dir a.filename in
      let (copied, w1) = call (λ v. record v { copies = (a.path, dst) ∷ v.copies }) w in
      let (others, w2) = copy_files dir rest w1 in
      ((if copied then record a { path = dst } ∷ others else others), w2)

  copy_into : Option Text → List Attachment → World → List Attachment × World
  unfolding copy_files
  copy_into none list w = ([], w)
  copy_into (some dir) list w = copy_files dir list w

  copy_attachment_files : Text → List Attachment → World → List Attachment × World
  unfolding copy_into
  copy_attachment_files dir_id [] w = ([], w)
  copy_attachment_files dir_id (a ∷ rest) w = copy_into (env.ensure_dir dir_id) (a ∷ rest) w

  copy_found : Text → Option Message → World → List Attachment × World
  unfolding copy_attachment_files
  copy_found id none w = ([], w)
  copy_found id (some m) w = copy_attachment_files id m.attachments w

  -- The attachments of the message that the entry was made by, copied for the new message.
  attach : CronEntry → Text → World → List Attachment × World
  unfolding copy_found
  attach e id w =
      if not (is_empty e.message) && env.has_fs
      then resume [] (call (λ v. v) w) (λ v.
        copy_found id
          (find_row (λ m. text_eq m.tenant e.tenant && text_eq m.id e.message) v.messages) v)
      else ([], w)

  -- A recurring entry's run is a conversation of its own.
  conversation_of : EntryType → CronEntry → World → Text × World
  unfolding new_id
  conversation_of recurring e w = new_id env w
  conversation_of _ e w = (e.conversation, w)

  pub publish : Message → Step
  publish msg = call (λ w. record w { published = msg ∷ w.published })

  finish : CronEntry → Text → ℕ → Bool × World → World
  finish e run now (true, w) = (update_cron_run e.tenant run success [] now w).1
  finish e run now (false, w) = (update_cron_run e.tenant run failure env.publish_error now w).1

  cron_message : CronEntry → ℕ → Text → Text → List Attachment → Message
  unfolding message_metadata
  cron_message e now id conversation attachments = record {
    id = id;
    tenant = e.tenant;
    user = e.user;
    agent = e.agent;
    chat = e.chat;
    is_group = e.is_group;
    content = e.instructions;
    metadata = message_metadata env e;
    conversation = conversation;
    attachments = attachments;
    created = now;
  }

  -- What follows once the run is recorded.
  pub deliver : CronEntry → Text → ℕ → World → World
  unfolding new_id attach conversation_of finish cron_message
  deliver e run now w =
      let (conversation, w1) = conversation_of e.kind e w in
      let (id, w2) = new_id env w1 in
      let (attachments, w3) = attach e id w2 in
      finish e run now (publish (cron_message e now id conversation attachments) w3)

  new_run : CronEntry → ℕ → Text → CronRun
  new_run e now id = record {
    id = id;
    entry = e.id;
    tenant = e.tenant;
    status = running;
    error = [];
    started = now;
    finished = none;
  }

  -- The run is recorded and, if that succeeds, the message is published.
  pub record_run : CronEntry → ℕ → World → World
  unfolding new_id new_run
  record_run e now w =
      let (run, w1) = new_id env w in
      (resume false (insert_cron_run (new_run e now run) w1) (λ v. (true, deliver e run now v))).1

  pub fire_entry : CronEntry → ℕ → World → World
  fire_entry e now w = (resume false (advance e.kind e now w) (λ v. (true, record_run e now v))).1

  pub fire_due : ℕ → List CronEntry → World → World
  unfolding fire_entry
  fire_due now [] w = w
  fire_due now (e ∷ es) w = fire_due now es (if is_due now e then fire_entry e now w else w)

  pub tick : ℕ → World → World
  unfolding fire_due
  tick now w =
      (resume false (call (λ v. v) w) (λ v. (true, fire_due now (active_entries v.entries) v))).1

  -- The poll loop, over the times of its ticker.
  pub run : List ℕ → World → World
  unfolding tick
  run [] w = w
  run (now ∷ times) w = run times (tick now w)
