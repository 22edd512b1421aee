-- ===== src/Scheduler/Tables.antt =====
-- pkg/plugins/store/sqlite/cron.go: the tables of entries and runs, and the statements on them that the
-- scheduler makes. A time is in seconds, as the tables keep it, and the zero time is 0. A call fails if
-- the next of `faults` says so.
use whiteagent.Common.{
  ℕ, Bool, true, false, ◌&&◌, Option, none, some, List, [], ◌∷◌, Text, text_eq, leb, if◌then◌else◌,
}
use whiteagent.Store.{find_row, update_rows}

pub data EntryType : Type 0 where
  once recurring : EntryType
  other_type : Text → EntryType

pub data Status : Type 0 where
  active paused completed : Status

pub record CronEntry : Type 0 where
  pub id : Text
  pub tenant : Text
  pub agent : Text
  pub user : Text
  pub chat : Text
  pub is_group : Bool
  pub name : Text
  pub instructions : Text
  pub kind : EntryType
  pub cron_expr : Text
  pub next_run : Option ℕ
  pub status : Status
  pub created : ℕ
  pub metadata : List (Text × Text)
  pub conversation : Text
  pub message : Text

pub data RunStatus : Type 0 where
  running success failure : RunStatus

pub record CronRun : Type 0 where
  pub id : Text
  pub entry : Text
  pub tenant : Text
  pub status : RunStatus
  pub error : Text
  pub started : ℕ
  pub finished : Option ℕ

pub record Attachment : Type 0 where
  pub id : Text
  pub kind : Text
  pub filename : Text
  pub mime_type : Text
  pub size : ℕ
  pub path : Text
  pub caption : Text

-- A message of kind "cron" and of the user's role, as far as `fireEntry` sets it.
pub record Message : Type 0 where
  pub id : Text
  pub tenant : Text
  pub user : Text
  pub agent : Text
  pub chat : Text
  pub is_group : Bool
  pub content : Text
  pub metadata : List (Text × Text)
  pub conversation : Text
  pub attachments : List Attachment
  pub created : ℕ

-- The store's cron tables, its messages, what was published, and the files that were copied.
pub record World : Type 0 where
  pub entries : List CronEntry
  pub runs : List CronRun
  pub messages : List Message
  pub published : List Message
  pub copies : List (Text × Text)
  pub faults : List Bool
  pub serial : ℕ

-- A step that may return early: false says that it did.
abbrev pub Step : Type 0
Step = World → Bool × World

abbrev pub resume {ℓ} : {A : Type ℓ} → A → Bool × World → (World → A × World) → A × World
resume early (true, w) k = k w
resume early (false, w) k = (early, w)

infixl 5 ◌then◌
abbrev pub ◌then◌ : Step → Step → Step
(m then k) w = resume false (m w) k

-- A call with an effect either fails without it or has it.
unfoldable pub called : List Bool → (World → World) → Step
called [] f w = (true, f w)
called (true ∷ fs) f w = (false, record w { faults = fs })
called (false ∷ fs) f w = (true, f (record w { faults = fs }))

unfoldable pub call : (World → World) → Step
unfolding called
call f w = called w.faults f w

abbrev pub entry_fits : Text → Text → CronEntry → Bool
entry_fits tenant id e = text_eq e.id id && text_eq e.tenant tenant

unfoldable pub update_cron_status : Text → Text → Status → Step
update_cron_status tenant id s = call (λ w. record w {
  entries = update_rows (entry_fits tenant id) (λ e. record e { status = s }) w.entries;
})

unfoldable pub update_cron_next_run : Text → Text → Option ℕ → Step
update_cron_next_run tenant id next = call (λ w. record w {
  entries = update_rows (entry_fits tenant id) (λ e. record e { next_run = next }) w.entries;
})

-- The key of the table is the identifier of the run.
unfoldable pub inserted : CronRun → World → Option CronRun → Bool × World
inserted run w (some r) = (false, w)
inserted run w none = (true, record w { runs = run ∷ w.runs })

unfoldable pub insert_cron_run : CronRun → Step
unfolding inserted
insert_cron_run run w =
    let (ok', w') = call (λ v. v) w in
    resume false (ok', w') (λ v. inserted run v (find_row (λ r. text_eq r.id run.id) v.runs))

unfoldable pub update_cron_run : Text → Text → RunStatus → Text → ℕ → Step
update_cron_run tenant id s error at = call (λ w. record w {
  runs =
      update_rows (λ r. text_eq r.id id && text_eq r.tenant tenant)
        (λ r. record r { status = s; error = error; finished = some at }) w.runs;
})

abbrev pub is_active : CronEntry → Bool
is_active e = elim e.status [ active ↦ true | paused ↦ false | completed ↦ false ]

-- `next_run_at ASC`, with NULL last.
abbrev pub before : Option ℕ → Option ℕ → Bool
before none o = false
before (some a) none = true
before (some a) (some b) = leb a b

unfoldable pub insert_due : CronEntry → List CronEntry → List CronEntry
insert_due e [] = e ∷ []
insert_due e (d ∷ ds) =
    let rest = insert_due e ds in if before e.next_run d.next_run then e ∷ d ∷ ds else d ∷ rest

unfoldable pub active_entries : List CronEntry → List CronEntry
unfolding insert_due
active_entries [] = []
active_entries (e ∷ es) =
    let rest = active_entries es in if is_active e then insert_due e rest else rest
