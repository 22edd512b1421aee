-- ===== src/Compaction.antt =====
-- internal/domain/service/compaction/service.go: the summaries of the older part of a conversation.
-- The store, the conversation service, the model and the template are parameters; a call that fails gives
-- none or false. `preserveRecentMessages` is a natural number: 0 stands for what is not above 0.
pub mod Split
pub mod Tests
use whiteagent.Common.{
  ℕ, zero, suc, ◌+◌, ◌-◌, Bool, true, false, not, ◌&&◌, ◌||◌, Option, none, some, List, [], ◌∷◌,
  ◌++◌, Text, codes, text_eq, text_le, has_prefix, after, trim_space, split, length, ltb, leb, ◌==◌,
  if◌then◌else◌, is_empty, load, store, Result, ok, err,
}

-- entity.Attachment
pub record Attached : Type 0 where
  pub id : Text
  pub kind : Text
  pub path : Text
  pub filename : Text
  pub caption : Text

-- What is read of the messages of the history.
pub record Past : Type 0 where
  pub id : Text
  pub role : Text
  pub content : Text
  pub attachments : List Attached

-- entity.Summary, less its time
pub record Summary : Type 0 where
  pub id : Text
  pub tenant : Text
  pub conversation : Text
  pub content : Text
  pub message_id : Text

-- templateMessage
pub record TemplateMessage : Type 0 where
  pub id : Text
  pub role : Text
  pub content : Text
  pub attachments : List Text

pub record Request : Type 0 where
  pub tenant : Text
  pub conversation : Text
  pub latest_message : Text

-- What the service calls: GetLatestSummary, RegisterConversation, GetHistory, the template, Complete, NewID
-- and SaveSummary.
pub record Given (W : Type 0) : Type 0 where
  pub latest_summary : Text → Text → W → Option (Option Summary) × W
  pub register : Text → Text → W → W
  pub history : Text → Text → W → Option (List Past) × W
  pub render : List Summary → List TemplateMessage → Option Text
  pub complete : Text → Text → Text → W → Option Text × W
  pub new_id : W → Text × W
  pub save_summary : Text → Summary → W → Bool × W

pub data CompactError : Type 0 where
  no_summary no_history no_prompt no_completion not_saved : CompactError

-- Whether the latest summary covers a message.
abbrev pub is_summarized : Text → Past → Bool
is_summarized last m = is_empty m.id || text_le m.id last

pub newer_than : Text → List Past → List Past
newer_than last [] = []
newer_than last (m ∷ ms) =
    let rest = newer_than last ms in if is_summarized last m then rest else m ∷ rest

pub trim_summarized_messages : List Past → Option Summary → List Past
unfolding newer_than
trim_summarized_messages history none = history
trim_summarized_messages history (some s) =
    if is_empty s.message_id then history else newer_than s.message_id history

abbrev pub take : ℕ → List Past → List Past
take zero ms = []
take (suc n) [] = []
take (suc n) (m ∷ ms) = m ∷ take n ms

pub trim_preserved_tail : List Past → ℕ → List Past
trim_preserved_tail history preserve =
    if preserve == 0
    then history
    else if leb (length history) preserve
    then []
    else take (length history - preserve) history

abbrev or_else : Text → Text → Text
or_else s t = if is_empty s then t else s

attachment_ref : Attached → Text
attachment_ref a =
    or_else (trim_space a.path)
      (or_else (trim_space a.filename) (or_else (trim_space a.id) (codes "attachment")))
    ++ codes ": "
    ++ or_else (trim_space a.caption) (or_else (trim_space a.kind) (codes "attachment"))

pub attachment_refs : List Attached → List Text
unfolding attachment_ref
attachment_refs [] = []
attachment_refs (a ∷ as') = attachment_ref a ∷ attachment_refs as'

abbrev lower : ℕ → ℕ
lower c = if leb b'A' c && leb c b'Z' then c + 32 else c

-- strings.ToLower, for ASCII
to_lower : Text → Text
to_lower [] = []
to_lower (c ∷ s) = lower c ∷ to_lower s

-- The names of the sections in order.
abbrev pub required_sections : List Text
required_sections = codes "Goals" ∷ codes "Files" ∷ codes "State" ∷ codes "Decisions" ∷ []

canonical_section : Text → Text
unfolding to_lower
canonical_section name =
    let key = to_lower (trim_space name) in
    if text_eq key (codes "goals")
    then codes "Goals"
    else if text_eq key (codes "files")
    then codes "Files"
    else if text_eq key (codes "state")
    then codes "State"
    else if text_eq key (codes "decisions")
    then codes "Decisions"
    else []

-- strings.Join with the separator "\n"
join : List Text → Text
join [] = []
join (s ∷ []) = s
join (s ∷ t ∷ ts) = s ++ (10 ∷ join (t ∷ ts))

-- `flush`
flushed : Text → List Text → List (Text × Text) → List (Text × Text)
unfolding join
flushed current body sections =
    if is_empty current then sections else store current (trim_space (join body)) sections

-- The section that a heading opens; none, if the line is no heading of a known section.
heading : Text → Text
unfolding canonical_section
heading line =
    let trimmed = trim_space line in
    if has_prefix trimmed (codes "## ")
    then canonical_section (trim_space (after 3 trimmed))
    else []

section_lines : List Text → Text → List Text → List (Text × Text) → List (Text × Text)
unfolding flushed heading
section_lines [] current body sections = flushed current body sections
section_lines (line ∷ lines) current body sections =
    if not (is_empty (heading line))
    then section_lines lines (heading line) [] (flushed current body sections)
    else section_lines lines current (if is_empty current then body else body ++ (line ∷ []))
        sections

-- Two bytes "\r\n" become "\n".
unix_lines : Text → Text
unix_lines [] = []
unix_lines (a ∷ []) = a ∷ []
unix_lines (a ∷ b ∷ s) =
    let rest = unix_lines (b ∷ s) in if a == 13 && b == 10 then rest else a ∷ rest

pub parse_sections : Text → List (Text × Text)
unfolding section_lines unix_lines
parse_sections raw = section_lines (split 10 (unix_lines raw)) [] [] []

abbrev seen_in : Text → List Text → Bool
seen_in r [] = false
seen_in r (s ∷ ss) = let rest = seen_in r ss in if text_eq r s then true else rest

add_refs : List Text → List Text → List Text
add_refs [] seen = seen
add_refs (r ∷ rs) seen = add_refs rs (if seen_in r seen then seen else seen ++ (r ∷ []))

all_refs : List Past → List Text → List Text
unfolding add_refs attachment_refs
all_refs [] seen = seen
all_refs (m ∷ ms) seen = all_refs ms (add_refs (attachment_refs m.attachments) seen)

dashed : List Text → List Text
dashed [] = []
dashed (r ∷ rs) = (codes "- " ++ r) ∷ dashed rs

pub normalize_files_section : List Past → Text
unfolding all_refs dashed join
normalize_files_section history =
    let refs = all_refs history [] in if is_empty refs then codes "None." else join (dashed refs)

abbrev section_text : Option Text → Text
section_text none = codes "None."
section_text (some content) = or_else (trim_space content) (codes "None.")

write_sections : List Text → List (Text × Text) → Text
write_sections [] sections = []
write_sections (name ∷ []) sections =
    codes "## " ++ name ++ (10 ∷ section_text (load name sections))
write_sections (name ∷ next ∷ names) sections =
    codes "## "
    ++ name
    ++ (10 ∷ section_text (load name sections))
    ++ (10 ∷ 10 ∷ write_sections (next ∷ names) sections)

pub normalize_summary : Text → List Past → Text
unfolding write_sections
normalize_summary raw history =
    write_sections required_sections
      (store (codes "Files") (normalize_files_section history) (parse_sections raw))

abbrev template_message : Past → TemplateMessage
template_message m = record {
  id = m.id;
  role = m.role;
  content = m.content;
  attachments = attachment_refs m.attachments;
}

template_messages : List Past → List TemplateMessage
template_messages [] = []
template_messages (m ∷ ms) = template_message m ∷ template_messages ms

-- The identifier of the last message.
abbrev pub last_id : Past → List Past → Text
last_id m [] = m.id
last_id m (n ∷ ms) = last_id n ms

abbrev pub new_summary : Text → Request → Text → Past → List Past → Summary
new_summary id req raw m ms = record {
  id = id;
  tenant = req.tenant;
  conversation = req.conversation;
  content = normalize_summary raw (m ∷ ms);
  message_id = last_id m ms;
}

-- The messages that are summed up next.
abbrev pub chosen : ℕ → Option Summary → List Past → List Past
chosen preserve latest history =
    trim_preserved_tail (trim_summarized_messages history latest) preserve

abbrev prior : Option Summary → List Summary
prior none = []
prior (some s) = s ∷ []

module _ {W : Type 0} (given : Given W) (model : Text) (preserve : ℕ) where
  stored : Bool × W → Result CompactError (Unit {0}) × W
  stored (true, w) = (ok tt, w)
  stored (false, w) = (err not_saved, w)

  completed : Request → Past → List Past → Option Text × W → Result CompactError (Unit {0}) × W
  unfolding stored
  completed req m ms (none, w) = (err no_completion, w)
  completed req m ms (some raw, w) =
      let (id, w1) = given.new_id w in
      stored (given.save_summary req.tenant (new_summary id req raw m ms) w1)

  rendered : Request → Past → List Past → Option Text → W → Result CompactError (Unit {0}) × W
  unfolding completed
  rendered req m ms none w = (err no_prompt, w)
  rendered req m ms (some prompt) w = completed req m ms (given.complete req.tenant model prompt w)

  sum_up : Request → Option Summary → List Past → W → Result CompactError (Unit {0}) × W
  unfolding rendered template_messages
  sum_up req latest [] w = (ok tt, w)
  sum_up req latest (m ∷ ms) w =
      rendered req m ms (given.render (prior latest) (template_messages (m ∷ ms))) w

  with_history :
      Request → Option Summary → Option (List Past) × W → Result CompactError (Unit {0}) × W
  unfolding sum_up
  with_history req latest (none, w) = (err no_history, w)
  with_history req latest (some history, w) = sum_up req latest (chosen preserve latest history) w

  with_summary : Request → Option (Option Summary) × W → Result CompactError (Unit {0}) × W
  unfolding with_history
  with_summary req (none, w) = (err no_summary, w)
  with_summary req (some latest, w) = with_history req latest (
      given.history req.conversation req.latest_message
        (given.register req.tenant req.conversation w))

  pub compact : Request → W → Result CompactError (Unit {0}) × W
  unfolding with_summary
  compact req w = with_summary req (given.latest_summary req.tenant req.conversation w)
