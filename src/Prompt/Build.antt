-- ===== src/Prompt/Build.antt =====
-- internal/domain/service/prompt/prompt.go: `Build`, the prompt of a conversation.
-- The store, the conversation service and the names of users are parameters, none if nil; each call of the
-- first two may fail. A token budget below 0 counts as 0, and the comparison of a quotient with the
-- threshold of the configuration is a parameter.
pub mod Fits
pub mod Cut
use whiteagent.Common.{
  ℕ, ◌+◌, ◌-◌, Bool, true, false, not, ◌&&◌, ◌||◌, Option, none, some, List, [], ◌∷◌, ◌++◌, Text,
  codes, text_le, store, ◌==◌, if◌then◌else◌, is_empty,
}
use whiteagent.Entity.{Message, system, bare, is_user}
use whiteagent.Loop.{User}
use whiteagent.Prompt.{
  Format, format_timestamp, Attrs, attr_if, open_tag, close_tag, child, count,
  count_prompt_footprint, enrich_messages, window_history_with_budget,
}
use whiteagent.Prompt.System.{Renderer, Input, render_system}

-- What is read of an entity.Summary
pub record Summary : Type 0 where
  pub id : Text
  pub content : Text
  pub message_id : Text
  pub created_at : ℕ

-- PromptBuilder: `below` tells whether tokens by budget are below the threshold, and is none without a
-- configuration of compaction.
pub record Builder (W : Type 0) : Type 0 where
  pub renderer : Renderer W
  pub get_memory : Option (Text → Text → Text → W → Option (Option Text) × W)
  pub get_history : Option (Text → Option Text → W → Option (List Message) × W)
  pub get_summary : Option (Text → Text → W → Option (Option Summary) × W)
  pub resolve_users : Option (Text → List Text → W → List (Text × Text) × W)
  pub budget : ℕ
  pub below : Option (ℕ → ℕ → Bool)
  pub messages_path : Text

abbrev pub flat : {A : Type 0} → Option (Option A) → Option A
flat none = none
flat (some found) = found

abbrev latest_summary_message_id : Option Summary → Text
latest_summary_message_id none = []
latest_summary_message_id (some s) = s.message_id

abbrev pub is_covered : Text → Message → Bool
is_covered latest m = is_empty m.id || text_le m.id latest

pub without_covered : Text → List Message → List Message
without_covered latest [] = []
without_covered latest (m ∷ ms) =
    let rest = without_covered latest ms in if is_covered latest m then rest else m ∷ rest

pub trim_history_after_summary : List Message → Text → List Message
unfolding without_covered
trim_history_after_summary history latest =
    if is_empty latest then history else without_covered latest history

summary_attrs : Format → Summary → Attrs
summary_attrs format s =
    attr_if (not (is_empty s.id)) (codes "id") s.id
    ++ attr_if (not (s.created_at == 0)) (codes "ts") (format_timestamp format s.created_at)

render_summary_block : Format → Summary → Text
unfolding summary_attrs
render_summary_block format s =
    open_tag (codes "summary") (summary_attrs format s)
    ++ child (codes "content") s.content
    ++ close_tag (codes "summary")

ends_line : Text → Bool
ends_line [] = false
ends_line (b ∷ []) = b == 10
ends_line (b ∷ c ∷ s) = ends_line (c ∷ s)

render_compacted_block : Format → Text → Summary → Text
unfolding render_summary_block ends_line
render_compacted_block format conv s =
    let rendered = render_summary_block format s in
    codes "<wa_compacted_context"
    ++ (if is_empty conv then [] else codes " conversation_id=\"" ++ conv ++ codes "\"")
    ++ codes ">\n"
    ++ rendered
    ++ (if ends_line rendered then [] else codes "\n")
    ++ codes "</wa_compacted_context>\n"

pub compacted_msgs : Format → Text → Option Summary → List Message
unfolding render_compacted_block
compacted_msgs format conv none = []
compacted_msgs format conv (some s) = bare system (render_compacted_block format conv s) ∷ []

-- The senders to look up.
user_ids : List Message → List Text
user_ids [] = []
user_ids (m ∷ ms) =
    let rest = user_ids ms in
    if is_user m.role && not (is_empty m.user_id) then m.user_id ∷ rest else rest

pub with_user : Option User → List (Text × Text) → List (Text × Text)
with_user none names = names
with_user (some u) names = if is_empty u.id then names else store u.id u.name names

last_id : Text → List Message → Text
last_id id [] = id
last_id id (m ∷ ms) = last_id m.id ms

signal_of : Text → Option Text
signal_of [] = none
signal_of (b ∷ id) = some (b ∷ id)

latest_of : Option Text → Message → List Message → Text
unfolding last_id
latest_of (some (b ∷ id)) msg window = b ∷ id
latest_of (some []) msg window = last_id msg.id window
latest_of none msg window = last_id msg.id window

build_compaction_signal :
    Option (ℕ → ℕ → Bool) → ℕ → ℕ → Message → List Message → Option Text → Option Text
unfolding signal_of latest_of
build_compaction_signal none budget pressure msg window up_to = none
build_compaction_signal (some below) budget pressure msg window up_to =
    if budget == 0 || below pressure budget then none else signal_of (latest_of up_to msg window)

-- The owner of the memory, if there is one.
memory_owner : Bool → Option User → Message → Text × Text
memory_owner true user msg = (codes "chat", msg.chat)
memory_owner false (some u) msg = (codes "user", u.id)
memory_owner false none msg = ([], [])

abbrev tenant_of : Input → Text
tenant_of input =
    if is_empty input.msg.tenant
    then elim input.tenant [ none ↦ [] | some t ↦ t.id ]
    else input.msg.tenant

module _ {W : Type 0} where
  memory_of : Option (Text → Text → Text → W → Option (Option Text) × W) → Input → W → Text × W
  unfolding memory_owner
  memory_of none input w = ([], w)
  memory_of (some get) input w = elim input.tenant [
    | none ↦ ([], w)
    | some t ↦
        let (kind, id) = memory_owner input.msg.is_group input.user input.msg in
        let (found, w') = get t.id kind id w in
        if is_empty id then ([], w) else (elim (flat found) [ none ↦ [] | some m ↦ m ], w')
  ]

  fetch_latest_summary :
      Option (Text → Text → W → Option (Option Summary) × W) → Text → Text → W → Option Summary × W
  fetch_latest_summary none tenant conv w = (none, w)
  fetch_latest_summary (some get) tenant conv w =
      let (found, w') = get tenant conv w in
      if is_empty tenant || is_empty conv then (none, w) else (flat found, w')

  resolved_names :
      Option (Text → List Text → W → List (Text × Text) × W)
      → Input
      → List Message
      → W
      → List (Text × Text) × W
  unfolding user_ids
  resolved_names none input window w = ([], w)
  resolved_names (some resolve) input window w = elim input.tenant [
    | none ↦ ([], w)
    | some t ↦
        let found = resolve t.id (user_ids window) w in
        if is_empty (user_ids window) then ([], w) else found
  ]

module _ {W : Type 0} (b : Builder W) where
  -- The history that the latest summary does not cover, and the summary.
  fetched : Option (List Message) → Input → W → Option (List Message × Option Summary) × W
  unfolding trim_history_after_summary fetch_latest_summary
  fetched none input w = (none, w)
  fetched (some history) input w =
      let (latest, w') =
        fetch_latest_summary b.get_summary (tenant_of input) input.conversation w in
      (some (trim_history_after_summary history (latest_summary_message_id latest), latest), w')

  fetch :
      Option (Text → Option Text → W → Option (List Message) × W)
      → Input
      → W
      → Option (List Message × Option Summary) × W
  unfolding fetched
  fetch none input w = (some ([], none), w)
  fetch (some get) input w =
      let (found, w1) = get input.conversation input.up_to w in
      let result = fetched found input w1 in
      if is_empty input.conversation then (some ([], none), w) else result

  module _ (format : Format) where
    pub windowed : ℕ → ℕ → List Message → List Message
    windowed system_tokens summary_tokens history =
        if b.budget == 0
        then history
        else window_history_with_budget format history (b.budget - system_tokens - summary_tokens)

    -- From the system prompt and what was fetched on.
    assembled :
        Input
        → Text
        → Option (List Message × Option Summary)
        → W
        → Option (List Message × Option Text) × W
    unfolding compacted_msgs windowed resolved_names with_user build_compaction_signal
    assembled input prompt none w = (none, w)
    assembled input prompt (some (history, latest)) w =
        let compacted = compacted_msgs format input.conversation latest in
        let system_tokens = count prompt in
        let summary_tokens = count_prompt_footprint format compacted in
        let window = windowed system_tokens summary_tokens history in
        let (names, w') = resolved_names b.resolve_users input window w in
        let enriched = enrich_messages format window (with_user input.user names) b.messages_path in
        (
          some (
            bare system prompt ∷ (compacted ++ enriched),
            build_compaction_signal b.below b.budget
                (system_tokens + summary_tokens + count_prompt_footprint format enriched) input.msg
                window input.up_to,
          ),
          w',
        )

    unfoldable pub build : Input → W → Option (List Message × Option Text) × W
    unfolding memory_of fetch assembled
    build input w =
        let (memory, w1) = memory_of b.get_memory input w in
        let (prompt, w2) = render_system b.renderer input memory w1 in
        let (found, w3) = fetch b.get_history input w2 in assembled input prompt found w3
