-- ===== src/Prompt.antt =====
-- internal/domain/service/prompt/render.go: how a history becomes the messages of a prompt.
-- The context blocks are built in Prompt/Blocks.antt. What the standard library writes (times, numbers
-- with a decimal, JSON) is a parameter.
mod Blocks
pub mod Groups
pub mod System
pub mod Build
pub mod Window
pub mod Footprint
pub mod Tests
unfoldable pub use Blocks.*
use whiteagent.Common.{
  ℕ, zero, suc, ◌+◌, ◌-◌, ◌/◌, Bool, true, false, not, ◌&&◌, ◌||◌, Option, none, some, List, [],
  ◌∷◌, ◌++◌, Text, codes, text_eq, length, leb, ◌==◌, if◌then◌else◌, is_empty,
}
use mathlib.Core.List.{reverse}
use whiteagent.Entity.{Message, ToolCall, Role, is_tool, is_assistant, is_user}

-- pkg/token/token.go: `Count`, of a text's length
abbrev pub count_bytes : ℕ → ℕ
count_bytes n = if n == 0 then 0 else (n + 3) / 4

abbrev pub count : Text → ℕ
count s = count_bytes (length s)

-- messageGroup
pub record MessageGroup : Type 0 where
  pub messages : List Message
  pub tokens : ℕ

abbrev pub has_calls : Message → Bool
has_calls m = is_assistant m.role && not (is_empty m.tool_calls)

abbrev pub call_ids : List ToolCall → List Text
call_ids [] = []
call_ids (c ∷ cs) = c.id ∷ call_ids cs

-- The set of the calls that are still to be answered, as a list: `_, ok := expected[id]`, and `delete`.
abbrev pub expects : Text → List Text → Bool
expects id [] = false
expects id (e ∷ es) = text_eq id e || expects id es

abbrev pub without : Text → List Text → List Text
without id [] = []
without id (e ∷ es) = let rest = without id es in if text_eq id e then rest else e ∷ rest

abbrev pub answers : List Text → Message → Bool
answers expected m = is_tool m.role && expects m.tool_call expected

-- The loop over `j`: the results that follow, and what is left.
pub take_results : List Text → List Message → List Message × List Message
take_results expected [] = ([], [])
take_results expected (m ∷ ms) =
    let (taken, rest) = take_results (without m.tool_call expected) ms in
    if answers expected m then (m ∷ taken, rest) else ([], m ∷ ms)

abbrev pub ungrouped : List Message → MessageGroup
ungrouped ms = record { messages = ms; tokens = 0 }

-- The group at `i`, and the messages from the next `i` on.
next_group : Message → List Message → List Message × List Message
unfolding take_results
next_group m ms =
    if has_calls m
    then (let (taken, rest) = take_results (call_ids m.tool_calls) ms in (m ∷ taken, rest))
    else (m ∷ [], ms)

-- The loop over `i`, with a bound on its rounds.
group_rounds : ℕ → List Message → List MessageGroup
unfolding next_group
group_rounds zero ms = []
group_rounds (suc n) [] = []
group_rounds (suc n) (m ∷ ms) = ungrouped (next_group m ms).0 ∷ group_rounds n (next_group m ms).1

-- A round takes at least one message.
pub group_messages : List Message → List MessageGroup
unfolding group_rounds
group_messages msgs = group_rounds (length msgs) msgs

-- The newest groups that fit, from the newest on; `kept` stands in chronological order.
keep_newest : ℕ → List MessageGroup → List MessageGroup → List MessageGroup
keep_newest remaining [] kept = kept
keep_newest remaining (g ∷ gs) kept =
    let rest = keep_newest (remaining - g.tokens) gs (g ∷ kept) in
    if leb g.tokens remaining then rest else kept

abbrev pub flatten : List MessageGroup → List Message
flatten [] = []
flatten (g ∷ gs) = g.messages ++ flatten gs

pub window_messages : List MessageGroup → ℕ → List Message
unfolding keep_newest
window_messages groups budget = flatten (keep_newest budget (reverse groups) [])

-- An evicted message that produces no output.
abbrev pub is_silent : Message → Bool
is_silent m =
    is_tool m.role || (is_assistant m.role && (is_empty m.content && is_empty m.tool_calls))

abbrev pub gets_block : Message → Bool
gets_block m =
    is_user m.role || ((is_assistant m.role && not (is_empty m.content)) || is_tool m.role)

abbrev pub messages_path : Text
messages_path = codes "/messages"

-- The new content of a message, by whether it is evicted, is silent if so, and gets a block if not.
with_block : Bool → Bool → Bool → Text → Message → Message
with_block true true gets block m = record m { content = [] }
with_block true false gets block m = record m { content = block }
with_block false silent true block m = record m { content = block ++ m.content }
with_block false silent false block m = m

module _ (format : Format) where
  encoded : Message → Text
  encoded m =
      if has_calls m then elim (format.encode_calls m.tool_calls) [ none ↦ [] | some s ↦ s ] else []

  pub count_prompt_footprint : List Message → ℕ
  unfolding encoded
  count_prompt_footprint [] = 0
  count_prompt_footprint (m ∷ ms) = count (m.content ++ encoded m) + count_prompt_footprint ms

  enrich_message : List (Text × Text) → Text → Message → Message
  unfolding with_block
  enrich_message names path m =
      with_block m.evicted (is_silent m) (gets_block m) (build_context_block format m names path) m

  pub enrich_messages : List Message → List (Text × Text) → Text → List Message
  unfolding enrich_message
  enrich_messages [] names path = []
  enrich_messages (m ∷ ms) names path = enrich_message names path m ∷ enrich_messages ms names path

  -- The tokens of a message, by whether it is evicted and silent.
  rendered_tokens : Bool → Bool → Text → Message → ℕ
  unfolding encoded
  rendered_tokens true true block m = 0
  rendered_tokens true false block m = count block
  rendered_tokens false silent block m = count ((block ++ m.content) ++ encoded m)

  message_tokens : Message → ℕ
  unfolding rendered_tokens
  message_tokens m =
      rendered_tokens m.evicted (is_silent m) (build_context_block format m [] messages_path) m

  count_tokens : List Message → ℕ
  unfolding message_tokens
  count_tokens [] = 0
  count_tokens (m ∷ ms) = message_tokens m + count_tokens ms

  pub count_group_tokens : MessageGroup → ℕ
  unfolding count_tokens
  count_group_tokens g = count_tokens g.messages

  pub count_groups : List MessageGroup → List MessageGroup
  unfolding count_group_tokens
  count_groups [] = []
  count_groups (g ∷ gs) = record g { tokens = count_group_tokens g } ∷ count_groups gs

  -- internal/domain/service/prompt/prompt.go: a budget below 0 counts as 0.
  pub window_history_with_budget : List Message → ℕ → List Message
  unfolding count_groups group_messages window_messages
  window_history_with_budget history budget =
      if is_empty history || budget == 0
      then []
      else window_messages (count_groups (group_messages history)) budget
