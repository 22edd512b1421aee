-- ===== src/Prompt/Tests.antt =====
-- Tests and examples for internal/domain/service/prompt.
use whiteagent.Common.{
  ℕ, ◌+◌, false, Option, none, some, Text, text_le, store, List, [], ◌∷◌, codes, text_eq, All, inl,
  ◌≡◌, refl, arith,
}
use whiteagent.Entity.{Message, system, user, assistant, tool, bare}
use whiteagent.Prompt.{
  Format, ungrouped, group_messages, count_groups, window_history_with_budget, enrich_messages,
  messages_path, count_prompt_footprint, flatten, build_context_block,
}
use whiteagent.Prompt.Groups.{IsGroup, AreWhole, group_messages_lem}
use whiteagent.Prompt.Window.{IsWindow, window_history_lem}
use whiteagent.Loop.{Capabilities}
use whiteagent.Prompt.System.{Input, render_system}
use whiteagent.Prompt.Build.{Builder, build, trim_history_after_summary}
use whiteagent.Prompt.Build.Fits.{Stores, Fits, build-Fits}
use whiteagent.Prompt.Build.Cut.{group_messages-cut}

abbrev format : Format
format = record {
  stamp = λ t. codes "T";
  itoa = λ n. (48 + n) ∷ [];
  decimal = λ a b. codes "1.0";
  encode_calls = λ cs. some (codes "[]");
}

abbrev question : Message
question = record (bare user (codes "hi")) { id = codes "1" }

abbrev asked : Message
asked = record (bare assistant []) {
  id = codes "2";
  tool_calls = record { id = codes "c"; name = codes "time"; arguments = [] } ∷ [];
}

abbrev result : Message
result = record (bare tool (codes "noon")) { id = codes "3"; tool_call = codes "c" }

abbrev history : List Message
history = question ∷ asked ∷ result ∷ []

group_messages_lem_example :
    (flatten (group_messages history) ≡ history)
    × All (λ g. IsGroup g.messages) (group_messages history)
    × AreWhole (group_messages history)
group_messages_lem_example = group_messages_lem history

window_history_lem_example :
    IsWindow 20
      (count_groups format (group_messages history))
      (window_history_with_budget format history 20)
window_history_lem_example = window_history_lem format history 20 (omega arith)

-- The tool call and its result stay together; the question does not fit.
window_20 : window_history_with_budget format history 20 ≡ asked ∷ result ∷ []
unfolding window_history_with_budget build_context_block text_eq
window_20 = refl

abbrev caps : Capabilities
caps = record { reactions = false; indication = false }

abbrev builder : Builder ℕ
builder = record {
  renderer = record {
    template = λ d. d.agent_name;
    compact = λ s. some s;
    tools = [];
    list_skills = none;
    user_home = λ u. codes "/home";
    tenant_home = λ t. codes "/tenant";
  };
  get_memory = none;
  get_history = some (λ conv up_to n. (some history, n));
  get_summary = some (λ t conv n. (some none, n));
  resolve_users = some (λ t ids n. ([], n));
  budget = 20;
  below = some (λ pressure budget. false);
  messages_path = messages_path;
}

abbrev input : Input
input = record {
  tenant = none;
  agent = none;
  user = some (record { id = codes "u"; name = codes "Ann" });
  msg = record question { tenant = codes "t" };
  conversation = codes "c";
  caps = caps;
  up_to = none;
  out_path = [];
}

-- The prompt of the window, and the signal that names its last message.
built :
    (build builder format input 0).0
    ≡ some (
      bare system []
          ∷ enrich_messages format
              (asked ∷ result ∷ [])
              ((codes "u", codes "Ann") ∷ [])
              messages_path,
      some (codes "3"),
    )
unfolding build render_system window_history_with_budget build_context_block text_eq store
    count_prompt_footprint
built = refl

builder-Stores : Stores builder input history none
builder-Stores = record {
  get = λ conv up_to n. (some history, n);
  get_latest = λ t conv n. (some none, n);
  reads = refl;
  reads_latest = refl;
  found = λ w. refl;
  found_latest = λ w. refl;
}

build-Fits_example :
    (messages : List Message) × (signal : Option Text) × ((build builder format input 0).0
      ≡ some (messages, signal))
    × Fits builder format history messages
build-Fits_example =
    build-Fits builder format input history none 0 (omega arith) refl refl builder-Stores
      (inl refl, (inl refl, (inl refl, tt)))

group_messages-cut_example :
    group_messages (trim_history_after_summary (question ∷ asked ∷ result ∷ []) (codes "2"))
    ≡ ungrouped (result ∷ []) ∷ group_messages []
group_messages-cut_example =
    group_messages-cut (question ∷ []) asked result [] refl (unfold text_le in (refl, tt))
      (unfold text_le in ((refl, refl), tt)) refl
