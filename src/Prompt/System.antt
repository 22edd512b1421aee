-- ===== src/Prompt/System.antt =====
-- internal/domain/service/prompt/prompt.go: the system prompt, from the data of its template.
-- The template, JSON and the listing of skills are parameters.
use whiteagent.Common.{
  Bool, true, false, not, ◌&&◌, ◌||◌, Option, none, some, List, [], ◌∷◌, ◌++◌, Text, codes, text_eq,
  text_le, if◌then◌else◌, is_empty,
}
use whiteagent.Entity.{Message, MessageKind, no_kind, message_kind, reaction_kind, cron_kind}
use whiteagent.Llm.{ToolDef}
use whiteagent.Loop.{Tenant, Agent, User, Capabilities}
use whiteagent.Prompt.{open_tag, close_tag, child, child_raw}

-- What the prompt reads of a port.ToolPlugin
pub record Tool : Type 0 where
  pub name : Text
  pub description : Text
  pub parameters : Text
  pub instructions : Text

-- entity.Skill: `of_user` is whether its level is SkillLevelUser.
pub record Skill : Type 0 where
  pub name : Text
  pub description : Text
  pub of_user : Bool

pub record PromptData : Type 0 where
  pub tenant_id : Text
  pub tenant_name : Text
  pub tenant_instructions : Text
  pub agent_id : Text
  pub agent_name : Text
  pub agent_instructions : Text
  pub user_id : Text
  pub user_name : Text
  pub memory : Text
  pub tool_descriptions : Text
  pub tool_instructions : Text
  pub is_group : Bool
  pub is_cron : Bool
  pub has_reactions : Bool
  pub channel_context : List (Text × Text)
  pub skills_block : Text
  pub out_msg_path : Text

-- `tmpl.Execute`, `json.Compact`, the tools, and of the rest what is not nil: the list of skills and the
-- paths of the sandbox.
pub record Renderer (W : Type 0) : Type 0 where
  pub template : PromptData → Text
  pub compact : Text → Option Text
  pub tools : List Tool
  pub list_skills : Option (Text → Text → W → Option (List Skill) × W)
  pub user_home : Text → Text
  pub tenant_home : Text → Text

-- What Build is called with.
pub record Input : Type 0 where
  pub tenant : Option Tenant
  pub agent : Option Agent
  pub user : Option User
  pub msg : Message
  pub conversation : Text
  pub caps : Capabilities
  pub up_to : Option Text
  pub out_path : Text

abbrev contains : Text → List Text → Bool
contains name [] = false
contains name (n ∷ ns) = text_eq name n || contains name ns

abbrev pub is_allowed : Option Tenant → Text → Bool
is_allowed none name = true
is_allowed (some t) name = is_empty t.allowed_tools || contains name t.allowed_tools

abbrev pub is_offered : Option Tenant → Capabilities → Tool → Bool
is_offered tenant caps t =
    is_allowed tenant t.name && (caps.reactions || not (text_eq t.name (codes "reaction")))

pub filter_tools : Option Tenant → Capabilities → List Tool → List Tool
filter_tools tenant caps [] = []
filter_tools tenant caps (t ∷ ts) =
    let rest = filter_tools tenant caps ts in if is_offered tenant caps t then t ∷ rest else rest

pub tool_defs : List Tool → List ToolDef
tool_defs [] = []
tool_defs (t ∷ ts) =
    record { name = t.name; description = t.description; parameters = t.parameters } ∷ tool_defs ts

pub filtered_tool_defs : Option Tenant → Capabilities → List Tool → List ToolDef
unfolding filter_tools tool_defs
filtered_tool_defs tenant caps tools = tool_defs (filter_tools tenant caps tools)

-- The entries of a map, by their keys.
insert_entry : Text × Text → List (Text × Text) → List (Text × Text)
insert_entry e [] = e ∷ []
insert_entry e (x ∷ xs) =
    let rest = insert_entry e xs in if text_le e.0 x.0 then e ∷ (x ∷ xs) else x ∷ rest

sort_entries : List (Text × Text) → List (Text × Text)
unfolding insert_entry
sort_entries [] = []
sort_entries (e ∷ es) = insert_entry e (sort_entries es)

abbrev build_channel_context : Message → List (Text × Text)
build_channel_context m = sort_entries m.metadata

skill_path : Text → Text → Skill → Text
skill_path user_home tenant_home s =
    (if s.of_user then user_home else tenant_home) ++ codes "/skills/" ++ s.name

skills_text : Text → Text → List Skill → Text
unfolding skill_path
skills_text user_home tenant_home [] = []
skills_text user_home tenant_home (s ∷ ss) =
    open_tag (codes "skill") []
    ++ child (codes "name") s.name
    ++ child (codes "description") s.description
    ++ child (codes "path") (skill_path user_home tenant_home s)
    ++ close_tag (codes "skill")
    ++ skills_text user_home tenant_home ss

build_skills_xml : Text → Text → List Skill → Text
unfolding skills_text
build_skills_xml user_home tenant_home ss =
    open_tag (codes "skills") []
    ++ skills_text user_home tenant_home ss
    ++ close_tag (codes "skills")

tools_text : (Text → Option Text) → List Tool → Text
tools_text compact [] = []
tools_text compact (t ∷ ts) =
    open_tag (codes "tool") ((codes "name", t.name) ∷ [])
    ++ child (codes "description") t.description
    ++ child_raw (codes "parameters")
        (elim (compact t.parameters) [ none ↦ t.parameters | some short ↦ short ])
    ++ close_tag (codes "tool")
    ++ tools_text compact ts

build_tool_xml : (Text → Option Text) → List Tool → Text
unfolding tools_text
build_tool_xml compact [] = codes "<tools/>"
build_tool_xml compact (t ∷ ts) =
    open_tag (codes "tools") [] ++ tools_text compact (t ∷ ts) ++ close_tag (codes "tools")

-- Non-empty parts, with blank lines between them.
abbrev joined_to : Text → Text → Text
joined_to part rest = if is_empty rest then part else part ++ codes "\n\n" ++ rest

build_tool_instructions : List Tool → Text
build_tool_instructions [] = []
build_tool_instructions (t ∷ ts) =
    let rest = build_tool_instructions ts in
    if is_empty t.instructions then rest else joined_to t.instructions rest

abbrev is_cron : MessageKind → Bool
is_cron cron_kind = true
is_cron no_kind = false
is_cron message_kind = false
is_cron reaction_kind = false

-- A field of what may be nil.
abbrev of : {A : Type 0} → (A → Text) → Option A → Text
of field none = []
of field (some a) = field a

module _ {W : Type 0} (renderer : Renderer W) where
  skills_block : Option (Text → Text → W → Option (List Skill) × W) → Input → W → Text × W
  unfolding build_skills_xml
  skills_block none input w = ([], w)
  skills_block (some list) input w =
      let tenant = of (λ t. t.id) input.tenant in
      let user = of (λ u. u.id) input.user in
      let (found, w') = list tenant user w in
      (
        build_skills_xml (renderer.user_home user) (renderer.tenant_home tenant)
            (elim found [ none ↦ [] | some skills ↦ skills ]),
        w',
      )

  unfoldable pub render_system : Input → Text → W → Text × W
  unfolding skills_block build_tool_xml build_tool_instructions sort_entries filter_tools
  render_system input memory w =
      let tools = filter_tools input.tenant input.caps renderer.tools in
      let (skills, w') = skills_block renderer.list_skills input w in
      (
        renderer.template (record {
          tenant_id = of (λ t. t.id) input.tenant;
          tenant_name = of (λ t. t.name) input.tenant;
          tenant_instructions = of (λ t. t.instructions) input.tenant;
          agent_id = of (λ a. a.id) input.agent;
          agent_name = of (λ a. a.name) input.agent;
          agent_instructions = of (λ a. a.instructions) input.agent;
          user_id = of (λ u. u.id) input.user;
          user_name = of (λ u. u.name) input.user;
          memory = memory;
          tool_descriptions = build_tool_xml renderer.compact tools;
          tool_instructions = build_tool_instructions tools;
          is_group = input.msg.is_group;
          is_cron = is_cron input.msg.kind;
          has_reactions = input.caps.reactions;
          channel_context = build_channel_context input.msg;
          skills_block = skills;
          out_msg_path = input.out_path;
        }),
        w',
      )
